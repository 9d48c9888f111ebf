-- ===== src/Prepare/Partials/Gathered.antt =====
-- What the first loop of `clean_stale_partials` gathers from the directory.
use julie_semantic_sidecar.Prelude.{
  String, true, false, Bool-cases, Option-cases, ◌≡◌, refl, sym, ap, ◌∙◌, subst, ◌⊎◌, inl, inr,
  List, [], ◌∷◌, ◌++◌, Option, none, some, Result, ok, err, All, Among, here, there, arith,
}
use julie_semantic_sidecar.Prepare.Partials.{
  model_of_partial, Entry, Found, is_lock, is_partial, add_entry, collect,
}

Among-append-left : {A : Type 0} (a : A) (xs ys : List A) → Among a xs → Among a (xs ++ ys)
Among-append-left a [] ys h = elim h [ ]
Among-append-left a (x ∷ xs) ys (here e) = here e
Among-append-left a (x ∷ xs) ys (there h) = there (Among-append-left a xs ys h)

Among-append-last : {A : Type 0} (a : A) (xs : List A) → Among a (xs ++ a ∷ [])
Among-append-last a [] = here refl
Among-append-last a (x ∷ xs) = there (Among-append-last a xs)

pub Among-snoc :
    {A : Type 0} (a b : A) (xs : List A) → Among a (xs ++ b ∷ []) → Among a xs ⊎ (b ≡ a)
Among-snoc a b [] (here e) = inr e
Among-snoc a b [] (there h) = elim h [ ]
Among-snoc a b (x ∷ xs) (here e) = inl (here e)
Among-snoc a b (x ∷ xs) (there h) = elim (Among-snoc a b xs h) [
  | inl k ↦ inl (there k)
  | inr e ↦ inr e
]

-- What one entry adds to the lists.
data Adds (e : Entry) (s s' : Found) : Type 0 where
  adds_lock :
      is_lock e ≡ true
      → s'.locks ≡ s.locks ++ e ∷ []
      → s'.attributed ≡ s.attributed
      → s'.unattributed ≡ s.unattributed
      → Adds e s s'
  adds_attributed :
      (m : String)
      → is_lock e ≡ false
      → is_partial e ≡ true
      → model_of_partial e.name ≡ some m
      → s'.locks ≡ s.locks
      → s'.attributed ≡ s.attributed ++ (m, e.path) ∷ []
      → s'.unattributed ≡ s.unattributed
      → Adds e s s'
  adds_unattributed :
      is_lock e ≡ false
      → is_partial e ≡ true
      → model_of_partial e.name ≡ none
      → s'.locks ≡ s.locks
      → s'.attributed ≡ s.attributed
      → s'.unattributed ≡ s.unattributed ++ e.path ∷ []
      → Adds e s s'
  adds_nothing : is_lock e ≡ false → s' ≡ s → Adds e s s'

add_entry-Adds : (e : Entry) (s : Found) → Adds e s (add_entry e s)
unfolding add_entry
add_entry-Adds e s = elim (Bool-cases (is_lock e)) [
  | inl lock ↦ rw (lock, add_entry) (adds_lock lock refl refl refl)
  | inr other ↦ elim (Bool-cases (is_partial e)) [
    | inr plain ↦ rw (other, plain, add_entry) (adds_nothing other refl)
    | inl partial ↦ elim (Option-cases (model_of_partial e.name)) [
      | inl n ↦ rw (other, partial, n, add_entry) (adds_unattributed other partial n refl refl refl)
      | inr (m, h) ↦
          rw (other, partial, h, add_entry) (adds_attributed m other partial h refl refl refl)
    ]
  ]
]

-- An entry of the directory that is a partial file at the path, of the model or of none.
abbrev pub Listed : List (Result Entry String) → Option String → String → Type 0
Listed list model path =
    (e : Entry) × Among (ok e) list
    × (is_lock e ≡ false)
    × (is_partial e ≡ true)
    × (model_of_partial e.name ≡ model)
    × (e.path ≡ path)

Listed-later :
    (r : Result Entry String) (list : List (Result Entry String)) (model : Option String)
    (path : String)
    → Listed list model path
    → Listed (r ∷ list) model path
Listed-later r list model path (e, place, a, b, c, d) = (e, there place, a, b, c, d)

attributed_lem :
    (e : Entry) (s s' : Found) (m path : String)
    → Adds e s s'
    → Among (m, path) s'.attributed
    → Among (m, path) s.attributed ⊎ Listed (ok e ∷ []) (some m) path
attributed_lem e s s' m path (adds_lock l a b c) h = inl (subst (Among (m, path)) b h)
attributed_lem e s s' m path (adds_unattributed l p n a b c) h = inl (subst (Among (m, path)) b h)
attributed_lem e s s' m path (adds_nothing l same) h =
    inl (subst (λ (t : Found). Among (m, path) t.attributed) same h)
attributed_lem e s s' m path (adds_attributed m' l p n a b c) h =
    elim (Among-snoc (m, path) (m', e.path) s.attributed (subst (Among (m, path)) b h)) [
      | inl before ↦ inl before
      | inr now ↦ inr (
        e,
        here refl,
        l,
        p,
        n ∙ ap (λ (q : String × String). some q.0) now,
        ap (λ (q : String × String). q.1) now,
      )
    ]

unattributed_lem :
    (e : Entry) (s s' : Found) (path : String)
    → Adds e s s'
    → Among path s'.unattributed
    → Among path s.unattributed ⊎ Listed (ok e ∷ []) none path
unattributed_lem e s s' path (adds_lock l a b c) h = inl (subst (Among path) c h)
unattributed_lem e s s' path (adds_attributed m l p n a b c) h = inl (subst (Among path) c h)
unattributed_lem e s s' path (adds_nothing l same) h =
    inl (subst (λ (t : Found). Among path t.unattributed) same h)
unattributed_lem e s s' path (adds_unattributed l p n a b c) h =
    elim (Among-snoc path e.path s.unattributed (subst (Among path) c h)) [
      | inl before ↦ inl before
      | inr now ↦ inr (e, here refl, l, p, n, now)
    ]

locks_lem : (e l : Entry) (s s' : Found) → Adds e s s' → Among l s.locks → Among l s'.locks
locks_lem e l s s' (adds_lock k a b c) h =
    subst (Among l) (sym a) (Among-append-left l s.locks (e ∷ []) h)
locks_lem e l s s' (adds_attributed m k p n a b c) h = subst (Among l) (sym a) h
locks_lem e l s s' (adds_unattributed k p n a b c) h = subst (Among l) (sym a) h
locks_lem e l s s' (adds_nothing k same) h = subst (λ (t : Found). Among l t.locks) (sym same) h

lock_added : (e : Entry) (s s' : Found) → Adds e s s' → is_lock e ≡ true → Among e s'.locks
lock_added e s s' (adds_lock k a b c) h = subst (Among e) (sym a) (Among-append-last e s.locks)
lock_added e s s' (adds_attributed m k p n a b c) h = absurd (ground arith)
lock_added e s s' (adds_unattributed k p n a b c) h = absurd (ground arith)
lock_added e s s' (adds_nothing k same) h = absurd (ground arith)

-- A lock of the directory is known, or is no lock.
abbrev pub Known : Found → Result Entry String → Type 0
Known s (err reason) = Unit
Known s (ok l) = (is_lock l ≡ false) ⊎ Among l s.locks

first_of :
    (e : Entry) (list : List (Result Entry String)) (model : Option String) (path : String)
    → Listed (ok e ∷ []) model path
    → Listed (ok e ∷ list) model path
first_of e list model path (f, here same, a, b, c, d) = (f, here same, a, b, c, d)
first_of e list model path (f, there place, a, b, c, d) = elim place [ ]

-- What `collect` gathers comes from the directory, and no lock is missed.
pub record Gathered (list : List (Result Entry String)) (s s' : Found) : Type 0 where
  pub attributed :
      (m path : String)
      → Among (m, path) s'.attributed
      → Among (m, path) s.attributed ⊎ Listed list (some m) path
  pub unattributed :
      (path : String)
      → Among path s'.unattributed
      → Among path s.unattributed ⊎ Listed list none path
  pub grows : (l : Entry) → Among l s.locks → Among l s'.locks
  pub known : All (Known s') list

abbrev found_or : Found → Result Found String → Found
found_or s (ok t) = t
found_or s (err reason) = s

pub collect-Gathered :
    (list : List (Result Entry String)) (s s' : Found) → collect list s ≡ ok s' → Gathered list s s'
unfolding collect
collect-Gathered [] s s' h =
    let same : s ≡ s' = ap (found_or s) h in
    record {
      attributed = λ m path place.
          inl (subst (λ (t : Found). Among (m, path) t.attributed) (sym same) place);
      unattributed =
          λ path place. inl (subst (λ (t : Found). Among path t.unattributed) (sym same) place);
      grows = λ l place. subst (λ (t : Found). Among l t.locks) same place;
      known = tt;
    }
collect-Gathered (err reason ∷ rest) s s' h = absurd (ground arith)
collect-Gathered (ok e ∷ rest) s s' h =
    let t = add_entry e s in
    let adds = add_entry-Adds e s in
    let later = collect-Gathered rest t s' h in
    record {
      attributed = λ m path place. elim (later.attributed m path place) [
        | inr found ↦ inr (Listed-later (ok e) rest (some m) path found)
        | inl held ↦ elim (attributed_lem e s t m path adds held) [
          | inl before ↦ inl before
          | inr now ↦ inr (first_of e rest (some m) path now)
        ]
      ];
      unattributed = λ path place. elim (later.unattributed path place) [
        | inr found ↦ inr (Listed-later (ok e) rest none path found)
        | inl held ↦ elim (unattributed_lem e s t path adds held) [
          | inl before ↦ inl before
          | inr now ↦ inr (first_of e rest none path now)
        ]
      ];
      grows = λ l place. later.grows l (locks_lem e l s t adds place);
      known = (
        elim (Bool-cases (is_lock e)) [
          | inl lock ↦ inr (later.grows e (lock_added e s t adds lock))
          | inr other ↦ inl other
        ],
        later.known,
      );
    }
