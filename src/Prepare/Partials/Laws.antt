-- ===== src/Prepare/Partials/Laws.antt =====
-- What `clean_stale_partials` deletes.
use text.Mathlib.TextEquality.{eq_iff}
use julie_semantic_sidecar.Prelude.{
  String, true, false, if◌then◌else◌, Bool-cases, ◌≡◌, ◌≢◌, refl, sym, ap, subst, ◌⊎◌, inl, inr,
  List, [], ◌∷◌, ◌++◌, Option, none, some, Result, ok, err, Result-cases, All, Among, Among-cons,
  here, there, arith,
}
use julie_semantic_sidecar.Prepare.Partials.{
  Entry, file_stem, Listing, entries, Removal, removed, absent, failed, Io, Found, is_lock, collect,
  add_held, contains_text, held_models, any_lock_held, remove_partial, remove_all, unheld, sorted,
  clean_found, nothing, clean_listing, clean_stale_partials,
}
use julie_semantic_sidecar.Prepare.Partials.Gathered.{Among-snoc, Listed, Known, collect-Gathered}

module _ (io : Io) where
  held_models_lem :
      (l : Entry) (locks : List Entry) (m : String)
      → Among l locks
      → io.try_hold l.path ≡ false
      → file_stem l ≡ some m
      → contains_text m (held_models io locks) ≡ true
  unfolding held_models
  held_models_lem l [] m h e f = elim h [ ]
  held_models_lem l (k ∷ rest) m (here same) e f =
      let busy : io.try_hold k.path ≡ false =
        subst (λ (q : Entry). io.try_hold q.path ≡ false) (sym same) e in
      let stem : file_stem k ≡ some m = subst (λ (q : Entry). file_stem q ≡ some m) (sym same) f in
      rw (busy, stem, held_models) (ground (arith, eq_iff m m))
  held_models_lem l (k ∷ rest) m (there h) e f =
      let later = held_models_lem l rest m h e f in
      elim (Bool-cases (io.try_hold k.path)) [
        | inl free ↦ rw (free, held_models) later
        | inr busy ↦ rw (busy, held_models) (held_later m (held_models io rest) (file_stem k) later)
      ]
    where
      held_later :
          (n : String) (models : List String) (o : Option String)
          → contains_text n models ≡ true
          → contains_text n (add_held o models) ≡ true
      held_later n models none h = h
      held_later n models (some k) h = ground arith

  any_lock_held_lem :
      (l : Entry) (locks : List Entry)
      → Among l locks
      → any_lock_held io locks ≡ false
      → io.try_hold l.path ≡ true
  unfolding any_lock_held
  any_lock_held_lem l [] h e = elim h [ ]
  any_lock_held_lem l (k ∷ rest) (here same) e =
      subst (λ (q : Entry). io.try_hold q.path ≡ true) same (ground arith)
  any_lock_held_lem l (k ∷ rest) (there h) e = any_lock_held_lem l rest h (ground arith)

  unheld_lem :
      (held : List String) (attributed : List (String × String)) (path : String)
      → Among path (unheld held attributed)
      → (m : String) × Among (m, path) attributed × (contains_text m held ≡ false)
  unfolding unheld
  unheld_lem held [] path h = elim h [ ]
  unheld_lem held ((m, p) ∷ rest) path h = elim (Bool-cases (contains_text m held)) [
    | inl owned ↦
        let (n, place, free) = unheld_lem held rest path (rw (owned, unheld) at h) in
        (n, there place, free)
    | inr free ↦ elim (Among-cons path p (unheld held rest) (rw (free, unheld) at h)) [
      | inl same ↦ (m, here (ap (λ q. (m, q)) same), free)
      | inr later ↦ let (n, place, f) = unheld_lem held rest path later in (n, there place, f)
    ]
  ]

  remove_partial_lem :
      (p : String) (deleted : List String) (path : String)
      → Among path (remove_partial io p deleted).1
      → Among path deleted ⊎ (p ≡ path)
  unfolding remove_partial
  remove_partial_lem p deleted path h = go (io.remove_file p) h
    where
      go :
          (r : Removal)
          → Among path
              (elim r as (λ _. Result (Unit {0}) String × List String) [
                | removed ↦ (ok tt, deleted ++ p ∷ [])
                | absent ↦ (ok tt, deleted)
                | failed reason ↦ (err reason, deleted)
              ]).1
          → Among path deleted ⊎ (p ≡ path)
      go removed h = Among-snoc path p deleted h
      go absent h = inl h
      go (failed reason) h = inl h

  remove_all_lem :
      (paths deleted : List String) (path : String)
      → Among path (remove_all io paths deleted).1
      → Among path deleted ⊎ Among path paths
  unfolding remove_all
  remove_all_lem [] deleted path h = inl h
  remove_all_lem (p ∷ paths) deleted path h =
      let step = remove_partial io p deleted in
      let first : Among path step.1 → Among path deleted ⊎ Among path (p ∷ paths) = λ k.
        elim (remove_partial_lem p deleted path k) [
          | inl before ↦ inl before
          | inr same ↦ inr (here same)
        ] in
      elim (Result-cases step.0) [
        | inr (reason, e) ↦ first (rw (e, remove_all) at h)
        | inl (done, e) ↦ elim (remove_all_lem paths step.1 path (rw (e, remove_all) at h)) [
          | inl now ↦ first now
          | inr later ↦ inr (there later)
        ]
      ]

  -- A lock that is no reason to keep a partial of the model: it could be taken, or is another model's.
  abbrev pub Spares : String → Result Entry String → Type 0
  Spares m (err reason) = Unit
  Spares m (ok l) = (is_lock l ≡ false) ⊎ ((io.try_hold l.path ≡ true) ⊎ (file_stem l ≢ some m))

  abbrev pub Frees : Result Entry String → Type 0
  Frees (err reason) = Unit
  Frees (ok l) = (is_lock l ≡ false) ⊎ (io.try_hold l.path ≡ true)

  -- A partial download that nobody owns.
  pub data IsStale (list : List (Result Entry String)) (path : String) : Type 0 where
    of_model : (m : String) → Listed list (some m) path → All (Spares m) list → IsStale list path
    of_none : Listed list none path → All Frees list → IsStale list path

  All-Spares :
      (s : Found) (m : String) (list : List (Result Entry String))
      → contains_text m (held_models io s.locks) ≡ false
      → All (Known s) list
      → All (Spares m) list
  All-Spares s m [] free known = tt
  All-Spares s m (err reason ∷ list) free (k, known) = (tt, All-Spares s m list free known)
  All-Spares s m (ok l ∷ list) free (k, known) = (
    elim k [
      | inl other ↦ inl other
      | inr place ↦ elim (Bool-cases (io.try_hold l.path)) [
        | inl taken ↦ inr (inl taken)
        | inr busy ↦
            inr (inr (λ stem. absurd (ground (arith, held_models_lem l s.locks m place busy stem))))
      ]
    ],
    All-Spares s m list free known,
  )

  All-Frees :
      (s : Found) (list : List (Result Entry String))
      → any_lock_held io s.locks ≡ false
      → All (Known s) list
      → All Frees list
  All-Frees s [] free known = tt
  All-Frees s (err reason ∷ list) free (k, known) = (tt, All-Frees s list free known)
  All-Frees s (ok l ∷ list) free (k, known) = (
    elim k [ inl other ↦ inl other | inr place ↦ inr (any_lock_held_lem l s.locks place free) ],
    All-Frees s list free known,
  )

  sorted_lem : (r : Result (Unit {0}) String × List String) → (sorted r).1 ≡ r.1
  sorted_lem (ok done, deleted) = refl
  sorted_lem (err reason, deleted) = refl

  clean_found_lem :
      (s : Found) (path : String)
      → Among path (clean_found io s).1
      → Among path (unheld (held_models io s.locks) s.attributed)
        ⊎ ((any_lock_held io s.locks ≡ false) × Among path s.unattributed)
  unfolding clean_found
  clean_found_lem s path h =
      let owned = unheld (held_models io s.locks) s.attributed in
      let step = remove_all io owned [] in
      let first : Among path step.1 → Among path owned = λ k.
        elim (remove_all_lem owned [] path k) [ inl before ↦ elim before [ ] | inr now ↦ now ] in
      elim (Result-cases step.0) [
        | inr (reason, e) ↦ inl (first (rw (e, clean_found) at h))
        | inl (done, e) ↦
            let others = if any_lock_held io s.locks then [] else s.unattributed in
            let k : Among path (remove_all io others step.1).1 =
              subst (Among path) (sorted_lem (remove_all io others step.1))
                (rw (e, clean_found) at h) in
            elim (remove_all_lem others step.1 path k) [
              | inl before ↦ inl (first before)
              | inr now ↦ elim (Bool-cases (any_lock_held io s.locks)) [
                | inl held ↦ elim (rw (held) at now) [ ]
                | inr free ↦ inr (free, rw (free) at now)
              ]
            ]
      ]

  -- Whatever else fails: a file that is deleted is an entry of the directory with the name of a partial
  -- download, and no running download can own it. If its name has a model, every lock file of the
  -- directory could be taken or is that of another model; if it has none, every lock file could be
  -- taken.
  pub clean_stale_partials-IsStale :
      (list : List (Result Entry String)) (path : String)
      → io.read_dir ≡ entries list
      → Among path (clean_stale_partials io).1
      → IsStale list path
  unfolding clean_stale_partials clean_listing
  clean_stale_partials-IsStale list path e h =
      let k : Among path (clean_listing io (entries list)).1 =
        subst (λ (r : Listing). Among path (clean_listing io r).1) e h in
      elim (Result-cases (collect list nothing)) [
        | inr (reason, f) ↦ elim (rw (f, clean_listing) at k) [ ]
        | inl (s, f) ↦
            let all = collect-Gathered list nothing s f in
            elim (clean_found_lem s path (rw (f, clean_listing) at k)) [
              | inl owned ↦
                  let (m, place, free) =
                    unheld_lem (held_models io s.locks) s.attributed path owned in
                  elim (all.attributed m path place) [
                    | inl before ↦ elim before [ ]
                    | inr listed ↦ of_model m listed (All-Spares s m list free all.known)
                  ]
              | inr (free, place) ↦ elim (all.unattributed path place) [
                | inl before ↦ elim before [ ]
                | inr listed ↦ of_none listed (All-Frees s list free all.known)
              ]
            ]
      ]
