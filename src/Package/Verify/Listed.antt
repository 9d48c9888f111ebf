-- ===== src/Package/Verify/Listed.antt =====
-- The names that a directory's listing has, against `payload_files` and `relative_name`.
use text.Mathlib.TextEquality.{eq_iff}
use julie_semantic_sidecar.Prelude.{
  String, str_eq, true, false, Bool-cases, ◌≡◌, ◌≢◌, refl, sym, ap, ◌∙◌, subst, inl, inr, List, [],
  ◌∷◌, Option, none, some, Result, ok, err, ok_or, Result-cases, arith,
}
use julie_semantic_sidecar.Package.Verify.{
  DirEntry, is_manifest_file, add_payload, payload, relative_names,
}

-- A listing without an error, of regular files with names in UTF-8 beside the manifest, and those names.
pub data Lists : List (Result DirEntry String) → List String → Type 0 where
  nothing : Lists [] []
  manifest_file :
      {e : DirEntry} {entries : List (Result DirEntry String)} {names : List String}
      → e.file_name ≡ some "package-manifest.json"
      → Lists entries names
      → Lists (ok e ∷ entries) names
  regular_file :
      {e : DirEntry} {entries : List (Result DirEntry String)} {names : List String} {name : String}
      → e.file_name ≡ some name
      → name ≢ "package-manifest.json"
      → e.is_file ≡ ok true
      → Lists entries names
      → Lists (ok e ∷ entries) (name ∷ names)

is_manifest_file_lem :
    (o : Option String) → is_manifest_file o ≡ true → o ≡ some "package-manifest.json"
is_manifest_file_lem none h = absurd (ground arith)
is_manifest_file_lem (some name) h = ap some ((eq_iff name "package-manifest.json").0 h)

not_manifest_lem :
    (o : Option String) (name : String)
    → o ≡ some name
    → is_manifest_file o ≡ false
    → name ≢ "package-manifest.json"
not_manifest_lem o name e h same =
    let k = subst (λ x. is_manifest_file x ≡ false) (e ∙ ap some same) h in absurd (ground arith)

ok_lem : {A : Type 0} (a b : A) → ◌≡◌ {A = Result A String} (ok a) (ok b) → a ≡ b
ok_lem {A} a b e = ap (λ (r : Result A String). elim r [ ok x ↦ x | err m ↦ a ]) e

-- One name more.
listed :
    (e : DirEntry) (entries : List (Result DirEntry String)) (es : List DirEntry)
    (actual : List String)
    → is_manifest_file e.file_name ≡ false
    → e.is_file ≡ ok true
    → ((names : List String) → relative_names es ≡ ok names → Lists entries names)
    → relative_names (e ∷ es) ≡ ok actual
    → Lists (ok e ∷ entries) actual
unfolding relative_names
listed e entries es actual other regular rest h =
    elim (Result-cases (ok_or {E = String} e.file_name "package path is not valid UTF-8")) [
      | inr (reason, bad) ↦ absurd (ground arith)
      | inl (name, a) ↦ elim (Result-cases (relative_names es)) [
        | inr (reason, bad) ↦ absurd (ground arith)
        | inl (names, b) ↦
            let named = named_lem e.file_name name a in
            let whole : ◌≡◌ {A = Result (List String) String} (ok (name ∷ names)) (ok actual) =
              rw (a, b, relative_names) at h in
            subst (Lists (ok e ∷ entries)) (ok_lem (name ∷ names) actual whole) (
              regular_file named (not_manifest_lem e.file_name name named other) regular
                (rest names b))
      ]
    ]
  where
    named_lem :
        (o : Option String) (name : String)
        → ok_or {E = String} o "package path is not valid UTF-8" ≡ ok name
        → o ≡ some name
    named_lem none name a = absurd (ground arith)
    named_lem (some other) name a = ap some (ok_lem other name a)

pub payload-Lists :
    (entries : List (Result DirEntry String)) (found : List DirEntry) (actual : List String)
    → payload entries ≡ ok found
    → relative_names found ≡ ok actual
    → Lists entries actual
unfolding payload relative_names
payload-Lists [] found actual h k =
    let none_found = ok_lem [] found h in
    subst (Lists [])
      (ok_lem [] actual (subst (λ es. relative_names es ≡ ok actual) (sym none_found) k)) nothing
payload-Lists (err reason ∷ entries) found actual h k = absurd (ground arith)
payload-Lists (ok e ∷ entries) found actual h k = elim (Bool-cases (is_manifest_file e.file_name)) [
  | inl skipped ↦
      manifest_file (is_manifest_file_lem e.file_name skipped)
        (payload-Lists entries found actual (rw (skipped) at h) k)
  | inr other ↦
      let taken = rw (other) at h in
      elim (Result-cases e.is_file) [
        | inr (reason, bad) ↦ let k' = rw (bad) at taken in absurd (ground arith)
        | inl (b, sort) ↦ elim (Bool-cases b) [
          | inr irregular ↦ let k' = rw (sort, irregular) at taken in absurd (ground arith)
          | inl regular ↦ elim (Result-cases (payload entries)) [
            | inr (reason, bad) ↦ let k' = rw (sort, regular, bad) at taken in absurd (ground arith)
            | inl (es, p) ↦
                let added =
                  subst (λ r. add_payload e r (payload entries) ≡ ok found) (sort ∙ ap ok regular)
                    taken in
                let whole : ◌≡◌ {A = Result (List DirEntry) String} (ok (e ∷ es)) (ok found) =
                  rw (p) at added in
                listed e entries es actual other (sort ∙ ap ok regular)
                  (λ names n. payload-Lists entries es names p n)
                  (subst (λ fs. relative_names fs ≡ ok actual) (sym (ok_lem (e ∷ es) found whole))
                    k)
          ]
        ]
      ]
]

pub Lists-payload :
    {entries : List (Result DirEntry String)} {actual : List String}
    → Lists entries actual
    → (found : List DirEntry) × (payload entries ≡ ok found) × (relative_names found ≡ ok actual)
unfolding payload relative_names
Lists-payload nothing = ([], refl, refl)
Lists-payload (manifest_file named rest) =
    let (found, p, n) = Lists-payload rest in (found, rw (named) p, n)
Lists-payload (regular_file {e} {entries} {names} {name} named other regular rest) =
    let (found, p, n) = Lists-payload rest in
    let unskipped : str_eq name "package-manifest.json" ≡ false = differ name other in
    (e ∷ found, rw (named, unskipped, regular, p) refl, rw (named, n) refl)
  where
    differ : (s : String) → s ≢ "package-manifest.json" → str_eq s "package-manifest.json" ≡ false
    differ s h = elim (Bool-cases (str_eq s "package-manifest.json")) [
      | inl same ↦ absurd (h ((eq_iff s "package-manifest.json").0 same))
      | inr off ↦ off
    ]
