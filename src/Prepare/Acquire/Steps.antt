-- ===== src/Prepare/Acquire/Steps.antt =====
-- The steps of `acquire` under the lock: each adds quiet events only, up to the verdict.
use julie_semantic_sidecar.Prelude.{
  ℕ, ◌≤◌, ◌+◌, String, Bool, true, false, not, ltb, Bool-cases, Option-cases, ◌≡◌, refl, sym, ap,
  ◌∙◌, subst, ◌⊎◌, inl, inr, List, [], ◌∷◌, ◌++◌, length, length-append, Option, none, some, Result,
  ok, err, Result-cases, All, arith,
}
use mathlib.Core.List.{append_assoc, append-nil}
use julie_semantic_sidecar.Prelude.Str.{eq_ignore_ascii_case}
use julie_semantic_sidecar.Prepare.Acquire.{
  PrepareRequest, Prepared, Event, waiting, progress, done, error, Response, Io, State, emit,
  check_length, report_if, copy, place, copied, receive, download_verified, download_total_timeout,
  downloaded, preflight_disk, fetch_model, acquire_present, acquire_locked,
}

-- An event that is no verdict.
abbrev pub is_quiet : Event → Bool
is_quiet (waiting id) = true
is_quiet (progress id received total) = true
is_quiet (done id path sha256) = false
is_quiet (error id message path url) = false

abbrev pub AllQuiet : List Event → Type 0
AllQuiet events = All (λ e. is_quiet e ≡ true) events

pub append-AllQuiet : (es fs : List Event) → AllQuiet es → AllQuiet fs → AllQuiet (es ++ fs)
append-AllQuiet [] fs h k = k
append-AllQuiet (e ∷ es) fs (first, h) k = (first, append-AllQuiet es fs h k)

-- Nothing but quiet events were added.
abbrev pub Quietly : State → State → Type 0
Quietly s s' = (es : List Event) × AllQuiet es × (s'.events ≡ s.events ++ es)

-- The state is the same but for quiet events.
abbrev pub Kept : State → State → Type 0
Kept s s' = Quietly s s' × (s'.final_file ≡ s.final_file) × (s'.lock_held ≡ s.lock_held)

pub Kept-refl : (s : State) → Kept s s
Kept-refl s = (([], tt, sym (append-nil s.events)), refl, refl)

pub Quietly-trans : (s t u : State) → Quietly s t → Quietly t u → Quietly s u
Quietly-trans s t u (es, h, e) (fs, k, f) = (
  es ++ fs,
  append-AllQuiet es fs h k,
  f ∙ ap (λ events. events ++ fs) e ∙ append_assoc s.events es fs,
)

Kept-trans : (s t u : State) → Kept s t → Kept t u → Kept s u
Kept-trans s t u (q, f, l) (q', f', l') = (Quietly-trans s t u q q', f' ∙ f, l' ∙ l)

pub Kept-emit : (e : Event) (s : State) → is_quiet e ≡ true → Kept s (emit e s)
unfolding emit
Kept-emit e s h = ((e ∷ [], (h, tt), refl), refl, refl)

module _ (sha256 : List ℕ → String) (io : Io) (request : PrepareRequest)
    (cache_dir final_path : String) where
  abbrev pub IsVerified : List ℕ → Type 0
  IsVerified bytes = eq_ignore_ascii_case (sha256 bytes) request.sha256 ≡ true

  report_if-Kept :
      (b : Bool) (received : ℕ) (s : State)
      → Kept s (report_if sha256 io request cache_dir final_path b received s)
  report_if-Kept false received s = Kept-refl s
  report_if-Kept true received s =
      Kept-emit (progress request.model_id received request.size_bytes) s refl

  abbrev Fits : Result (List ℕ) String → Type 0
  Fits (ok bytes) = length bytes ≤ request.size_bytes
  Fits (err message) = Unit

  copy-Kept :
      (reads : List (Result (List ℕ) String)) (partial : List ℕ) (s : State)
      → length partial ≤ request.size_bytes
      → let r = copy sha256 io request cache_dir final_path reads partial s in Kept s r.1 × Fits r.0
  unfolding copy
  copy-Kept [] partial s h = (Kept-refl s, h)
  copy-Kept (err reason ∷ reads) partial s h = (Kept-refl s, tt)
  copy-Kept (ok [] ∷ reads) partial s h = (Kept-refl s, h)
  copy-Kept (ok (b ∷ bs) ∷ reads) partial s h =
      elim (Bool-cases (ltb request.size_bytes (length partial + length (b ∷ bs)))) [
        | inl over ↦ rw (over, copy) (Kept-refl s, tt)
        | inr under ↦ elim (Result-cases (io.write_all (length partial))) [
          | inr (reason, e) ↦ rw (under, copy, e) (Kept-refl s, tt)
          | inl (written, e) ↦
              let longer = partial ++ b ∷ bs in
              let shorter : length longer ≤ request.size_bytes =
                ground (arith, length-append partial (b ∷ bs)) in
              let due = io.is_due (length longer) in
              let s' = report_if sha256 io request cache_dir final_path due (length longer) s in
              let (kept, fits) = copy-Kept reads longer s' shorter in
              rw (under, copy, e)
                (Kept-trans s s' _ (report_if-Kept due (length longer) s) kept, fits)
        ]
      ]

  -- The bytes are in place, verified, and no more of them than pinned.
  abbrev Stored : State → State → Type 0
  Stored s s' =
      (bytes : List ℕ) × Quietly s s'
      × (s'.final_file ≡ some bytes)
      × IsVerified bytes
      × (length bytes ≤ request.size_bytes)
      × (s'.lock_held ≡ s.lock_held)

  -- Where it fails, the final file is as before.
  abbrev Placed : State → Result (Unit {0}) String × State → Type 0
  Placed s (err message, s') = Kept s s'
  Placed s (ok placed, s') = Stored s s'

  after_Kept :
      (s t : State) (r : Result (Unit {0}) String × State) → Kept s t → Placed t r → Placed s r
  after_Kept s t (err message, s') k p = Kept-trans s t s' k p
  after_Kept s t (ok placed, s') (q, f, l) (bytes, q', there, good, short, l') =
      (bytes, Quietly-trans s t s' q q', there, good, short, l' ∙ l)

  place-Placed :
      (partial : List ℕ) (s : State)
      → length partial ≤ request.size_bytes
      → Placed s (place sha256 io request cache_dir final_path partial s)
  unfolding place emit
  place-Placed partial s short =
      let s₁ = emit (progress request.model_id (length partial) request.size_bytes) s in
      let told = Kept-emit (progress request.model_id (length partial) request.size_bytes) s refl in
      elim (Result-cases io.flush) [
        | inr (reason, e) ↦ rw (e, place) (Kept-refl s)
        | inl (flushed, e) ↦
            elim (Bool-cases (not (eq_ignore_ascii_case (sha256 partial) request.sha256))) [
              | inl wrong ↦ rw (e, place, wrong) told
              | inr right ↦ elim (Result-cases io.persist) [
                | inr (reason, e') ↦ rw (e, place, right, e') told
                | inl (persisted, e') ↦
                    rw (e, place, right, e') (partial, told.0, refl, ground arith, short, refl)
              ]
            ]
      ]

  copied-Placed :
      (s t : State) (r : Result (List ℕ) String)
      → Kept s t
      → Fits r
      → Placed s (copied sha256 io request cache_dir final_path (r, t))
  copied-Placed s t (err message) k h = k
  copied-Placed s t (ok partial) k h = after_Kept s t _ k (place-Placed partial t h)

  receive-Placed :
      (response : Response) (s : State)
      → Placed s (receive sha256 io request cache_dir final_path response s)
  unfolding receive
  receive-Placed response s =
      let start = progress request.model_id 0 request.size_bytes in
      let s₁ = emit start s in
      let copy_all = copy sha256 io request cache_dir final_path response.reads [] s₁ in
      let (kept, fits) = copy-Kept response.reads [] s₁ (omega arith) in
      elim (Result-cases
        (check_length sha256 io request cache_dir final_path response.content_length)) [
          | inr (reason, e) ↦ rw (e, receive) (Kept-refl s)
          | inl (right, e) ↦ elim (Result-cases io.create_partial) [
            | inr (reason, e') ↦ rw (e, receive, e') (Kept-refl s)
            | inl (created, e') ↦
                rw (e, receive, e')
                  (copied-Placed s copy_all.1 copy_all.0
                    (Kept-trans s s₁ copy_all.1 (Kept-emit start s refl) kept) fits)
          ]
        ]

  download_verified-Placed :
      (s : State) → Placed s (download_verified sha256 io request cache_dir final_path s)
  unfolding download_verified
  download_verified-Placed s =
      elim (Result-cases (io.fetch (download_total_timeout request.size_bytes))) [
        | inr (reason, e) ↦ rw (e, download_verified) (Kept-refl s)
        | inl (response, e) ↦ rw (e, download_verified) (receive-Placed response s)
      ]

  -- There is no file, or one whose digest is not the pinned one.
  abbrev pub NeedsDownload : Option (List ℕ) → Type 0
  NeedsDownload none = Unit
  NeedsDownload (some bytes) = eq_ignore_ascii_case (sha256 bytes) request.sha256 ≡ false

  -- Where the bytes of a prepared model come from, given the file that was found: it is that file, and
  -- the answer says so; or it was downloaded, which that file made necessary.
  abbrev pub Origin : Option (List ℕ) → Bool → List ℕ → Type 0
  Origin found already_cached bytes =
      ((found ≡ some bytes) × (already_cached ≡ true))
      ⊎ (NeedsDownload found × (length bytes ≤ request.size_bytes) × (already_cached ≡ false))

  -- The outcome under the lock: `done` is the last event and the file is verified; or the file is as
  -- before or gone, with no verdict so far.
  abbrev pub Settled : State → Result Prepared String × State → Type 0
  Settled s (err message, s') =
      Quietly s s'
      × ((s'.final_file ≡ s.final_file) ⊎ (s'.final_file ≡ none))
      × (s'.lock_held ≡ s.lock_held)
  Settled s (ok prepared, s') =
      (bytes : List ℕ) × (es : List Event) × AllQuiet es
      × (s'.final_file ≡ some bytes)
      × IsVerified bytes
      × Origin s.final_file prepared.already_cached bytes
      × (s'.lock_held ≡ s.lock_held)
      × (prepared.path ≡ final_path)
      × (s'.events ≡ s.events ++ (es ++ done request.model_id final_path request.sha256 ∷ []))

  downloaded-Settled :
      (s : State) (r : Result (Unit {0}) String × State)
      → NeedsDownload s.final_file
      → Placed s r
      → Settled s (downloaded sha256 io request cache_dir final_path r)
  unfolding emit
  downloaded-Settled s (err message, t) need (q, f, l) = (q, inl f, l)
  downloaded-Settled s (ok placed, t) need (bytes, (es, quiet, e), there, good, short, l) = (
    bytes,
    es,
    quiet,
    there,
    good,
    inr (need, short, refl),
    l,
    refl,
    ap (λ events. events ++ done request.model_id final_path request.sha256 ∷ []) e
        ∙ append_assoc s.events es (done request.model_id final_path request.sha256 ∷ []),
  )

  fetch_model-Settled :
      (s : State)
      → NeedsDownload s.final_file
      → Settled s (fetch_model sha256 io request cache_dir final_path s)
  unfolding fetch_model
  fetch_model-Settled s need =
      elim (Result-cases (preflight_disk sha256 io request cache_dir final_path)) [
        | inr (reason, e) ↦ rw (e, fetch_model) ((Kept-refl s).0, inl refl, refl)
        | inl (enough, e) ↦
            rw (e, fetch_model)
              (downloaded-Settled s (download_verified sha256 io request cache_dir final_path s)
                need (download_verified-Placed s))
      ]

  -- A stale file that was removed.
  removed-Settled :
      (s : State) (r : Result Prepared String × State)
      → NeedsDownload s.final_file
      → Settled (record s { final_file = none }) r
      → Settled s r
  removed-Settled s (err message, t) need (q, inl same, l) = (q, inr same, l)
  removed-Settled s (err message, t) need (q, inr gone, l) = (q, inr gone, l)
  removed-Settled s (ok prepared, t) need
        (bytes, es, quiet, there, good, inl (before, cached), l, p, e) =
      absurd (ground arith)
  removed-Settled s (ok prepared, t) need
        (bytes, es, quiet, there, good, inr (gone, short, new), l, p, e) =
      (bytes, es, quiet, there, good, inr (need, short, new), l, p, e)

  acquire_present-Settled :
      (bytes : List ℕ) (s : State)
      → s.final_file ≡ some bytes
      → Settled s (acquire_present sha256 io request cache_dir final_path bytes s)
  unfolding acquire_present emit
  acquire_present-Settled bytes s there = elim (Result-cases io.read_final) [
    | inr (reason, e) ↦ rw (e, acquire_present) ((Kept-refl s).0, inl refl, refl)
    | inl (readable, e) ↦ elim (Bool-cases (eq_ignore_ascii_case (sha256 bytes) request.sha256)) [
      | inl good ↦
          rw (e, acquire_present, good)
            (bytes, [], tt, there, good, inl (there, refl), refl, refl, refl)
      | inr stale ↦ elim (Result-cases io.remove_file) [
        | inr (reason, e') ↦ rw (e, acquire_present, stale, e') ((Kept-refl s).0, inl refl, refl)
        | inl (removed, e') ↦
            rw (e, acquire_present, stale, e')
              (removed-Settled s _ (subst NeedsDownload (sym there) stale)
                (fetch_model-Settled (record s { final_file = none }) tt))
      ]
    ]
  ]

  pub acquire_locked-Settled :
      (s : State) → Settled s (acquire_locked sha256 io request cache_dir final_path s)
  unfolding acquire_locked
  acquire_locked-Settled s = elim (Option-cases s.final_file) [
    | inl e ↦
        subst (Settled s) (sym (locked_absent e))
          (fetch_model-Settled s (subst NeedsDownload (sym e) tt))
    | inr (bytes, e) ↦
        subst (Settled s) (sym (locked_present bytes e)) (acquire_present-Settled bytes s e)
  ]
    where
      locked : Option (List ℕ) → Result Prepared String × State
      locked file = elim file [
        | none ↦ fetch_model sha256 io request cache_dir final_path s
        | some bytes ↦ acquire_present sha256 io request cache_dir final_path bytes s
      ]

      locked_absent :
          s.final_file ≡ none
          → acquire_locked sha256 io request cache_dir final_path s
            ≡ fetch_model sha256 io request cache_dir final_path s
      locked_absent e = ap locked e

      locked_present :
          (bytes : List ℕ)
          → s.final_file ≡ some bytes
          → acquire_locked sha256 io request cache_dir final_path s
            ≡ acquire_present sha256 io request cache_dir final_path bytes s
      locked_present bytes e = ap locked e
