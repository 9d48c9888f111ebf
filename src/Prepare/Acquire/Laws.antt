-- ===== src/Prepare/Acquire/Laws.antt =====
-- What `acquire` leaves: the file under its final name is verified or untouched, and the events end
-- with one verdict.
use julie_semantic_sidecar.Prelude.{
  ℕ, String, false, Bool-cases, ◌≡◌, refl, sym, ap, ◌∙◌, subst, ◌⊎◌, inl, inr, List, [], ◌∷◌, ◌++◌,
  Option, none, some, if◌then◌else◌, Result, ok, err, Result-cases,
}
use mathlib.Core.List.{append_assoc}
use julie_semantic_sidecar.Prepare.Acquire.{
  PrepareRequest, Prepared, Event, waiting, done, error, Io, State, emit, report, acquire_locked,
  hold_cache_lock, concluded, held, begun, acquire,
}
use julie_semantic_sidecar.Prepare.Acquire.Steps.{
  AllQuiet, Quietly, Kept-refl, Quietly-trans, Kept-emit, append-AllQuiet, IsVerified, Origin,
  Settled, acquire_locked-Settled,
}

module _ (sha256 : List ℕ → String) (io : Io) (request : PrepareRequest)
    (cache_dir final_path : String) where
  -- The final file when it is this process's turn: what it was, if no other process had the lock, and
  -- otherwise what it is after the wait.
  abbrev pub at_turn : State → Option (List ℕ)
  at_turn s = if io.try_lock then s.final_file else io.while_waiting s.final_file

  -- The final file was not touched, neither before this process's turn nor in it; or it was removed.
  abbrev pub IsLeft : State → State → Type 0
  IsLeft s s' =
      (s'.final_file ≡ s.final_file) ⊎ ((s'.final_file ≡ at_turn s) ⊎ (s'.final_file ≡ none))

  -- How a call ends, from a state in which the lock is not held.
  pub data IsAcquired (s : State) (r : Result Prepared String × State) : Type 0 where
    acquired :
        (prepared : Prepared) (s' : State) (bytes : List ℕ) (es : List Event)
        → r ≡ (ok prepared, s')
        → prepared.path ≡ final_path
        → s'.final_file ≡ some bytes
        → IsVerified sha256 io request cache_dir final_path bytes
        → Origin sha256 io request cache_dir final_path (at_turn s) prepared.already_cached bytes
        → s'.lock_held ≡ false
        → AllQuiet es
        → s'.events ≡ s.events ++ (es ++ done request.model_id final_path request.sha256 ∷ [])
        → IsAcquired s r
    failed :
        (message : String) (s' : State) (es : List Event)
        → r ≡ (err message, s')
        → IsLeft s s'
        → s'.lock_held ≡ false
        → AllQuiet es
        → s'.events
          ≡ s.events
            ++ (es
                ++ error request.model_id message (some final_path) (some request.source_url) ∷ [])
        → IsAcquired s r

  reported-IsAcquired :
      (message : String) (s t : State)
      → Quietly s t
      → IsLeft s t
      → t.lock_held ≡ false
      → IsAcquired s (report sha256 io request cache_dir final_path message t)
  unfolding report emit
  reported-IsAcquired message s t (es, quiet, e) f l = failed message _ es refl f l quiet (
      ap
        (λ events.
          events ++ error request.model_id message (some final_path) (some request.source_url) ∷ [])
        e
      ∙ append_assoc s.events es
          (error request.model_id message (some final_path) (some request.source_url) ∷ []))

  concluded-IsAcquired :
      (s t : State) (r : Result Prepared String × State)
      → Quietly s t
      → t.final_file ≡ at_turn s
      → Settled sha256 io request cache_dir final_path t r
      → IsAcquired s (concluded sha256 io request cache_dir final_path r)
  concluded-IsAcquired s t (err message, u) q f (q', inl same, l) =
      reported-IsAcquired message s _ (Quietly-trans s t u q q') (inr (inl (same ∙ f))) refl
  concluded-IsAcquired s t (err message, u) q f (q', inr gone, l) =
      reported-IsAcquired message s _ (Quietly-trans s t u q q') (inr (inr gone)) refl
  concluded-IsAcquired s t (ok prepared, u) (es, quiet, e) f
        (bytes, es', quiet', there, good, from, l, p, e') =
      acquired prepared _ bytes (es ++ es') refl p there good
        (subst
          (λ file. Origin sha256 io request cache_dir final_path file prepared.already_cached bytes)
          f from)
        refl (append-AllQuiet es es' quiet quiet')
        (let last = done request.model_id final_path request.sha256 ∷ [] in
          e'
          ∙ ap (λ events. events ++ (es' ++ last)) e
          ∙ append_assoc s.events es (es' ++ last)
          ∙ ap (λ events. s.events ++ events) (sym (append_assoc es es' last)))

  -- The lock is taken, or it is not; what others do to the final file is done by then.
  abbrev Locked : State → Result (Unit {0}) String × State → Type 0
  Locked s (err message, t) =
      Quietly s t
      × ((t.final_file ≡ s.final_file) ⊎ (t.final_file ≡ at_turn s))
      × (t.lock_held ≡ s.lock_held)
  Locked s (ok taken, t) = Quietly s t × (t.final_file ≡ at_turn s)

  hold_cache_lock-Locked :
      (s : State) → Locked s (hold_cache_lock sha256 io request cache_dir final_path s)
  unfolding hold_cache_lock emit
  hold_cache_lock-Locked s =
      let told = Kept-emit (waiting request.model_id) s refl in
      elim (Result-cases io.open_lock) [
        | inr (reason, e) ↦ rw (e, hold_cache_lock) ((Kept-refl s).0, inl refl, refl)
        | inl (opened, e) ↦ elim (Bool-cases io.try_lock) [
          | inl taken ↦ rw (e, hold_cache_lock, taken) ((Kept-refl s).0, refl)
          | inr busy ↦ elim (Result-cases io.lock) [
            | inr (reason, e') ↦ rw (e, hold_cache_lock, busy, e') (told.0, inr refl, refl)
            | inl (taken, e') ↦ rw (e, hold_cache_lock, busy, e') (told.0, refl)
          ]
        ]
      ]

  held-IsAcquired :
      (s : State) (r : Result (Unit {0}) String × State)
      → s.lock_held ≡ false
      → Locked s r
      → IsAcquired s (held sha256 io request cache_dir final_path r)
  held-IsAcquired s (err message, t) free (q, inl f, l) =
      reported-IsAcquired message s t q (inl f) (l ∙ free)
  held-IsAcquired s (err message, t) free (q, inr f, l) =
      reported-IsAcquired message s t q (inr (inl f)) (l ∙ free)
  held-IsAcquired s (ok taken, t) free (q, f) =
      concluded-IsAcquired s t (acquire_locked sha256 io request cache_dir final_path t) q f
        (acquire_locked-Settled sha256 io request cache_dir final_path t)

  begun-IsAcquired :
      (created : Result (Unit {0}) String) (s : State)
      → s.lock_held ≡ false
      → IsAcquired s (begun sha256 io request cache_dir final_path created s)
  unfolding begun
  begun-IsAcquired (err reason) s free = reported-IsAcquired _ s s (Kept-refl s).0 (inl refl) free
  begun-IsAcquired (ok created) s free =
      held-IsAcquired s (hold_cache_lock sha256 io request cache_dir final_path s) free
        (hold_cache_lock-Locked s)

  -- From a state in which this process does not hold the lock, whatever the file system, the server and
  -- the other processes answer, and whatever these do to the final file while this one waits. A success
  -- leaves bytes under the final name whose digest is the pinned one, and adds `done` as the last event:
  -- they were there when the lock was taken, and the answer says that they were cached; or they were
  -- downloaded, are no more than the pinned number, and there was no file with the pinned digest when
  -- the lock was taken. A failure leaves the final file as it was before the call or after the wait, or
  -- removes it, and adds `error` with the message as the last event. Either way the other events that are added are no verdicts, and the
  -- lock is free again.
  pub acquire-IsAcquired :
      (s : State)
      → s.lock_held ≡ false
      → IsAcquired s (acquire sha256 io request cache_dir final_path s)
  unfolding acquire
  acquire-IsAcquired s free = begun-IsAcquired io.create_dir_all s free
