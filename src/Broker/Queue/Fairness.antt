-- ===== src/Broker/Queue/Fairness.antt =====
-- The polls that a waiting request can see pass it by.
use mathlib.Core.List.{append_assoc, append-nil}
use julie_semantic_sidecar.Prelude.{
  ℕ, suc, ◌+◌, ◌*◌, ◌≤◌, ◌<◌, ◌≡◌, refl, sym, ap, ◌∙◌, ◌⊎◌, inl, inr, List, [], ◌∷◌, ◌++◌, length,
  Among, leb, ltb, if◌then◌else◌, Bool-cases, here, there, arith,
}
use julie_semantic_sidecar.Broker.Queue.{
  RequestClass, Queued, State, BrokerQueue, new, push_back, try_enqueue, dequeue,
}
use julie_semantic_sidecar.Broker.Queue.Fifo.{Call, offer, poll, step, run}
use julie_semantic_sidecar.Broker.Queue.Bounds.{since-push_back, run-IsBounded}

-- How often the scheduler polls in a schedule.
abbrev pub polls {ℓ} : {T : Type ℓ} → List (Call T) → ℕ
polls [] = 0
polls (offer v d ∷ cs) = polls cs
polls (poll now ∷ cs) = suc (polls cs)

Among-append_right {ℓ} :
    {A : Type ℓ} {a : A} (xs : List A) {ys : List A} → Among a ys → Among a (xs ++ ys)
Among-append_right [] m = m
Among-append_right (x ∷ xs) m = there (Among-append_right xs m)

module _ {T : Type 0} (class_of : T → RequestClass) where
  abbrev since : BrokerQueue T → ℕ
  since q = q.state.interactive_since_batch_waited

  push_back_batch :
      (k : RequestClass) (v : Queued T) (s : State T)
      → (ys : List (Queued T)) × ((push_back k v s).batch ≡ s.batch ++ ys)
  unfolding push_back
  push_back_batch RequestClass.interactive v s = ([], sym (append-nil s.batch))
  push_back_batch RequestClass.batch v s = (v ∷ [], refl)

  -- An offer, accepted or not, leaves the batch queue's front and the counter alone.
  offer_batch :
      (v : T) (d : ℕ) (q : BrokerQueue T)
      → (ys : List (Queued T)) × ((step class_of (offer v d) q).after.state.batch
          ≡ q.state.batch ++ ys)
        × (since (step class_of (offer v d) q).after ≡ since q)
  unfolding step try_enqueue
  offer_batch v d q =
      let new : Queued T = record { value = v; deadline = d } in
      elim (Bool-cases (leb q.capacity (length q.state.interactive + length q.state.batch))) [
        | inl e ↦ rw (e, step, try_enqueue) ([], sym (append-nil q.state.batch), refl)
        | inr e ↦
            let (ys, grown) = push_back_batch (class_of v) new q.state in
            rw (e, step, try_enqueue) (ys, grown, since-push_back (class_of v) new q.state)
      ]

  poll_batch :
      (now : ℕ) (q : BrokerQueue T) (x : Queued T) (rest : List (Queued T))
      → q.state.batch ≡ x ∷ rest
      → let e = step class_of (poll now) q in
        ((e.served ≡ x.value ∷ []) × (e.after.state.batch ≡ rest) × (since e.after ≡ 0))
        ⊎ ((e.after.state.batch ≡ x ∷ rest) × (since e.after ≡ since q + 1) × (since q < 8))
  unfolding step dequeue
  poll_batch now q x rest e = ground arith

  batch_served_from :
      (cs : List (Call T)) (q : BrokerQueue T) (before after : List (Queued T)) (b : Queued T)
      → q.state.batch ≡ before ++ b ∷ after
      → 9 * suc (length before) ≤ polls cs + since q
      → since q ≤ 8
      → Among b.value (run class_of cs q).served
  unfolding run
  batch_served_from [] q before after b e h k = absurd (omega arith)
  batch_served_from (offer v d ∷ cs) q before after b e h k =
      let (ys, grown, same) = offer_batch v d q in
      Among-append_right _ (
        batch_served_from cs _ before (after ++ ys) b
          (grown ∙ ap (λ l. l ++ ys) e ∙ append_assoc before (b ∷ after) ys) (omega (arith, same))
          (omega (arith, same)))
  batch_served_from (poll now ∷ cs) q [] after b e h k = elim (poll_batch now q b after e) [
    | inl (served, _, _) ↦ rw served (here refl)
    | inr (left, more, less) ↦
        Among-append_right _
          (batch_served_from cs _ [] after b left (omega (arith, more)) (omega (arith, more)))
  ]
  batch_served_from (poll now ∷ cs) q (x ∷ before) after b e h k =
      elim (poll_batch now q x (before ++ b ∷ after) e) [
        | inl (served, left, reset) ↦ Among-append_right _ (
            batch_served_from cs _ before after b left (omega (arith, reset))
              (omega (arith, reset)))
        | inr (left, more, less) ↦ Among-append_right _ (
            batch_served_from cs _ (x ∷ before) after b left (omega (arith, more))
              (omega (arith, more)))
      ]

  -- Whatever has happened, the i-th waiting batch request is handed out within the next 9 * i polls,
  -- however many interactive requests arrive in between.
  pub batch_served :
      (n : ℕ) (past cs : List (Call T)) (before after : List (Queued T)) (b : Queued T)
      → (run class_of past (new n)).after.state.batch ≡ before ++ b ∷ after
      → 9 * suc (length before) ≤ polls cs
      → Among b.value (run class_of cs (run class_of past (new n)).after).served
  batch_served n past cs before after b e h =
      let bounds = run-IsBounded class_of n past in
      batch_served_from cs (run class_of past (new n)).after before after b e (omega arith)
        (omega (arith, bounds.burst))

  push_back_interactive :
      (k : RequestClass) (v : Queued T) (s : State T)
      → (ys : List (Queued T)) × ((push_back k v s).interactive ≡ s.interactive ++ ys)
  unfolding push_back
  push_back_interactive RequestClass.interactive v s = (v ∷ [], refl)
  push_back_interactive RequestClass.batch v s = ([], sym (append-nil s.interactive))

  offer_interactive :
      (v : T) (d : ℕ) (q : BrokerQueue T)
      → (ys : List (Queued T)) × ((step class_of (offer v d) q).after.state.interactive
          ≡ q.state.interactive ++ ys)
        × (since (step class_of (offer v d) q).after ≡ since q)
  unfolding step try_enqueue
  offer_interactive v d q =
      let new : Queued T = record { value = v; deadline = d } in
      elim (Bool-cases (leb q.capacity (length q.state.interactive + length q.state.batch))) [
        | inl e ↦ rw (e, step, try_enqueue) ([], sym (append-nil q.state.interactive), refl)
        | inr e ↦
            let (ys, grown) = push_back_interactive (class_of v) new q.state in
            rw (e, step, try_enqueue) (ys, grown, since-push_back (class_of v) new q.state)
      ]

  poll_interactive :
      (now : ℕ) (q : BrokerQueue T) (x : Queued T) (rest : List (Queued T))
      → q.state.interactive ≡ x ∷ rest
      → let e = step class_of (poll now) q in
        ((e.served ≡ x.value ∷ []) × (e.after.state.interactive ≡ rest))
        ⊎ ((e.after.state.interactive ≡ x ∷ rest) × (since e.after ≡ 0) × (8 ≤ since q))
  unfolding step dequeue
  poll_interactive now q x rest e = ground arith

  -- One poll is saved while the burst is not used up.
  abbrev slack : ℕ → ℕ
  slack n = if ltb n 8 then 1 else 0

  interactive_served_from :
      (cs : List (Call T)) (q : BrokerQueue T) (before after : List (Queued T)) (a : Queued T)
      → q.state.interactive ≡ before ++ a ∷ after
      → 2 * suc (length before) ≤ polls cs + slack (since q)
      → Among a.value (run class_of cs q).served
  unfolding run
  interactive_served_from [] q before after a e h = absurd (ground arith)
  interactive_served_from (offer v d ∷ cs) q before after a e h =
      let (ys, grown, same) = offer_interactive v d q in
      Among-append_right _ (
        interactive_served_from cs _ before (after ++ ys) a
          (grown ∙ ap (λ l. l ++ ys) e ∙ append_assoc before (a ∷ after) ys) (rw same h))
  interactive_served_from (poll now ∷ cs) q [] after a e h =
      elim (poll_interactive now q a after e) [
        | inl (served, _) ↦ rw served (here refl)
        | inr (left, reset, used) ↦
            Among-append_right _
              (interactive_served_from cs _ [] after a left (rw reset (ground arith)))
      ]
  interactive_served_from (poll now ∷ cs) q (x ∷ before) after a e h =
      elim (poll_interactive now q x (before ++ a ∷ after) e) [
        | inl (served, left) ↦
            Among-append_right _ (interactive_served_from cs _ before after a left (ground arith))
        | inr (left, reset, used) ↦
            Among-append_right _
              (interactive_served_from cs _ (x ∷ before) after a left (rw reset (ground arith)))
      ]

  -- Nor can batch requests hold up an interactive one: the i-th waiting interactive request is handed
  -- out within the next 2 * i polls.
  pub interactive_served :
      (n : ℕ) (past cs : List (Call T)) (before after : List (Queued T)) (a : Queued T)
      → (run class_of past (new n)).after.state.interactive ≡ before ++ a ∷ after
      → 2 * suc (length before) ≤ polls cs
      → Among a.value (run class_of cs (run class_of past (new n)).after).served
  interactive_served n past cs before after a e h =
      interactive_served_from cs (run class_of past (new n)).after before after a e (ground arith)
