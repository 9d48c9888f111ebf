-- ===== src/Broker/Queue/Fifo.antt =====
-- The queue under any interleaving of connections that enqueue and the scheduler that dequeues.
-- As in the broker, a request's class is a function of the request.
use mathlib.Core.List.{append_assoc, append-nil, map-append}
use julie_semantic_sidecar.Prelude.{
  ℕ, ◌≡◌, refl, Bool, true, false, List, [], ◌∷◌, ◌++◌, map, none, some, ok, err, keep, keep-append,
  All, All-append, arith, length, leb, Bool-cases, inl, inr, ◌+◌,
}
use julie_semantic_sidecar.Broker.Queue.{
  RequestClass, Dequeued, ready, expired, Queued, State, BrokerQueue, new, push_back, try_enqueue,
  dequeue,
}

-- What a thread may do to the queue: a connection offers a request, the scheduler polls.
pub data Call {ℓ} (T : Type ℓ) : Type ℓ where
  offer : T → ℕ → Call T
  poll : ℕ → Call T

abbrev pub same_class : RequestClass → RequestClass → Bool
same_class RequestClass.interactive RequestClass.interactive = true
same_class RequestClass.batch RequestClass.batch = true
same_class RequestClass.interactive RequestClass.batch = false
same_class RequestClass.batch RequestClass.interactive = false

abbrev pub payload {ℓ} : {T : Type ℓ} → Dequeued T → T
payload (ready v) = v
payload (expired v) = v

-- The waiting requests of one class, oldest first.
abbrev pub waiting {ℓ} : {T : Type ℓ} → RequestClass → State T → List T
waiting RequestClass.interactive s = map (λ q. q.value) s.interactive
waiting RequestClass.batch s = map (λ q. q.value) s.batch

-- What one call leaves: the queue, and the requests that it let in and that it handed out.
pub record Effect {ℓ} (T : Type ℓ) : Type ℓ where
  pub after : BrokerQueue T
  pub accepted : List T
  pub served : List T

module _ {ℓ} {T : Type ℓ} (class_of : T → RequestClass) where
  unfoldable pub step : Call T → BrokerQueue T → Effect T
  step (offer value deadline) q = elim (try_enqueue (class_of value) value deadline q) [
    | ok q' ↦ record { after = q'; accepted = value ∷ []; served = [] }
    | err _ ↦ record { after = q; accepted = []; served = [] }
  ]
  step (poll now) q = elim (dequeue now q) [
    | none ↦ record { after = q; accepted = []; served = [] }
    | some (d, q') ↦ record { after = q'; accepted = []; served = payload d ∷ [] }
  ]

  unfoldable pub run : List (Call T) → BrokerQueue T → Effect T
  run [] q = record { after = q; accepted = []; served = [] }
  run (c ∷ cs) q =
      let e = step c q in
      let r = run cs e.after in
      record { after = r.after; accepted = e.accepted ++ r.accepted; served = e.served ++ r.served }

  -- Each request waits in the queue of its class.
  pub record IsSorted (q : BrokerQueue T) : Type ℓ where
    pub at_interactive : All (λ v. class_of v.value ≡ RequestClass.interactive) q.state.interactive
    pub at_batch : All (λ v. class_of v.value ≡ RequestClass.batch) q.state.batch

  abbrev pub in_class : RequestClass → T → Bool
  in_class c v = same_class (class_of v) c

  abbrev InPlace : RequestClass → Queued T → Type 0
  InPlace k v = class_of v.value ≡ k

  push_back-IsSorted :
      (k : RequestClass) (v : Queued T) (q : BrokerQueue T)
      → class_of v.value ≡ k
      → IsSorted q
      → IsSorted (record q { state = push_back k v q.state })
  unfolding push_back
  push_back-IsSorted RequestClass.interactive v q e s = record {
    at_interactive =
        All-append (InPlace RequestClass.interactive) q.state.interactive (v ∷ []) s.at_interactive
          (e, tt);
    at_batch = s.at_batch;
  }
  push_back-IsSorted RequestClass.batch v q e s = record {
    at_interactive = s.at_interactive;
    at_batch = All-append (InPlace RequestClass.batch) q.state.batch (v ∷ []) s.at_batch (e, tt);
  }

  step-IsSorted : (c : Call T) (q : BrokerQueue T) → IsSorted q → IsSorted (step c q).after
  unfolding step try_enqueue dequeue
  step-IsSorted (offer value deadline) q s =
      let v : Queued T = record { value = value; deadline = deadline } in
      elim (Bool-cases (leb q.capacity (length q.state.interactive + length q.state.batch))) [
        | inl e ↦ rw (e, step, try_enqueue) s
        | inr e ↦ rw (e, step, try_enqueue) (push_back-IsSorted (class_of value) v q refl s)
      ]
  step-IsSorted (poll now) q s = record { at_interactive = ground arith; at_batch = ground arith }

  step_fifo :
      (k : RequestClass) (c : Call T) (q : BrokerQueue T)
      → IsSorted q
      → waiting k q.state ++ keep (in_class k) (step c q).accepted
        ≡ keep (in_class k) (step c q).served ++ waiting k (step c q).after.state
  unfolding step try_enqueue dequeue
  step_fifo RequestClass.interactive (offer value deadline) q s = ground (
    arith,
    append-nil (waiting RequestClass.interactive q.state),
    map-append (λ (v : Queued T). v.value) q.state.interactive
        (record { value = value; deadline = deadline } ∷ []),
  )
  step_fifo RequestClass.batch (offer value deadline) q s = ground (
    arith,
    append-nil (waiting RequestClass.batch q.state),
    map-append (λ (v : Queued T). v.value) q.state.batch
        (record { value = value; deadline = deadline } ∷ []),
  )
  step_fifo RequestClass.interactive (poll now) q s =
      ground (arith, append-nil (waiting RequestClass.interactive q.state))
  step_fifo RequestClass.batch (poll now) q s =
      ground (arith, append-nil (waiting RequestClass.batch q.state))

  run-fifo_from :
      (k : RequestClass) (cs : List (Call T)) (q : BrokerQueue T)
      → IsSorted q
      → waiting k q.state ++ keep (in_class k) (run cs q).accepted
        ≡ keep (in_class k) (run cs q).served ++ waiting k (run cs q).after.state
  unfolding run
  run-fifo_from k [] q s = append-nil (waiting k q.state)
  run-fifo_from k (c ∷ cs) q s =
      let e = step c q in
      let r = run cs e.after in
      rw
        (keep-append (in_class k) e.accepted r.accepted, keep-append (in_class k) e.served r.served)
        (simp (← append_assoc, step_fifo k c q s)
          (simp (append_assoc, run-fifo_from k cs e.after (step-IsSorted c q s))))

  -- The requests of one class leave the queue in the order in which they were accepted, none lost
  -- and none made up: at any time the accepted ones are the served ones followed by those waiting.
  pub run-fifo :
      (k : RequestClass) (capacity : ℕ) (cs : List (Call T))
      → keep (in_class k) (run cs (new capacity)).accepted
        ≡ keep (in_class k) (run cs (new capacity)).served
          ++ waiting k (run cs (new capacity)).after.state
  unfolding new
  run-fifo RequestClass.interactive capacity cs =
      run-fifo_from RequestClass.interactive cs (new capacity)
        (record { at_interactive = tt; at_batch = tt })
  run-fifo RequestClass.batch capacity cs =
      run-fifo_from RequestClass.batch cs (new capacity)
        (record { at_interactive = tt; at_batch = tt })
