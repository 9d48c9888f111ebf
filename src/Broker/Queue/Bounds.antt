-- ===== src/Broker/Queue/Bounds.antt =====
-- The bounds that hold in every reachable state of the queue.
use julie_semantic_sidecar.Prelude.{
  ℕ, ◌+◌, ◌≤◌, ◌≡◌, refl, ◌↔◌, List, [], ◌∷◌, ok, err, length, length-append, arith,
}
use julie_semantic_sidecar.Broker.Queue.{
  interactive_burst, RequestClass, full, Queued, State, BrokerQueue, new, push_back, try_enqueue,
  dequeue,
}
use julie_semantic_sidecar.Broker.Queue.Fifo.{Call, offer, poll, step, run}

module _ {ℓ} {T : Type ℓ} where
  pub size : BrokerQueue T → ℕ
  size q = length q.state.interactive + length q.state.batch

  pub record IsBounded (capacity : ℕ) (q : BrokerQueue T) : Type 0 where
    pub same_capacity : q.capacity ≡ capacity
    pub within : length q.state.interactive + length q.state.batch ≤ capacity
    pub burst : q.state.interactive_since_batch_waited ≤ interactive_burst

  size-push_back :
      (k : RequestClass) (v : Queued T) (q : BrokerQueue T)
      → size (record q { state = push_back k v q.state }) ≡ size q + 1
  unfolding size push_back
  size-push_back RequestClass.interactive v q =
      omega (arith, length-append q.state.interactive (v ∷ []))
  size-push_back RequestClass.batch v q = omega (arith, length-append q.state.batch (v ∷ []))

  pub since-push_back :
      (k : RequestClass) (v : Queued T) (s : State T)
      → (push_back k v s).interactive_since_batch_waited ≡ s.interactive_since_batch_waited
  unfolding push_back
  since-push_back RequestClass.interactive v s = refl
  since-push_back RequestClass.batch v s = refl

  -- An offer is refused exactly when the two queues together are at the capacity, and an accepted
  -- one makes the total longer by one.
  pub try_enqueue_lem :
      (k : RequestClass) (value : T) (deadline : ℕ) (q : BrokerQueue T)
      → ((try_enqueue k value deadline q ≡ err full) ↔ (q.capacity ≤ size q))
        × ((q' : BrokerQueue T) → try_enqueue k value deadline q ≡ ok q' → size q' ≡ size q + 1)
  unfolding try_enqueue size
  try_enqueue_lem k value deadline q = (
    ground arith,
    λ q' e. ground (arith, size-push_back k (record { value = value; deadline = deadline }) q),
  )

  module _ (class_of : T → RequestClass) where
    step-IsBounded :
        (n : ℕ) (c : Call T) (q : BrokerQueue T)
        → IsBounded n q
        → IsBounded n (step class_of c q).after
    unfolding step try_enqueue dequeue size
    step-IsBounded n (offer value deadline) q b =
        let v : Queued T = record { value = value; deadline = deadline } in
        ground
          (arith, size-push_back (class_of value) v q, since-push_back (class_of value) v q.state)
    step-IsBounded n (poll now) q b = record {
      same_capacity = ground arith;
      within = ground arith;
      burst = ground arith;
    }

    run-IsBounded_from :
        (n : ℕ) (cs : List (Call T)) (q : BrokerQueue T)
        → IsBounded n q
        → IsBounded n (run class_of cs q).after
    unfolding run
    run-IsBounded_from n [] q b = b
    run-IsBounded_from n (c ∷ cs) q b =
        run-IsBounded_from n cs (step class_of c q).after (step-IsBounded n c q b)

    -- Whatever the connections and the scheduler do, a queue never holds more than its capacity,
    -- keeps that capacity, and its burst counter never passes the burst.
    pub run-IsBounded : (n : ℕ) (cs : List (Call T)) → IsBounded n (run class_of cs (new n)).after
    unfolding new
    run-IsBounded n cs =
        run-IsBounded_from n cs (new n)
          (record { same_capacity = refl; within = omega arith; burst = omega arith })
