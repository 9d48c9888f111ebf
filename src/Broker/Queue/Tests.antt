-- ===== src/Broker/Queue/Tests.antt =====
-- Concrete runs of the queue, after tests/broker_scheduler_tests.rs. Requests are numbers, and those
-- from 100 on are batch requests.
use julie_semantic_sidecar.Prelude.{
  ℕ, ◌+◌, ◌≤◌, ◌≡◌, refl, ◌↔◌, List, [], ◌∷◌, ◌++◌, some, ok, err, Among, keep, leb, if◌then◌else◌,
  arith,
}
use julie_semantic_sidecar.Broker.Queue.{
  RequestClass, full, expired, BrokerQueue, new, try_enqueue, dequeue,
}
use julie_semantic_sidecar.Broker.Queue.Fifo.{
  Call, offer, poll, waiting, in_class, step, run, run-fifo,
}
use julie_semantic_sidecar.Broker.Queue.Bounds.{size, IsBounded, try_enqueue_lem, run-IsBounded}
use julie_semantic_sidecar.Broker.Queue.Fairness.{batch_served, interactive_served}

abbrev class_of : ℕ → RequestClass
class_of v = if leb 100 v then RequestClass.batch else RequestClass.interactive

abbrev polls_of : ℕ → List (Call ℕ)
polls_of ℕ.zero = []
polls_of (ℕ.suc n) = poll 5 ∷ polls_of n

-- One batch request behind ten interactive ones.
abbrev history : List (Call ℕ)
history =
    offer 100 50
    ∷ offer 1 50
    ∷ offer 2 50
    ∷ offer 3 50
    ∷ offer 4 50
    ∷ offer 5 50
    ∷ offer 6 50
    ∷ offer 7 50
    ∷ offer 8 50
    ∷ offer 9 50
    ∷ offer 10 50
    ∷ []

burst_test :
    (run class_of (history ++ polls_of 10) (new 64)).served
    ≡ 1 ∷ 2 ∷ 3 ∷ 4 ∷ 5 ∷ 6 ∷ 7 ∷ 8 ∷ 100 ∷ 9 ∷ []
unfolding run step new dequeue try_enqueue
burst_test = refl

expiry_test : dequeue 50 (run class_of (offer 1 50 ∷ []) (new 1)).after ≡ some (expired 1, new 1)
unfolding run step new dequeue try_enqueue
expiry_test = refl

run-fifo_example :
    keep (in_class class_of RequestClass.batch) (run class_of history (new 5)).accepted
    ≡ keep (in_class class_of RequestClass.batch) (run class_of history (new 5)).served
      ++ waiting RequestClass.batch (run class_of history (new 5)).after.state
run-fifo_example = run-fifo class_of RequestClass.batch 5 history

run-IsBounded_example : IsBounded 5 (run class_of history (new 5)).after
run-IsBounded_example = run-IsBounded class_of 5 history

try_enqueue_lem_example :
    ((try_enqueue {T = ℕ} RequestClass.batch 100 9 (new 0) ≡ err full) ↔ (0 ≤ size (new {T = ℕ} 0)))
    × ((q : BrokerQueue ℕ)
        → try_enqueue {T = ℕ} RequestClass.batch 100 9 (new 0) ≡ ok q
        → size q ≡ size (new {T = ℕ} 0) + 1)
unfolding new
try_enqueue_lem_example = try_enqueue_lem RequestClass.batch 100 9 (new 0)

batch_served_example :
    Among 100 (run class_of (polls_of 9) (run class_of history (new 64)).after).served
unfolding run step new try_enqueue
batch_served_example =
    batch_served class_of 64 history (polls_of 9) [] [] (record { value = 100; deadline = 50 }) refl
      (omega arith)

interactive_served_example :
    Among 2 (run class_of (polls_of 4) (run class_of history (new 64)).after).served
unfolding run step new try_enqueue
interactive_served_example =
    interactive_served class_of 64 history (polls_of 4) (record { value = 1; deadline = 50 } ∷ []) _
      (record { value = 2; deadline = 50 }) refl (omega arith)
