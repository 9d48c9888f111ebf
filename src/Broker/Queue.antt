-- ===== src/Broker/Queue.antt =====
-- src/broker/queue.rs: the bounded two-class request queue between the connections and the one
-- scheduler. Instants are natural numbers, and the clock's reading is an argument of `dequeue`.
-- The mutex makes each operation one step; a consumer that finds nothing waits on the condition
-- variable, which `dequeue` answers by `none`.
pub mod Fifo
pub mod Fairness
pub mod Bounds
pub mod Tests
use julie_semantic_sidecar.Prelude.{
  ℕ, ◌+◌, Bool, not, ◌&&◌, List, [], ◌∷◌, ◌++◌, Option, none, some, Result, ok, err, length,
  is_empty, ltb, leb, if◌then◌else◌,
}

abbrev pub interactive_burst : ℕ
interactive_burst = 8

pub data RequestClass : Type 0 where
  interactive batch : RequestClass

pub data QueueError : Type 0 where
  full : QueueError

pub data Dequeued {ℓ} (T : Type ℓ) : Type ℓ where
  ready : T → Dequeued T
  expired : T → Dequeued T

pub record Queued {ℓ} (T : Type ℓ) : Type ℓ where
  pub value : T
  pub deadline : ℕ

pub record State {ℓ} (T : Type ℓ) : Type ℓ where
  pub interactive : List (Queued T)
  pub batch : List (Queued T)
  pub interactive_since_batch_waited : ℕ

pub record BrokerQueue {ℓ} (T : Type ℓ) : Type ℓ where
  pub capacity : ℕ
  pub state : State T

module _ {ℓ} {T : Type ℓ} where
  unfoldable pub new : ℕ → BrokerQueue T
  new capacity = record {
    capacity = capacity;
    state = record { interactive = []; batch = []; interactive_since_batch_waited = 0 };
  }

  -- `VecDeque::push_back` on the class's queue.
  unfoldable pub push_back : RequestClass → Queued T → State T → State T
  push_back RequestClass.interactive queued s = record s {
    interactive = s.interactive ++ queued ∷ [];
  }
  push_back RequestClass.batch queued s = record s { batch = s.batch ++ queued ∷ [] }

  unfoldable pub try_enqueue :
      RequestClass → T → ℕ → BrokerQueue T → Result (BrokerQueue T) QueueError
  unfolding push_back
  try_enqueue class value deadline q =
      if leb q.capacity (length q.state.interactive + length q.state.batch)
      then err full
      else ok (record q {
        state = push_back class (record { value = value; deadline = deadline }) q.state;
      })

  -- `VecDeque::pop_front` on either queue, with the counter that the branch leaves.
  pop_batch : ℕ → List (Queued T) → State T → Option (Queued T) × State T
  pop_batch since [] s = (none, record s { interactive_since_batch_waited = since })
  pop_batch since (queued ∷ rest) s =
      (some queued, record s { batch = rest; interactive_since_batch_waited = since })

  pop_interactive : ℕ → List (Queued T) → State T → Option (Queued T) × State T
  pop_interactive since [] s = (none, record s { interactive_since_batch_waited = since })
  pop_interactive since (queued ∷ rest) s =
      (some queued, record s { interactive = rest; interactive_since_batch_waited = since })

  unfoldable pub take_next : State T → Option (Queued T) × State T
  unfolding pop_batch pop_interactive
  take_next s =
      if not (is_empty s.batch)
      then if not (is_empty s.interactive) && ltb s.interactive_since_batch_waited interactive_burst
        then pop_interactive (s.interactive_since_batch_waited + 1) s.interactive s
        else pop_batch 0 s.batch s
      else pop_interactive 0 s.interactive s

  -- The deadline test of `dequeue`.
  unfoldable pub judge : ℕ → Queued T → Dequeued T
  judge now queued = if leb queued.deadline now then expired queued.value else ready queued.value

  unfoldable pub dequeue : ℕ → BrokerQueue T → Option (Dequeued T × BrokerQueue T)
  unfolding take_next judge
  dequeue now q =
      let (taken, s) = take_next q.state in
      elim taken [ none ↦ none | some queued ↦ some (judge now queued, record q { state = s }) ]
