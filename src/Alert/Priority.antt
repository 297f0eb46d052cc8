-- ===== src/Alert/Priority.antt =====
-- internal/alert/priorityqueue.go. The four buckets are a list of four; the size stays at or below
-- the capacity, so `int` does not wrap.
pub mod View
pub mod Enqueue
pub mod Dequeue
pub mod Drain
use portwatch.Base.{
  ℕ, zero, suc, ◌+◌, ◌-◌, ℤ, pos, pos_part, ltb_ℤ, leb_ℤ, List, [], ◌∷◌, ◌++◌, get_or, set,
  replicate, Option, none, some, ◌||◌, if◌then◌else◌,
}
use portwatch.Alert.Notification.{
  Notification, Error, priority_out_of_range, queue_full, Dispatcher,
}

pub record PriorityQueuePolicy : Type 0 where
  pub capacity : ℤ
  pub drain_timeout : ℤ

abbrev default_priority_queue_policy : PriorityQueuePolicy
default_priority_queue_policy = record { capacity = pos 256; drain_timeout = pos 5_000_000_000 }

pub record PriorityQueue : Type 0 where
  pub buckets : List (List Notification)
  pub policy : PriorityQueuePolicy
  pub size : ℕ

abbrev or_default : ℤ → ℤ → ℤ
or_default x d = if leb_ℤ x (pos 0) then d else x

pub new_priority_queue : PriorityQueuePolicy → PriorityQueue
new_priority_queue p = record {
  buckets = [] ∷ [] ∷ [] ∷ [] ∷ [];
  policy = record {
    capacity = or_default p.capacity default_priority_queue_policy.capacity;
    drain_timeout = or_default p.drain_timeout default_priority_queue_policy.drain_timeout;
  };
  size = 0;
}

-- PriorityCritical is 3, PriorityLow 0.
unfoldable pub enqueue : PriorityQueue → Notification → ℤ → Option Error × PriorityQueue
enqueue q n priority =
    if ltb_ℤ priority (pos 0) || ltb_ℤ (pos 3) priority
    then (some (priority_out_of_range priority), q)
    else if leb_ℤ q.policy.capacity (pos q.size)
    then (some (queue_full q.policy.capacity), q)
    else (
      none,
      record q {
        buckets =
            set q.buckets (pos_part priority) (get_or q.buckets (pos_part priority) [] ++ n ∷ []);
        size = q.size + 1;
      },
    )

abbrev take_front :
    PriorityQueue
    → ℕ
    → List Notification
    → Option (Notification × PriorityQueue)
    → Option (Notification × PriorityQueue)
take_front q p [] lower = lower
take_front q p (n ∷ rest) lower =
    some (n, record q { buckets = set q.buckets p rest; size = q.size - 1 })

-- The loop from priority `p - 1` down.
pub dequeue_below : ℕ → PriorityQueue → Option (Notification × PriorityQueue)
dequeue_below zero q = none
dequeue_below (suc p) q = take_front q p (get_or q.buckets p []) (dequeue_below p q)

pub dequeue : PriorityQueue → Option (Notification × PriorityQueue)
dequeue q = dequeue_below 4 q

-- `Drain`. The mutex is free while it sends, so a send may change the queue: the target may enqueue,
-- and what other calls do meanwhile counts as done by the sends. The loop ends when it finds the queue
-- empty or a send fails; `none` is a loop that is still running after that many rounds.
module _ {W : Type 0} (next : Dispatcher (PriorityQueue × W)) where
  pub drain : ℕ → PriorityQueue → W → Option (Option Error × (PriorityQueue × W))
  drain zero q w = none
  drain (suc rounds) q w = elim (dequeue q) [
    | none ↦ some (none, (q, w))
    | some (n, q') ↦
        let (failure, (q'', w')) = next n (q', w) in
        elim failure [ none ↦ drain rounds q'' w' | some e ↦ some (some e, (q'', w')) ]
  ]
