-- ===== src/Tests/Queues.antt =====
-- The priority queue.
use portwatch.Base.{
  ℕ, zero, suc, ◌+◌, ◌≤◌, ◌≡◌, ◌⊎◌, ℤ, pos, ◌≤ℤ◌, ◌<ℤ◌, [], ◌∷◌, text, Option, none, some, arith,
  length,
}
use portwatch.Alert.Notification.{
  Notification, Error, failed, priority_out_of_range, queue_full, Dispatcher,
}
use portwatch.Alert.Priority.{PriorityQueue, enqueue, dequeue, drain}
use portwatch.Alert.Priority.View.{view, view_below, IsValid}
use portwatch.Alert.Priority.Enqueue.{insert_by, enqueue_lem}
use portwatch.Alert.Priority.Dequeue.{dequeue_lem}
use portwatch.Alert.Priority.Drain.{Drained, drain_lem}

abbrev notice : ℤ → Notification
notice port = record { port = port; state = text "closed"; timestamp = pos 0; message = [] }

-- Two of high priority, and an older one of low priority.
abbrev waiting : PriorityQueue
waiting = record {
  buckets = (notice (pos 1) ∷ []) ∷ [] ∷ (notice (pos 2) ∷ notice (pos 3) ∷ []) ∷ [] ∷ [];
  policy = record { capacity = pos 4; drain_timeout = pos 1 };
  size = 3;
}

waiting-IsValid : IsValid waiting
unfolding view_below
waiting-IsValid = omega arith

enqueue_lem_example :
    let (e, q) = enqueue waiting (notice (pos 4)) (pos 1) in
    IsValid q
    × (((e ≡ some (priority_out_of_range (pos 1)))
          × (q ≡ waiting)
          × ((pos 1 <ℤ pos 0) ⊎ (pos 3 <ℤ pos 1)))
        ⊎ ((e ≡ some (queue_full (pos 4)))
            × (q ≡ waiting)
            × (pos 0 ≤ℤ pos 1)
            × (pos 1 ≤ℤ pos 3)
            × (pos 4 ≤ℤ pos (length (view waiting))))
        ⊎ ((e ≡ none)
            × (pos 0 ≤ℤ pos 1)
            × (pos 1 ≤ℤ pos 3)
            × (pos (length (view waiting)) <ℤ pos 4)
            × (view q ≡ insert_by 1 (notice (pos 4)) (view waiting))))
enqueue_lem_example = enqueue_lem waiting (notice (pos 4)) (pos 1) waiting-IsValid

dequeue_lem_example :
    ((view waiting ≡ []) × (dequeue waiting ≡ none))
    ⊎ ((p : ℕ) × (n : Notification) × (q : PriorityQueue) × (dequeue waiting ≡ some (n, q))
        × (view waiting ≡ (p, n) ∷ view q)
        × IsValid q
        × (q.size + 1 ≡ 3))
dequeue_lem_example = dequeue_lem waiting waiting-IsValid

-- The alarm that is raised while another notification is sent.
abbrev alarm : Notification
alarm = notice (pos 9)

-- A downstream during whose sends as many alarms come as its state says, and which then fails.
abbrev alarming : Dispatcher (PriorityQueue × ℕ)
alarming n (q, zero) = (some (failed 1), (q, zero))
alarming n (q, suc k) = (none, ((enqueue q alarm (pos 3)).1, k))

alarming_keeps :
    (n : Notification) (q : PriorityQueue) (k : ℕ) → IsValid q → IsValid (alarming n (q, k)).1.0
alarming_keeps n q zero v = v
alarming_keeps n q (suc k) v = (enqueue_lem q alarm (pos 3) v).0

alarming_spends :
    (n : Notification) (q : PriorityQueue) (k : ℕ)
    → IsValid q
    → (alarming n (q, k)).1.0.size + (alarming n (q, k)).1.1 ≤ q.size + k
unfolding enqueue
alarming_spends n q zero v = omega arith
alarming_spends n q (suc k) v = ground arith

drain_lem_example :
    (e : Option Error) × (q : PriorityQueue) × (w : ℕ) × (drain alarming 6 waiting 2
      ≡ some (e, (q, w)))
    × Drained alarming waiting 2 e q w
    × IsValid q
drain_lem_example =
    drain_lem alarming (λ k. k) alarming_keeps alarming_spends 6 waiting 2 waiting-IsValid
      (omega arith)
