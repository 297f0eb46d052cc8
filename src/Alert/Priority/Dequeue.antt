-- ===== src/Alert/Priority/Dequeue.antt =====
-- `Dequeue` takes the front of the abstract queue.
use portwatch.Base.{
  ℕ, zero, suc, ◌+◌, ◌-◌, ◌≤◌, ◌<◌, ◌≡◌, refl, ap, List, [], ◌∷◌, get_or, set, length, length-set,
  get_or-set_ne, get_or-set_self, arith, Option, none, some, ◌⊎◌, inl, inr,
}
use portwatch.Alert.Notification.{Notification}
use portwatch.Alert.Priority.{PriorityQueue, take_front, dequeue_below, dequeue}
use portwatch.Alert.Priority.View.{view_below, view, IsValid, view_below-set}

-- What the loop finds below a priority, against the view of those buckets.
abbrev Takes : ℕ → PriorityQueue → Option (Notification × PriorityQueue) → Type 0
Takes k q r =
    ((view_below k q.buckets ≡ []) × (r ≡ none))
    ⊎ ((p : ℕ) × (n : Notification) × (rest : List Notification) × (r
          ≡ some (n, record q { buckets = set q.buckets p rest; size = q.size - 1 }))
        × (p < k)
        × (view_below k q.buckets ≡ (p, n) ∷ view_below k (set q.buckets p rest)))

Takes-suc :
    (k : ℕ) (q : PriorityQueue) (ns : List Notification)
    (lower : Option (Notification × PriorityQueue))
    → k < length q.buckets
    → get_or q.buckets k [] ≡ ns
    → Takes k q lower
    → Takes (suc k) q (take_front q k ns lower)
unfolding view_below
Takes-suc k q [] lower h e (inl (empty, r)) = inl (rw e empty, r)
Takes-suc k q [] lower h e (inr (p, n, rest, r, l, v)) = inr (
  p,
  n,
  rest,
  r,
  omega arith,
  rw (get_or-set_ne q.buckets {i = p} {j = k} rest [] (λ c. omega arith), e) v,
)
Takes-suc k q (n ∷ rest) lower h e t = inr (
  k,
  n,
  rest,
  refl,
  omega arith,
  rw (e, get_or-set_self q.buckets k rest [] h, view_below-set k k q.buckets rest (omega arith)),
)

dequeue_below-Takes :
    (k : ℕ) (q : PriorityQueue) → k ≤ length q.buckets → Takes k q (dequeue_below k q)
unfolding dequeue_below view_below
dequeue_below-Takes zero q h = inl (refl, refl)
dequeue_below-Takes (suc k) q h =
    Takes-suc k q (get_or q.buckets k []) (dequeue_below k q) h refl
      (dequeue_below-Takes k q (omega arith))

-- `Dequeue` fails on the empty queue only. Otherwise it returns the front of the abstract queue,
-- the longest waiting notification of the highest priority, and leaves the rest, well formed.
pub dequeue_lem :
    (q : PriorityQueue)
    → IsValid q
    → ((view q ≡ []) × (dequeue q ≡ none))
      ⊎ ((p : ℕ) × (n : Notification) × (q' : PriorityQueue) × (dequeue q ≡ some (n, q'))
          × (view q ≡ (p, n) ∷ view q')
          × IsValid q'
          × (q'.size + 1 ≡ q.size))
unfolding dequeue
dequeue_lem q v = go (dequeue_below-Takes 4 q (omega arith))
  where
    go :
        Takes 4 q (dequeue_below 4 q)
        → ((view q ≡ []) × (dequeue q ≡ none))
          ⊎ ((p : ℕ) × (n : Notification) × (q' : PriorityQueue) × (dequeue q ≡ some (n, q'))
              × (view q ≡ (p, n) ∷ view q')
              × IsValid q'
              × (q'.size + 1 ≡ q.size))
    go (inl (empty, r)) = inl (empty, r)
    go (inr (p, n, rest, r, l, e)) =
        let c = ap length e in
        inr (
          p,
          n,
          record q { buckets = set q.buckets p rest; size = q.size - 1 },
          r,
          e,
          ground (arith, length-set q.buckets p rest),
          omega arith,
        )
