-- ===== src/Alert/Priority/Drain.antt =====
-- `Drain` sends the front of the abstract queue, as it is at that moment, round after round.
use portwatch.Base.{
  ℕ, zero, suc, ◌+◌, ◌<◌, ◌≤◌, ◌≡◌, refl, [], ◌∷◌, arith, Option, none, some, inl, inr,
  Option-cases,
}
use portwatch.Alert.Notification.{Notification, Error, Dispatcher}
use portwatch.Alert.Priority.{PriorityQueue, dequeue, drain}
use portwatch.Alert.Priority.View.{view, IsValid}
use portwatch.Alert.Priority.Dequeue.{dequeue_lem}

module _ {W : Type 0} (next : Dispatcher (PriorityQueue × W)) where
  -- The runs of the specification, each from a queue to an error and the queue left. At each send the
  -- queue is `q`, without its front; what it is after the send is the target's.
  pub data Drained : PriorityQueue → W → Option Error → PriorityQueue → W → Type 0 where
    emptied : {q : PriorityQueue} → {w : W} → view q ≡ [] → Drained q w none q w
    gave_up :
        {q₀ q q' : PriorityQueue}
        → {w w' : W} → {p : ℕ} → {n : Notification} → {e : Error} → view q₀ ≡ (p, n) ∷ view q
        → IsValid q
        → next n (q, w) ≡ (some e, (q', w'))
        → Drained q₀ w (some e) q' w'
    went_on :
        {q₀ q q' q'' : PriorityQueue}
        → {w w' w'' : W} → {p : ℕ} → {n : Notification} → {e : Option Error}
        → view q₀ ≡ (p, n) ∷ view q
        → IsValid q
        → next n (q, w) ≡ (none, (q', w'))
        → Drained q' w' e q'' w''
        → Drained q₀ w e q'' w''

  -- A run that ends, with what it returns and leaves.
  abbrev Drains : PriorityQueue → W → Option (Option Error × (PriorityQueue × W)) → Type 0
  Drains q w r =
      (e : Option Error) × (q' : PriorityQueue) × (w' : W) × (r ≡ some (e, (q', w')))
      × Drained q w e q' w'
      × IsValid q'

  drain_empty :
      (f : ℕ) (q : PriorityQueue) (w : W)
      → IsValid q
      → view q ≡ []
      → dequeue q ≡ none
      → Drains q w (drain next (suc f) q w)
  unfolding drain
  drain_empty f q w v empty e = (none, q, w, rw (e, drain), emptied empty, v)

  module _ (budget : W → ℕ)
      (keeps : (n : Notification) (q : PriorityQueue) (w : W)
        → IsValid q
        → IsValid (next n (q, w)).1.0)
      (spends : (n : Notification) (q : PriorityQueue) (w : W)
        → IsValid q
        → (next n (q, w)).1.0.size + budget (next n (q, w)).1.1 ≤ q.size + budget w) where
    drain_item :
        (f : ℕ) (q₀ q : PriorityQueue) (w : W) (p : ℕ) (n : Notification)
        → IsValid q
        → dequeue q₀ ≡ some (n, q)
        → view q₀ ≡ (p, n) ∷ view q
        → Drains
            (next n (q, w)).1.0
            (next n (q, w)).1.1
            (drain next f (next n (q, w)).1.0 (next n (q, w)).1.1)
        → Drains q₀ w (drain next (suc f) q₀ w)
    unfolding drain
    drain_item f q₀ q w p n v e front (x, q'', w'', r, run, v'') =
        let (failure, (q', w')) = next n (q, w) in
        elim (Option-cases (next n (q, w)).0) [
          | inl ok ↦ (x, q'', w'', rw (e, drain, ok) r, went_on front v (rw ok refl) run, v'')
          | inr (y, bad) ↦
              (some y, q', w', rw (e, drain, bad), gave_up front v (rw bad refl), keeps n q w v)
        ]

    -- `Drain` on a well formed queue, where every send leaves the queue well formed and what it and the
    -- other calls add to the queue while it lasts comes out of a budget: the waiting notifications and
    -- the rest of the budget are together no more after a send than before it. Then `Drain` ends, in at
    -- most one round more than the notifications that wait and the budget make up. In each round it
    -- takes the front of the queue as it then is, the longest waiting of the highest priority, and
    -- sends that. It returns nil when it finds the queue empty, and else the error of the first send
    -- that fails, whose notification is not put back; the queue is then as that send left it. It is
    -- well formed in the end.
    pub drain_lem :
        (f : ℕ) (q : PriorityQueue) (w : W)
        → IsValid q
        → q.size + budget w < f
        → (e : Option Error) × (q' : PriorityQueue) × (w' : W) × (drain next f q w
            ≡ some (e, (q', w')))
          × Drained q w e q' w'
          × IsValid q'
    drain_lem zero q w v h = absurd (omega arith)
    drain_lem (suc f) q w v h = elim (dequeue_lem q v) [
      | inl (empty, e) ↦ drain_empty f q w v empty e
      | inr (p, n, q', e, front, v', s) ↦ drain_item f q q' w p n v' e front (
          drain_lem f (next n (q', w)).1.0 (next n (q', w)).1.1 (keeps n q' w v')
            (omega (arith, spends n q' w v')))
    ]
