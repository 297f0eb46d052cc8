-- ===== src/Alert/Priority/Enqueue.antt =====
-- `Enqueue` is a stable insertion by priority.
use portwatch.Base.{
  ℕ, zero, suc, ◌≤◌, ◌<◌, ◌≡◌, refl, ap, ap₂, ◌∙◌, sym, ℤ, pos, pos_part, ◌≤ℤ◌, ◌<ℤ◌, List, [], ◌∷◌,
  ◌++◌, get_or, set, length, length-set, get_or-set_ne, get_or-set_self, ltb, if◌then◌else◌, arith,
  append_assoc, none, some, ◌⊎◌,
}
use native.Mathlib.Decide.{dec_lt}
use portwatch.Alert.Notification.{Notification, queue_full, priority_out_of_range}
use portwatch.Alert.Priority.{PriorityQueue, enqueue}
use portwatch.Alert.Priority.View.{
  Item, tagged, view_below, view, IsValid, tagged-append, view_below-set,
}

-- Behind every item of the same or a higher priority, and before the rest.
unfoldable pub insert_by : ℕ → Notification → List Item → List Item
insert_by p n [] = (p, n) ∷ []
insert_by p n ((q, m) ∷ items) =
    if ltb q p then (p, n) ∷ (q, m) ∷ items else (q, m) ∷ insert_by p n items

insert_by-tagged :
    (p q : ℕ) (n : Notification) (ms : List Notification) (items : List Item)
    → p ≤ q
    → insert_by p n (tagged q ms ++ items) ≡ tagged q ms ++ insert_by p n items
unfolding insert_by
insert_by-tagged p q n [] items h = refl
insert_by-tagged p q n (m ∷ ms) items h = ground (arith, insert_by-tagged p q n ms items h)

insert_by-lower :
    (p q : ℕ) (n : Notification) (ms : List Notification) (items : List Item)
    → q < p
    → insert_by p n items ≡ (p, n) ∷ items
    → insert_by p n (tagged q ms ++ items) ≡ (p, n) ∷ (tagged q ms ++ items)
unfolding insert_by
insert_by-lower p q n [] items h e = e
insert_by-lower p q n (m ∷ ms) items h e = ground arith

insert_by-view_below :
    (p k : ℕ) (n : Notification) (b : List (List Notification))
    → k ≤ p
    → insert_by p n (view_below k b) ≡ (p, n) ∷ view_below k b
unfolding view_below
insert_by-view_below p zero n b h = unfold insert_by in refl
insert_by-view_below p (suc k) n b h =
    insert_by-lower p k n (get_or b k []) (view_below k b) (omega arith)
      (insert_by-view_below p k n b (omega arith))

view_here :
    (p : ℕ) (n : Notification) (b : List (List Notification))
    → p < length b
    → view_below (suc p) (set b p (get_or b p [] ++ n ∷ [])) ≡ insert_by p n (view_below (suc p) b)
unfolding view_below
view_here p n b l = rw (
  get_or-set_self b p (get_or b p [] ++ n ∷ []) [] l,
  view_below-set p p b (get_or b p [] ++ n ∷ []) (omega arith),
  tagged-append p (get_or b p []) n,
  append_assoc (tagged p (get_or b p [])) ((p, n) ∷ []) (view_below p b),
  insert_by-tagged p p n (get_or b p []) (view_below p b) (omega arith),
  insert_by-view_below p p n b (omega arith),
)

view_below-enqueue :
    (p k : ℕ) (n : Notification) (b : List (List Notification))
    → p < k
    → p < length b
    → view_below k (set b p (get_or b p [] ++ n ∷ [])) ≡ insert_by p n (view_below k b)
unfolding view_below
view_below-enqueue p zero n b h l = absurd (omega arith)
view_below-enqueue p (suc k) n b h l = elim (dec_lt p k) [
  | yes below ↦
      ap₂ ◌++◌ (ap (tagged k) (get_or-set_ne b (get_or b p [] ++ n ∷ []) [] (λ e. omega arith)))
        (view_below-enqueue p k n b below l)
      ∙ sym (insert_by-tagged p k n (get_or b k []) (view_below k b) (omega arith))
  | no above ↦ let same : k ≡ p = omega arith in rw same (view_here p n b l)
]

length-insert_by :
    (p : ℕ) (n : Notification) (items : List Item)
    → length (insert_by p n items) ≡ suc (length items)
unfolding insert_by
length-insert_by p n [] = refl
length-insert_by p n ((q, m) ∷ items) = ground (arith, length-insert_by p n items)

-- `Enqueue` on a well formed queue answers in three ways, by three conditions of which exactly one
-- holds. A priority outside of 0 to 3 is reported, and one within it while the queue holds its capacity
-- or more is refused; both leave the queue as it was. A priority within the range below the capacity is
-- accepted: the notification goes behind all those of its own or a higher priority and before the
-- others, and the queue stays well formed.
pub enqueue_lem :
    (q : PriorityQueue) (n : Notification) (priority : ℤ)
    → IsValid q
    → let (e, q') = enqueue q n priority in
      IsValid q'
      × (((e ≡ some (priority_out_of_range priority))
            × (q' ≡ q)
            × ((priority <ℤ pos 0) ⊎ (pos 3 <ℤ priority)))
          ⊎ ((e ≡ some (queue_full q.policy.capacity))
              × (q' ≡ q)
              × (pos 0 ≤ℤ priority)
              × (priority ≤ℤ pos 3)
              × (q.policy.capacity ≤ℤ pos (length (view q))))
          ⊎ ((e ≡ none)
              × (pos 0 ≤ℤ priority)
              × (priority ≤ℤ pos 3)
              × (pos (length (view q)) <ℤ q.policy.capacity)
              × (view q' ≡ insert_by (pos_part priority) n (view q))))
unfolding enqueue
enqueue_lem q n priority v = ground (
  arith,
  view_below-enqueue (pos_part priority) 4 n q.buckets,
  length-insert_by (pos_part priority) n (view q),
  length-set q.buckets (pos_part priority) (get_or q.buckets (pos_part priority) [] ++ n ∷ []),
)
