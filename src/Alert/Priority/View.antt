-- ===== src/Alert/Priority/View.antt =====
-- The abstract queue: the waiting notifications with their priorities, in the order in which they
-- will leave.
use portwatch.Base.{
  ℕ, zero, suc, ◌≤◌, ◌≡◌, refl, ap, ap₂, pos, ◌≤ℤ◌, List, [], ◌∷◌, ◌++◌, get_or, set, length,
  get_or-set_ne, arith,
}
use portwatch.Alert.Notification.{Notification}
use portwatch.Alert.Priority.{PriorityQueue, PriorityQueuePolicy, new_priority_queue}

abbrev pub Item : Type 0
Item = ℕ × Notification

abbrev pub tagged : ℕ → List Notification → List Item
tagged p [] = []
tagged p (n ∷ ns) = (p, n) ∷ tagged p ns

-- The items of priority below `p`, the highest first.
unfoldable pub view_below : ℕ → List (List Notification) → List Item
view_below zero b = []
view_below (suc p) b = tagged p (get_or b p []) ++ view_below p b

abbrev pub view : PriorityQueue → List Item
view q = view_below 4 q.buckets

pub record IsValid (q : PriorityQueue) : Type 0 where
  pub buckets : length q.buckets ≡ 4
  pub counted : q.size ≡ length (view q)
  pub within : pos q.size ≤ℤ q.policy.capacity

new_priority_queue-IsValid : (p : PriorityQueuePolicy) → IsValid (new_priority_queue p)
unfolding new_priority_queue view_below
new_priority_queue-IsValid p = ground arith

pub tagged-append :
    (p : ℕ) (ns : List Notification) (n : Notification)
    → tagged p (ns ++ n ∷ []) ≡ tagged p ns ++ (p, n) ∷ []
tagged-append p [] n = refl
tagged-append p (m ∷ ns) n = ap (◌∷◌ (p, m)) (tagged-append p ns n)

-- A write to a bucket does not show below it.
pub view_below-set :
    (k p : ℕ) (b : List (List Notification)) (v : List Notification)
    → k ≤ p
    → view_below k (set b p v) ≡ view_below k b
unfolding view_below
view_below-set zero p b v h = refl
view_below-set (suc k) p b v h =
    ap₂ ◌++◌ (ap (tagged k) (get_or-set_ne b v [] (λ e. omega arith)))
      (view_below-set k p b v (omega arith))
