-- ===== src/History/Ring/Inv.antt =====
-- The representation invariant of `Ring`: every index that the methods compute lies in the storage.
use portwatch.Base.{
  ℕ, ◌+◌, ◌%◌, ◌≤◌, ◌<◌, ◌≡◌, ℤ, List, [], ◌∷◌, length, length-set, length-replicate, arith,
}
use portwatch.History.Ring.{
  Event, Ring, zero_event, effective_capacity, new_ring, stamp, record_event, record_all, start,
}

pub record IsValid (r : Ring) : Type 0 where
  pub storage : length r.events ≡ r.capacity
  pub head_in : r.head < r.capacity
  pub count_in : r.count ≤ r.capacity

effective_capacity_pos : (c : ℤ) → 0 < effective_capacity c
effective_capacity_pos c = ground arith

pub new_ring-IsValid : (c : ℤ) → IsValid (new_ring c)
unfolding new_ring
new_ring-IsValid c =
    ground (arith, length-replicate (effective_capacity c) zero_event, effective_capacity_pos c)

pub record_event-IsValid :
    (r : Ring) (now : ℤ) (e : Event) → IsValid r → IsValid (record_event r now e)
unfolding record_event
record_event-IsValid r now e v = ground (arith, length-set r.events r.head (stamp now e))

pub record_all-IsValid :
    (r : Ring) (calls : List (ℤ × Event)) → IsValid r → IsValid (record_all r calls)
unfolding record_all
record_all-IsValid r [] v = v
record_all-IsValid r ((now, e) ∷ calls) v =
    record_all-IsValid (record_event r now e) calls (record_event-IsValid r now e v)

-- The slot that `Record` writes, and each of those that `Snapshot` reads, is one of the storage.
in_bounds :
    (r : Ring) (i : ℕ)
    → IsValid r
    → (r.head < length r.events) × ((start r + i) % r.capacity < length r.events)
in_bounds r i v = omega arith

pub capacity-record_event :
    (r : Ring) (now : ℤ) (e : Event) → (record_event r now e).capacity ≡ r.capacity
unfolding record_event
capacity-record_event r now e = ground arith
