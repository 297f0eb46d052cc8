-- ===== src/History/Ring/Refine.antt =====
-- The ring refines a plain history of which the newest events are kept.
use portwatch.Base.{
  ℕ, suc, ◌+◌, ◌-◌, ◌%◌, ◌≤◌, ◌<◌, ◌≡◌, refl, ◌∙◌, ap, ℤ, List, [], ◌∷◌, ◌++◌, length, push_bounded,
  push_bounded-last_n, last_n, append_assoc, set, get_or-set_self, drop, arith, min, sym, ltb,
  if◌then◌else◌, lt→ltb, append-nil, length-last_n, last_n-nil,
}
use native.Mathlib.Nat.{mod-eq_of_lt, mod-eq-sub-mod}
use portwatch.History.Ring.{
  Event, Ring, zero_event, effective_capacity, new_ring, stamp, stamps, record_event, record_all,
  copy_out, start, snapshot, len,
}
use portwatch.History.Ring.Loop.{copy_out-append, copy_out-shift, copy_out-set, length-copy_out}
use portwatch.History.Ring.Inv.{
  IsValid, capacity-record_event, new_ring-IsValid, record_event-IsValid,
}

mod_wrap : (a c : ℕ) → a < c + c → a % c ≡ (if ltb a c then a else a - c)
mod_wrap a c h = ground (
  arith,
  mod-eq_of_lt {n = a} {m = c},
  mod-eq-sub-mod {n = a} {m = c},
  mod-eq_of_lt {n = a - c} {m = c},
)

-- The write goes just behind the events that are held.
head_start : (h n c : ℕ) → h < c → n ≤ c → ((h + c - n) % c + n) % c ≡ h
head_start h n c p q = ground (arith, mod_wrap (h + c - n) c, mod_wrap ((h + c - n) % c + n) c)

start_room : (h n c : ℕ) → h < c → n < c → ((h + 1) % c + c - (n + 1)) % c ≡ (h + c - n) % c
start_room h n c p q =
    ground
      (arith, mod_wrap (h + 1) c, mod_wrap (h + c - n) c, mod_wrap ((h + 1) % c + c - (n + 1)) c)

start_full : (h c : ℕ) → h < c → ((h + 1) % c + c - c) % c ≡ (h + 1) % c
start_full h c p = ground (arith, mod_wrap (h + 1) c, mod_wrap ((h + 1) % c + c - c) c)

copy_out-write :
    (buf : List Event) (c s n h : ℕ) (x : Event)
    → (s + n) % c ≡ h
    → h < length buf
    → n < c
    → copy_out (set buf h x) c s 0 (suc n) ≡ copy_out buf c s 0 n ++ x ∷ []
copy_out-write buf c s n h x e l k =
    let kept : copy_out (set buf h x) c s 0 n ≡ copy_out buf c s 0 n =
      rw (← e) (copy_out-set buf c x s n 0 n (omega arith) (omega arith)) in
    let at : (s + 0 + n) % c ≡ h = (let z : s + 0 + n ≡ s + n = omega arith in rw z e) in
    copy_out-append (set buf h x) c s 0 n ∙ rw (kept, at, get_or-set_self buf h x zero_event l)

-- With room left, the start stays and the count grows.
snapshot-room :
    (r : Ring) (now : ℤ) (e : Event)
    → IsValid r
    → r.count < r.capacity
    → snapshot (record_event r now e) ≡ snapshot r ++ stamp now e ∷ []
unfolding snapshot record_event
snapshot-room r now e v h =
    let w =
      copy_out-write r.events r.capacity (start r) r.count r.head (stamp now e)
        (head_start r.head r.count r.capacity v.head_in v.count_in) (omega arith) h in
    let one : suc r.count ≡ r.count + 1 = omega arith in
    rw (lt→ltb _ _ h, start_room r.head r.count r.capacity v.head_in h, ← one) w

copy_out-full :
    (buf : List Event) (c h n : ℕ) (x : Event)
    → h < c
    → c ≡ length buf
    → c ≡ suc n
    → copy_out (set buf h x) c ((h + 1) % c) 0 (suc n)
      ≡ drop 1 (copy_out buf c h 0 (suc n)) ++ x ∷ []
unfolding copy_out
copy_out-full buf c h n x p q e =
    copy_out-write buf c ((h + 1) % c) n h x
      (ground (arith, mod_wrap (h + 1) c, mod_wrap ((h + 1) % c + n) c)) (omega arith) (omega arith)
    ∙ rw (copy_out-shift buf c h 0 n) refl

length-snapshot : (r : Ring) → length (snapshot r) ≡ r.count
unfolding snapshot
length-snapshot r = length-copy_out r.events r.capacity (start r) 0 r.count

-- A full ring gives up its oldest event.
snapshot-full :
    (r : Ring) (now : ℤ) (e : Event)
    → IsValid r
    → r.count ≡ r.capacity
    → snapshot (record_event r now e) ≡ drop 1 (snapshot r) ++ stamp now e ∷ []
unfolding snapshot record_event
snapshot-full r now e v h =
    let one : r.capacity ≡ suc (r.capacity - 1) = omega arith in
    let here : (r.head + r.capacity - r.count) % r.capacity ≡ r.head =
      ground (arith, mod_wrap (r.head + r.capacity - r.count) r.capacity) in
    let there : ((r.head + 1) % r.capacity + r.capacity - r.count) % r.capacity
        ≡ (r.head + 1) % r.capacity =
      ground (arith, start_full r.head r.capacity) in
    let same : (if ltb r.count r.capacity then r.count + 1 else r.count) ≡ r.count = ground arith in
    let w =
      copy_out-full r.events r.capacity r.head (r.capacity - 1) (stamp now e) v.head_in
        (sym v.storage) one in
    rw (same, there, here, h) (rw (← one) at w)

-- One call of `Record` appends its event, and drops the oldest one where the ring is full.
snapshot-record_event :
    (r : Ring) (now : ℤ) (e : Event)
    → IsValid r
    → snapshot (record_event r now e) ≡ push_bounded r.capacity (snapshot r) (stamp now e)
snapshot-record_event r now e v =
    ground (arith, length-snapshot r, snapshot-room r now e v, snapshot-full r now e v)

-- From any valid ring that holds the newest events of a history, calls of `Record` extend it.
record_all-last_n :
    (r : Ring) (h : List Event) (calls : List (ℤ × Event))
    → IsValid r
    → snapshot r ≡ last_n r.capacity h
    → snapshot (record_all r calls) ≡ last_n r.capacity (h ++ stamps calls)
unfolding record_all record_event
record_all-last_n r h [] v e = rw append-nil e
record_all-last_n r h ((now, x) ∷ calls) v e =
    let q = record_event r now x in
    let step : snapshot q ≡ last_n q.capacity (h ++ stamp now x ∷ []) =
      snapshot-record_event r now x v
      ∙ rw (e, capacity-record_event r now x)
          (push_bounded-last_n r.capacity h (stamp now x) (omega arith)) in
    let rest =
      record_all-last_n q (h ++ stamp now x ∷ []) calls (record_event-IsValid r now x v) step in
    rw (append_assoc h (stamp now x ∷ []) (stamps calls), capacity-record_event r now x) at rest

length-stamps : (calls : List (ℤ × Event)) → length (stamps calls) ≡ length calls
length-stamps [] = refl
length-stamps ((now, e) ∷ calls) = ap suc (length-stamps calls)

-- The ring of any capacity, after any calls of `Record`, shows exactly the newest events of the
-- whole history, oldest first, and as many as fit; `Len` counts them.
pub snapshot-record_all :
    (c : ℤ) (calls : List (ℤ × Event))
    → let r = record_all (new_ring c) calls in
      (snapshot r ≡ last_n (effective_capacity c) (stamps calls))
      × (len r ≡ min (effective_capacity c) (length calls))
unfolding new_ring len snapshot copy_out
snapshot-record_all c calls =
    let s =
      record_all-last_n (new_ring c) [] calls (new_ring-IsValid c)
        (sym (last_n-nil (effective_capacity c))) in
    (
      s,
      ground (
        arith,
        length-snapshot (record_all (new_ring c) calls),
        length-last_n (effective_capacity c) (stamps calls),
        length-stamps calls,
        s,
      ),
    )
