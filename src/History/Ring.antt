-- ===== src/History/Ring.antt =====
-- internal/history/history.go: the ring buffer of state-change events. A method that updates `*r`
-- returns the new ring. An index stays below the capacity, so `int` does not wrap.
pub mod Loop
pub mod Inv
pub mod Refine
use portwatch.Base.{
  ℕ, zero, suc, ◌+◌, ◌-◌, ◌%◌, ℤ, pos, pos_part, leb_ℤ, eq_ℤ, ltb, List, [], ◌∷◌, map, Text,
  if◌then◌else◌, get_or, set, replicate, Bool,
}

-- Times are nanoseconds from Go's zero time.
pub record Event : Type 0 where
  pub port : ℤ
  pub host : Text
  pub state : Text
  pub timestamp : ℤ

-- The zero value with which `make` fills the storage.
abbrev pub zero_event : Event
zero_event = record { port = pos 0; host = []; state = []; timestamp = pos 0 }

-- `cap` is spelled `capacity`; the constructor makes it positive.
pub record Ring : Type 0 where
  pub events : List Event
  pub capacity : ℕ
  pub head : ℕ
  pub count : ℕ

abbrev pub effective_capacity : ℤ → ℕ
effective_capacity c = if leb_ℤ c (pos 0) then 100 else pos_part c

pub new_ring : ℤ → Ring
new_ring c = record {
  events = replicate (effective_capacity c) zero_event;
  capacity = effective_capacity c;
  head = 0;
  count = 0;
}

-- `time.Now().UTC()` is the argument `now`.
abbrev pub stamp : ℤ → Event → Event
stamp now e = if eq_ℤ e.timestamp (pos 0) then record e { timestamp = now } else e

-- `Record`
pub record_event : Ring → ℤ → Event → Ring
record_event r now e = record r {
  events = set r.events r.head (stamp now e);
  head = (r.head + 1) % r.capacity;
  count = if ltb r.count r.capacity then r.count + 1 else r.count;
}

-- `for i := …; out[i] = events[(start+i)%cap]`, with the rounds left.
unfoldable pub copy_out : List Event → ℕ → ℕ → ℕ → ℕ → List Event
copy_out events capacity start i zero = []
copy_out events capacity start i (suc n) =
    get_or events ((start + i) % capacity) zero_event ∷ copy_out events capacity start (i + 1) n

-- `(r.head - r.count + r.cap) % r.cap`; the sum is not negative, since `count ≤ cap`.
abbrev pub start : Ring → ℕ
start r = (r.head + r.capacity - r.count) % r.capacity

unfoldable pub snapshot : Ring → List Event
snapshot r = copy_out r.events r.capacity (start r) 0 r.count

pub len : Ring → ℕ
len r = r.count

-- The daemon's calls of `Record` in order, each with its reading of the clock.
pub record_all : Ring → List (ℤ × Event) → Ring
record_all r [] = r
record_all r ((now, e) ∷ calls) = record_all (record_event r now e) calls

abbrev pub stamps : List (ℤ × Event) → List Event
stamps [] = []
stamps ((now, e) ∷ calls) = stamp now e ∷ stamps calls
