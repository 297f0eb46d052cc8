-- ===== src/Alert/Observe.antt =====
-- internal/alert/observe.go and observe_dispatcher.go. A sample is a whole number of milliseconds, and
-- the index of a percentile is computed in float64, which is exact here while the samples are fewer
-- than 2^45. The buckets of the policy are stored and never read, and left out.
pub mod Sorting
pub mod Counting
use portwatch.Base.{
  ℕ, zero, suc, ◌+◌, ◌-◌, ◌*◌, ◌/◌, ℤ, pos, ltb_ℤ, List, [], ◌∷◌, ◌++◌, length, get_or, set, Bool,
  true, false, if◌then◌else◌, Option, none, some,
}
use portwatch.Alert.Notification.{Notification, Error, Dispatcher, wrap}

pub record ObserveSnapshot : Type 0 where
  pub total : ℕ
  pub errors : ℕ
  pub dropped : ℕ
  pub latency_p50_ms : ℤ
  pub latency_p99_ms : ℤ

pub record Observer : Type 0 where
  pub total : ℕ
  pub errors : ℕ
  pub dropped : ℕ
  pub samples : List ℤ

pub new_observer : Observer
new_observer = record { total = 0; errors = 0; dropped = 0; samples = [] }

abbrev pub failure_count : Option Error → ℕ
failure_count none = 0
failure_count (some e) = 1

-- `Record`, of a latency in milliseconds.
unfoldable pub record_outcome : Observer → Option Error → ℤ → Bool → Observer
record_outcome o err latency was_dropped =
    if was_dropped then record o { total = o.total + 1; dropped = o.dropped + 1 } else record o {
      total = o.total + 1;
      errors = o.errors + failure_count err;
      samples = o.samples ++ (latency ∷ []);
    }

pub reset : Observer → Observer
reset o = new_observer

-- `s[j], s[j-1] = s[j-1], s[j]` at `j = i + 1`.
abbrev pub swap_back : List ℤ → ℕ → List ℤ
swap_back s i = set (set s i (get_or s (suc i) (pos 0))) (suc i) (get_or s i (pos 0))

-- The inner loop of `sortFloat64s`, from `j` down.
unfoldable pub sift : List ℤ → ℕ → List ℤ
sift s zero = s
sift s (suc i) =
    let moved = sift (swap_back s i) i in
    if ltb_ℤ (get_or s (suc i) (pos 0)) (get_or s i (pos 0)) then moved else s

-- Its outer loop, from `i` on, with the rounds left.
unfoldable pub sort_from : List ℤ → ℕ → ℕ → List ℤ
sort_from s i zero = s
sort_from s i (suc n) = sort_from (sift s i) (suc i) n

pub sort_float64s : List ℤ → List ℤ
sort_float64s s = sort_from s 1 (length s - 1)

pub percentile : List ℤ → ℕ → ℤ
percentile sorted p = get_or sorted ((length sorted - 1) * p / 100) (pos 0)

pub snapshot : Observer → ObserveSnapshot
snapshot o = record {
  total = o.total;
  errors = o.errors;
  dropped = o.dropped;
  latency_p50_ms = percentile (sort_float64s o.samples) 50;
  latency_p99_ms = percentile (sort_float64s o.samples) 99;
}

-- `(*ObserveDispatcher).Send`; `since` is the milliseconds from the first reading to the second.
module _ {W : Type 0} (clock : W → ℤ × W) (since : ℤ → ℤ → ℤ) (next : Dispatcher W) where
  pub send : Dispatcher (Observer × W)
  send n (o, w) =
      let (start, w₁) = clock w in
      let (err, w₂) = next n w₁ in
      let (now, w₃) = clock w₂ in (err, (record_outcome o err (since start now) false, w₃))

-- `NewObserveDispatcher`
new_observe_dispatcher :
    {W : Type 0}
    → (W → ℤ × W)
    → (ℤ → ℤ → ℤ)
    → Option (Dispatcher W)
    → Option Observer
    → Option (Dispatcher (Observer × W) × Observer)
new_observe_dispatcher clock since = wrap (send clock since)
