-- ===== src/Alert/Circuit.antt =====
-- internal/alert/circuit.go and circuit_dispatcher.go: the circuit breaker. The mutex makes each
-- method one step; `now` is the reading of the clock. The counters stay below the thresholds, so
-- `int` does not wrap.
pub mod Inv
pub mod Moves
pub mod Streaks
pub mod Send
pub mod Guarded
use portwatch.Base.{
  ℕ, ◌+◌, ℤ, pos, leb_ℤ, ltb_ℤ, time_sub, Bool, true, false, not, ◌&&◌, ◌||◌, if◌then◌else◌, Option,
  none, some,
}
use portwatch.Alert.Notification.{Notification, Error, circuit_open, Clock, Dispatcher, wrap}

pub data CircuitState : Type 0 where
  closed open_ half_open : CircuitState

pub record CircuitPolicy : Type 0 where
  pub failure_threshold : ℤ
  pub success_threshold : ℤ
  pub open_duration : ℤ

abbrev default_circuit_policy : CircuitPolicy
default_circuit_policy = record {
  failure_threshold = pos 3;
  success_threshold = pos 2;
  open_duration = pos 30_000_000_000;
}

pub record CircuitBreaker : Type 0 where
  pub policy : CircuitPolicy
  pub state : CircuitState
  pub failures : ℕ
  pub successes : ℕ
  pub opened_at : ℤ

-- Each threshold or duration that is not positive gives way to its default.
abbrev pub or_default : ℤ → ℤ → ℤ
or_default x d = if leb_ℤ x (pos 0) then d else x

pub new_circuit_breaker : CircuitPolicy → CircuitBreaker
new_circuit_breaker p = record {
  policy = record {
    failure_threshold = or_default p.failure_threshold default_circuit_policy.failure_threshold;
    success_threshold = or_default p.success_threshold default_circuit_policy.success_threshold;
    open_duration = or_default p.open_duration default_circuit_policy.open_duration;
  };
  state = closed;
  failures = 0;
  successes = 0;
  opened_at = pos 0;
}

abbrev allow_from : CircuitState → CircuitBreaker → ℤ → CircuitBreaker × Bool
allow_from open_ b now =
    if leb_ℤ b.policy.open_duration (time_sub now b.opened_at)
    then (record b { state = half_open; successes = 0 }, true)
    else (b, false)
allow_from closed b now = (b, true)
allow_from half_open b now = (b, true)

pub allow : CircuitBreaker → ℤ → CircuitBreaker × Bool
allow b now = allow_from b.state b now

abbrev is_half_open : CircuitState → Bool
is_half_open half_open = true
is_half_open closed = false
is_half_open open_ = false

pub record_success : CircuitBreaker → CircuitBreaker
record_success b =
    let settled : CircuitBreaker =
      (if leb_ℤ b.policy.success_threshold (pos (b.successes + 1))
        then record b { failures = 0; successes = b.successes + 1; state = closed }
        else record b { failures = 0; successes = b.successes + 1 }) in
    if is_half_open b.state then settled else record b { failures = 0 }

pub record_failure : CircuitBreaker → ℤ → CircuitBreaker
record_failure b now =
    let trips = is_half_open b.state || leb_ℤ b.policy.failure_threshold (pos (b.failures + 1)) in
    if trips
    then record b { successes = 0; state = open_; opened_at = now; failures = 0 }
    else record b { successes = 0; failures = b.failures + 1 }

-- `(*CircuitDispatcher).Send`
module _ {W : Type 0} (clock : Clock W) (next : Dispatcher W) where
  pub settle : CircuitBreaker → Option Error × W → Option Error × (CircuitBreaker × W)
  settle b (none, w) = (none, (record_success b, w))
  settle b (some e, w) = let (now, w') = clock w in (some e, (record_failure b now, w'))

  pub send : Dispatcher (CircuitBreaker × W)
  unfolding settle
  send n (b, w) =
      let (now, w') = clock w in
      let (b', proceed) = allow b now in
      if proceed then settle b' (next n w') else (some (circuit_open n.port), (b', w'))

-- `NewCircuitDispatcher`, with the breaker that it makes.
new_circuit_dispatcher :
    {W : Type 0}
    → Clock W
    → Option (Dispatcher W)
    → CircuitPolicy
    → Option (Dispatcher (CircuitBreaker × W) × CircuitBreaker)
new_circuit_dispatcher clock next policy =
    wrap (send clock) next (some (new_circuit_breaker policy))
