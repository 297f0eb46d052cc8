-- ===== src/Alert/Circuit/Moves.antt =====
-- Which state changes a method call can make, and under which conditions.
use portwatch.Base.{◌+◌, ◌≡◌, ◌≢◌, ◌⊎◌, ◌<ℤ◌, pos, ◌≤ℤ◌, ◌+ℤ◌, arith, IsDuration, le-time_sub_iff}
use portwatch.Alert.Circuit.{
  CircuitState, closed, open_, half_open, CircuitBreaker, allow, record_success, record_failure,
}
use portwatch.Alert.Circuit.Inv.{Call, allows, succeeds, fails, step}

-- The moves of the state machine, each with its guard: the label is the call, `s` the state after it.
-- Exactly one guard holds.
abbrev pub Move : CircuitBreaker → Call → CircuitState → Type 0
Move b (allows now) s =
    ((b.state ≡ open_) × (s ≡ half_open) × (b.opened_at +ℤ b.policy.open_duration ≤ℤ now))
    ⊎ ((b.state ≡ open_) × (s ≡ open_) × (now <ℤ b.opened_at +ℤ b.policy.open_duration))
    ⊎ ((b.state ≢ open_) × (s ≡ b.state))
Move b succeeds s =
    ((b.state ≡ half_open) × (s ≡ closed) × (b.policy.success_threshold ≤ℤ pos (b.successes + 1)))
    ⊎ ((b.state ≡ half_open)
        × (s ≡ half_open)
        × (pos (b.successes + 1) <ℤ b.policy.success_threshold))
    ⊎ ((b.state ≢ half_open) × (s ≡ b.state))
Move b (fails now) s =
    ((b.state ≡ half_open) × (s ≡ open_))
    ⊎ ((b.state ≢ half_open) × (s ≡ open_) × (b.policy.failure_threshold ≤ℤ pos (b.failures + 1)))
    ⊎ ((b.state ≢ half_open) × (s ≡ b.state) × (pos (b.failures + 1) <ℤ b.policy.failure_threshold))

-- What each call does to the state: asking moves open to half-open exactly when the open duration
-- has passed; a success moves half-open to closed exactly if it is the last one needed; a failure
-- moves half-open to open always, and any other state to open exactly if it is the last failure
-- allowed; nothing else changes the state.
pub step-Move :
    (b : CircuitBreaker) (c : Call) → IsDuration b.policy.open_duration → Move b c (step b c).state
unfolding step allow record_success record_failure
step-Move b (allows now) d =
    ground (arith, le-time_sub_iff now b.opened_at b.policy.open_duration d)
step-Move b succeeds d = ground arith
step-Move b (fails now) d = ground arith
