-- ===== src/Alert/Circuit/Inv.antt =====
-- What holds of a breaker between any two of its method calls.
use portwatch.Base.{ℕ, ℤ, pos, ◌<ℤ◌, List, [], ◌∷◌, arith}
use portwatch.Alert.Circuit.{
  CircuitState, half_open, closed, open_, CircuitPolicy, CircuitBreaker, new_circuit_breaker, allow,
  record_success, record_failure,
}

-- In the half-open state, the successes are fewer than close the circuit.
abbrev NotDone : CircuitState → ℕ → ℤ → Type 0
NotDone half_open n threshold = pos n <ℤ threshold
NotDone closed n threshold = Unit
NotDone open_ n threshold = Unit

pub record IsValid (b : CircuitBreaker) : Type 0 where
  pub threshold : pos 0 <ℤ b.policy.failure_threshold
  pub failures : pos b.failures <ℤ b.policy.failure_threshold
  pub successes : NotDone b.state b.successes b.policy.success_threshold
  pub needed : pos 0 <ℤ b.policy.success_threshold

new_circuit_breaker-IsValid : (p : CircuitPolicy) → IsValid (new_circuit_breaker p)
unfolding new_circuit_breaker
new_circuit_breaker-IsValid p = ground arith

-- A method call; the clock is read where the code reads it.
pub data Call : Type 0 where
  allows : ℤ → Call
  succeeds : Call
  fails : ℤ → Call

unfoldable pub step : CircuitBreaker → Call → CircuitBreaker
step b (allows now) = (allow b now).0
step b succeeds = record_success b
step b (fails now) = record_failure b now

pub step-IsValid : (b : CircuitBreaker) (c : Call) → IsValid b → IsValid (step b c)
unfolding step allow record_success record_failure
step-IsValid b (allows now) v = ground arith
step-IsValid b succeeds v = ground arith
step-IsValid b (fails now) v = ground arith

unfoldable pub run : CircuitBreaker → List Call → CircuitBreaker
run b [] = b
run b (c ∷ calls) = run (step b c) calls

run-IsValid : (b : CircuitBreaker) (calls : List Call) → IsValid b → IsValid (run b calls)
unfolding run
run-IsValid b [] v = v
run-IsValid b (c ∷ calls) v = run-IsValid (step b c) calls (step-IsValid b c v)

-- After any calls, in any order, a breaker of any policy has counted fewer failures than open it,
-- and in the half-open state fewer successes than close it.
pub run-new_circuit_breaker-IsValid :
    (p : CircuitPolicy) (calls : List Call) → IsValid (run (new_circuit_breaker p) calls)
run-new_circuit_breaker-IsValid p calls = run-IsValid _ calls (new_circuit_breaker-IsValid p)
