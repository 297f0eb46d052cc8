-- ===== src/Tests/Breaker.antt =====
-- The circuit breaker.
use portwatch.Base.{
  true, ◌⊎◌, ◌≢◌, ◌<ℤ◌, ◌≤ℤ◌, ◌+ℤ◌, ℕ, zero, suc, ◌≡◌, refl, ℤ, pos, [], ◌∷◌, text, none, some,
  arith,
}
use portwatch.Alert.Notification.{Notification, Error, failed, Clock, Dispatcher}
use portwatch.Alert.Circuit.{
  allow, record_success, closed, open_, half_open, CircuitPolicy, CircuitBreaker,
  new_circuit_breaker, record_success, record_failure,
}
use portwatch.Alert.Circuit.Inv.{
  IsValid, Call, allows, succeeds, fails, run, run-new_circuit_breaker-IsValid,
}
use portwatch.Alert.Circuit.Inv
use portwatch.Alert.Circuit.Moves.{Move, step-Move}
use portwatch.Alert.Circuit.Streaks.{fail_all, succeed_times, recovers}
use portwatch.Alert.Circuit.Guarded.{beside, guarded, send_or_fallback-guarded}
use portwatch.Alert.Pipeline.{send_or_fallback}

abbrev policy : CircuitPolicy
policy = record { failure_threshold = pos 3; success_threshold = pos 2; open_duration = pos 30 }

abbrev running : CircuitBreaker
running = record { policy = policy; state = closed; failures = 0; successes = 0; opened_at = pos 0 }

abbrev tripped : CircuitBreaker
tripped = record running { state = open_; opened_at = pos 100 }

abbrev probing : CircuitBreaker
probing = record tripped { state = half_open }

run-new_circuit_breaker-IsValid_example : IsValid (
    run
      (new_circuit_breaker policy)
      (fails (pos 1) ∷ fails (pos 2) ∷ fails (pos 3) ∷ allows (pos 40) ∷ succeeds ∷ []))
run-new_circuit_breaker-IsValid_example =
    run-new_circuit_breaker-IsValid policy
      (fails (pos 1) ∷ fails (pos 2) ∷ fails (pos 3) ∷ allows (pos 40) ∷ succeeds ∷ [])

step-Move_example : Move tripped (allows (pos 130)) (Inv.step tripped (allows (pos 130))).state
step-Move_example = step-Move tripped (allows (pos 130)) (omega arith)

-- Two failures have come before the success.
abbrev strained : CircuitBreaker
strained = record running { failures = 2 }

recovers_example :
    let cleared = record_success strained in
    let opened = record_failure (fail_all cleared (pos 1 ∷ pos 2 ∷ [])) (pos 3) in
    let trial = (allow opened (pos 40)).0 in
    let trusted = record_success (succeed_times trial 1) in
    ((fail_all cleared (pos 1 ∷ [])).state ≡ closed)
    × ((opened.state ≡ open_) × (opened.opened_at ≡ pos 3) × (opened.failures ≡ 0))
    × ((allow opened (pos 40)).1 ≡ true)
    × ((succeed_times trial 0).state ≡ half_open)
    × ((trusted.state ≡ closed) × (trusted.failures ≡ 0))
    × ((record_failure (succeed_times trial 1) (pos 41)).state ≡ open_)
unfolding ◌+ℤ◌
recovers_example =
    recovers strained (pos 1 ∷ []) (pos 1 ∷ pos 2 ∷ []) (pos 3) (pos 40) (pos 41) 0 1 refl
      (record { above = omega arith; below = omega arith }) (omega arith) (omega arith) refl refl
      (omega arith)

-- A clock that stands still, and a downstream that counts its calls and fails on the second.
abbrev still : Clock (ℤ × ℕ)
still (t, calls) = (t, (t, calls))

abbrev second_fails : Dispatcher (ℤ × ℕ)
second_fails n (t, zero) = (none, (t, 1))
second_fails n (t, suc calls) = (some (failed 7), (t, suc (suc calls)))

abbrev closed_80 : Notification
closed_80 = record {
  port = pos 80;
  state = text "closed";
  timestamp = pos 0;
  message = text "port 80 is now closed";
}

-- The fallback takes everything.
abbrev accepts : Dispatcher (ℤ × ℕ)
accepts n w = (none, w)

send_or_fallback-guarded_example :
    let out = second_fails closed_80 (pos 130, 1) in
    let answer =
      send_or_fallback (guarded still second_fails accepts) closed_80 (tripped, (pos 130, 1)) in
    ((open_ ≡ open_)
      × (pos 130 <ℤ pos 100 +ℤ pos 30)
      × (answer ≡ beside still second_fails accepts tripped (accepts closed_80 (pos 130, 1))))
    ⊎ (((open_ ≢ open_) ⊎ (pos 100 +ℤ pos 30 ≤ℤ pos 130))
        × (out.0 ≡ none)
        × (answer ≡ (none, (record_success (allow tripped (pos 130)).0, out.1))))
    ⊎ ((e : Error) × ((open_ ≢ open_) ⊎ (pos 100 +ℤ pos 30 ≤ℤ pos 130))
        × (out.0 ≡ some e)
        × (answer
            ≡ beside still second_fails accepts
                (record_failure (allow tripped (pos 130)).0 (still out.1).0)
                (accepts closed_80 (still out.1).1)))
send_or_fallback-guarded_example =
    send_or_fallback-guarded still second_fails accepts tripped closed_80 (pos 130, 1) (omega arith)
