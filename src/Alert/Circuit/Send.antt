-- ===== src/Alert/Circuit/Send.antt =====
-- The dispatcher: when it forwards, and what it makes of the answer.
use portwatch.Base.{◌≡◌, ◌+ℤ◌, ◌<ℤ◌, ◌≤ℤ◌, none, some, arith, IsDuration, le-time_sub_iff, ◌≢◌, ◌⊎◌}
use portwatch.Alert.Notification.{Notification, circuit_open, Clock, Dispatcher}
use portwatch.Alert.Circuit.{
  open_, CircuitBreaker, allow, settle, send, record_success, record_failure,
}

module _ {W : Type 0} (clock : Clock W) (next : Dispatcher W) where
  -- While the circuit is open and its duration has not passed, `Send` fails fast: the downstream is
  -- not called, and the breaker is as before. In any other case it calls the downstream once and
  -- returns its answer unchanged; the breaker counts a nil error as a success and any other, at
  -- the time read after it, as a failure.
  pub send-allow :
      (b : CircuitBreaker) (n : Notification) (w : W)
      → IsDuration b.policy.open_duration
      → let now = (clock w).0 in
        let out = next n (clock w).1 in
        let r = send clock next n (b, w) in
        ((b.state ≡ open_)
          × (now <ℤ b.opened_at +ℤ b.policy.open_duration)
          × (r ≡ (some (circuit_open n.port), (b, (clock w).1))))
        ⊎ (((b.state ≢ open_) ⊎ (b.opened_at +ℤ b.policy.open_duration ≤ℤ now))
            × (r.0 ≡ out.0)
            × (r.1 ≡ elim out.0 [
              | none ↦ (record_success (allow b now).0, out.1)
              | some e ↦ (record_failure (allow b now).0 (clock out.1).0, (clock out.1).1)
            ]))
  unfolding send allow settle
  send-allow b n w d =
      ground (arith, le-time_sub_iff (clock w).0 b.opened_at b.policy.open_duration d)
