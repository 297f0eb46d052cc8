-- ===== src/Alert/Circuit/Guarded.antt =====
-- A circuit breaker with a fallback: circuit_dispatcher.go inside fallback.go.
use portwatch.Base.{
  ◌≡◌, ◌≢◌, ◌⊎◌, refl, ◌+ℤ◌, ◌<ℤ◌, ◌≤ℤ◌, inl, inr, Option, none, some, Option-cases, IsDuration,
  arith,
}
use portwatch.Alert.Notification.{Notification, Error, Clock, Dispatcher}
use portwatch.Alert.Circuit.{open_, CircuitBreaker, allow, send, record_success, record_failure}
use portwatch.Alert.Circuit.Send.{send-allow}
use portwatch.Alert.Pipeline.{Fallback, send_or_fallback}

module _ {W : Type 0} (clock : Clock W) (primary fallback : Dispatcher W) where
  -- The fallback has no part in the breaker.
  abbrev pub beside : CircuitBreaker → Option Error × W → Option Error × (CircuitBreaker × W)
  beside b (e, w) = (e, (b, w))

  abbrev pub guarded : Fallback (CircuitBreaker × W)
  guarded = record { primary = send clock primary; fallback = λ n s. beside s.0 (fallback n s.1) }

  -- While the circuit is open and its duration has not passed, a notification goes to the fallback
  -- alone, and the breaker is as before. In any other case it goes to the primary first: if that
  -- returns nil, the breaker counts a success and the fallback is not called; if it fails, the breaker
  -- counts a failure at the time read after it, and the fallback gets the notification. The caller
  -- gets the answer of the one that was called last.
  pub send_or_fallback-guarded :
      (b : CircuitBreaker) (n : Notification) (w : W)
      → IsDuration b.policy.open_duration
      → let now = (clock w).0 in
        let out = primary n (clock w).1 in
        let answer = send_or_fallback guarded n (b, w) in
        ((b.state ≡ open_)
          × (now <ℤ b.opened_at +ℤ b.policy.open_duration)
          × (answer ≡ beside b (fallback n (clock w).1)))
        ⊎ (((b.state ≢ open_) ⊎ (b.opened_at +ℤ b.policy.open_duration ≤ℤ now))
            × (out.0 ≡ none)
            × (answer ≡ (none, (record_success (allow b now).0, out.1))))
        ⊎ ((e : Error) × ((b.state ≢ open_) ⊎ (b.opened_at +ℤ b.policy.open_duration ≤ℤ now))
            × (out.0 ≡ some e)
            × (answer
                ≡ beside
                    (record_failure (allow b now).0 (clock out.1).0)
                    (fallback n (clock out.1).1)))
  unfolding send_or_fallback
  send_or_fallback-guarded b n w d = elim (send-allow clock primary b n w d) [
    | inl (opened, early, r) ↦ inl (opened, early, rw r refl)
    | inr (asked, first, second) ↦ elim (Option-cases (primary n (clock w).1).0) [
      | inl e ↦ inr (inl (asked, e, ground (arith, first, second, e)))
      | inr (err, e) ↦ inr (inr (err, asked, e, ground (arith, first, second, e)))
    ]
  ]
