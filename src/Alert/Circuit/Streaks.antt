-- ===== src/Alert/Circuit/Streaks.antt =====
-- Runs of failures and of successes.
use portwatch.Base.{
  true, ◌≤ℤ◌, ◌≤◌, ◌∙◌, ◌+ℤ◌, IsDuration, le-time_sub_iff, subst, sym, ℕ, zero, suc, ◌+◌, ◌≡◌, ℤ,
  pos, ◌<ℤ◌, List, [], ◌∷◌, length, arith,
}
use portwatch.Alert.Circuit.{
  closed, open_, half_open, CircuitBreaker, allow, record_success, record_failure,
}

-- Failures at the given times, one after the other.
pub fail_all : CircuitBreaker → List ℤ → CircuitBreaker
fail_all b [] = b
fail_all b (t ∷ times) = fail_all (record_failure b t) times

pub succeed_times : CircuitBreaker → ℕ → CircuitBreaker
succeed_times b zero = b
succeed_times b (suc n) = succeed_times (record_success b) n

closed_streak :
    (b : CircuitBreaker) (times : List ℤ)
    → b.state ≡ closed
    → pos (b.failures + length times) <ℤ b.policy.failure_threshold
    → ((fail_all b times).state ≡ closed)
      × ((fail_all b times).failures ≡ b.failures + length times)
      × ((fail_all b times).policy ≡ b.policy)
unfolding fail_all record_failure
closed_streak b [] s h = ground arith
closed_streak b (t ∷ times) s h = ground (arith, closed_streak (record_failure b t) times)

half_open_streak :
    (b : CircuitBreaker) (n : ℕ)
    → b.state ≡ half_open
    → pos (b.successes + n) <ℤ b.policy.success_threshold
    → ((succeed_times b n).state ≡ half_open)
      × ((succeed_times b n).successes ≡ b.successes + n)
      × ((succeed_times b n).policy ≡ b.policy)
unfolding succeed_times record_success
half_open_streak b zero s h = ground arith
half_open_streak b (suc n) s h = ground (arith, half_open_streak (record_success b) n)

fail_all-opens :
    (b : CircuitBreaker) (times : List ℤ) (t : ℤ)
    → b.state ≡ closed
    → pos (b.failures + length times + 1) ≡ b.policy.failure_threshold
    → let c = record_failure (fail_all b times) t in
      (c.state ≡ open_) × (c.opened_at ≡ t) × (c.failures ≡ 0) × (c.policy ≡ b.policy)
unfolding record_failure
fail_all-opens b times t s h = ground (arith, closed_streak b times)

record_success-cleared :
    (b : CircuitBreaker)
    → b.state ≡ closed
    → let c = record_success b in (c.state ≡ closed) × (c.failures ≡ 0) × (c.policy ≡ b.policy)
unfolding record_success
record_success-cleared b s = ground arith

allow-opens :
    (b : CircuitBreaker) (now : ℤ)
    → b.state ≡ open_
    → IsDuration b.policy.open_duration
    → b.opened_at +ℤ b.policy.open_duration ≤ℤ now
    → let c = (allow b now).0 in
      ((allow b now).1 ≡ true) × (c.state ≡ half_open) × (c.successes ≡ 0) × (c.policy ≡ b.policy)
unfolding allow
allow-opens b now s d h = ground (arith, le-time_sub_iff now b.opened_at b.policy.open_duration d)

succeed_times-closes :
    (b : CircuitBreaker) (n : ℕ) (t : ℤ)
    → b.state ≡ half_open
    → pos (b.successes + n + 1) ≡ b.policy.success_threshold
    → let c = succeed_times b n in
      (c.state ≡ half_open)
      × (((record_success c).state ≡ closed) × ((record_success c).failures ≡ 0))
      × ((record_failure c t).state ≡ open_)
unfolding record_success record_failure
succeed_times-closes b n t s h = ground (arith, half_open_streak b n)

-- The full circle of a circuit that is closed, whatever its count of failures. A success clears that
-- count, so that only failures in a row open the circuit: after it, and after any number of failures
-- that is less than the threshold, it is closed, and the failure that makes up the threshold opens it
-- at its time, with the count cleared. Asked once the open duration has passed, it lets the call
-- through and is half-open; it is half-open after any number of successes less than their threshold,
-- and the one that makes it up closes it with no failure counted, while a failure in its place opens
-- it again.
pub recovers :
    (b : CircuitBreaker) (early times : List ℤ) (t now later : ℤ) (few n : ℕ)
    → b.state ≡ closed
    → IsDuration b.policy.open_duration
    → length early ≤ length times
    → few ≤ n
    → pos (length times + 1) ≡ b.policy.failure_threshold
    → pos (n + 1) ≡ b.policy.success_threshold
    → t +ℤ b.policy.open_duration ≤ℤ now
    → let cleared = record_success b in
      let opened = record_failure (fail_all cleared times) t in
      let probing = (allow opened now).0 in
      let trusted = record_success (succeed_times probing n) in
      ((fail_all cleared early).state ≡ closed)
      × ((opened.state ≡ open_) × (opened.opened_at ≡ t) × (opened.failures ≡ 0))
      × ((allow opened now).1 ≡ true)
      × ((succeed_times probing few).state ≡ half_open)
      × ((trusted.state ≡ closed) × (trusted.failures ≡ 0))
      × ((record_failure (succeed_times probing n) later).state ≡ open_)
recovers b early times t now later few n s d he hk hf hs ht =
    let c = record_success-cleared b s in
    let cleared = record_success b in
    let opened = record_failure (fail_all cleared times) t in
    let o = fail_all-opens cleared times t c.0 (ground (arith, c.1, c.2, hf)) in
    let policy : opened.policy ≡ b.policy = o.3 ∙ c.2 in
    let a =
      allow-opens opened now o.0 (subst (λ q. IsDuration q.open_duration) (sym policy) d)
        (ground (arith, o.1, policy, ht)) in
    let probing = (allow opened now).0 in
    let z = succeed_times-closes probing n later a.1 (ground (arith, a.2, a.3, policy, hs)) in
    (
      (closed_streak cleared early c.0 (ground (arith, c.1, c.2, hf, he))).0,
      (o.0, o.1, o.2),
      a.0,
      (half_open_streak probing few a.1 (ground (arith, a.2, a.3, policy, hs, hk))).0,
      z.1,
      z.2,
    )
