-- ===== src/Alert/Retry.antt =====
-- internal/alert/retry.go. The HTTP client, the select that waits, the product with the
-- floating-point multiplier and errors.Unwrap are arguments.
pub mod Attempts
use portwatch.Base.{ℕ, zero, suc, ◌*◌, ℤ, pos, pos_part, ltb_ℤ, Option, none, some, if◌then◌else◌}
use portwatch.Alert.Notification.{Error}

-- `F` stands for `float64`.
pub record RetryPolicy (F : Type 0) : Type 0 where
  pub max_attempts : ℤ
  pub initial_wait : ℤ
  pub multiplier : F
  pub max_wait : ℤ

-- `two` is the literal 2.0.
default_retry_policy : {F : Type 0} → F → RetryPolicy F
default_retry_policy two = record {
  max_attempts = pos 4;
  initial_wait = pos (500 * 1000000);
  multiplier = two;
  max_wait = pos (10 * 1000000000);
}

-- What `client.Do` returns: a status or an error.
pub data Reply : Type 0 where
  replied : ℤ → Reply
  broken : Error → Reply

-- What `Do` returns. `gave_up` is the error that counts the attempts, with what it wraps.
pub data Outcome : Type 0 where
  answered : ℤ → Outcome
  stopped : Error → Outcome
  gave_up : ℤ → Option Error → Outcome

-- `err == nil && resp.StatusCode < 500`
unfoldable pub final_status : Reply → Option ℤ
final_status (replied status) = if ltb_ℤ status (pos 500) then some status else none
final_status (broken e) = none

-- `times` is the product with the multiplier, converted back.
unfoldable pub next_wait : {F : Type 0} → (ℤ → F → ℤ) → RetryPolicy F → ℤ → ℤ
next_wait times p wait =
    let scaled = times wait p.multiplier in if ltb_ℤ p.max_wait scaled then p.max_wait else scaled

-- `errors.Unwrap(lastErr)`: the error that counts a status wraps none.
abbrev pub cause : (Error → Option Error) → Option Reply → Option Error
cause unwrap none = none
cause unwrap (some (replied status)) = none
cause unwrap (some (broken e)) = unwrap e

module _ {F W : Type 0} (times : ℤ → F → ℤ) (unwrap : Error → Option Error) (client : W → Reply × W)
    (pause : ℤ → W → Option Error × W) where
  -- The loop, with the attempts left, the wait and the reply behind `lastErr`. The last attempt
  -- breaks out of it before the select.
  unfoldable pub attempts : RetryPolicy F → ℕ → ℤ → Option Reply → W → Outcome × W
  attempts p zero wait last w = (gave_up p.max_attempts (cause unwrap last), w)
  attempts p (suc zero) wait last w =
      let (reply, w') = client w in
      elim (final_status reply) [
        | some status ↦ (answered status, w')
        | none ↦ (gave_up p.max_attempts (cause unwrap (some reply)), w')
      ]
  attempts p (suc (suc left)) wait last w =
      let (reply, w') = client w in
      let (ended, w'') = pause wait w' in
      elim (final_status reply) [
        | some status ↦ (answered status, w')
        | none ↦ elim ended [
          | some e ↦ (stopped e, w'')
          | none ↦ attempts p (suc left) (next_wait times p wait) (some reply) w''
        ]
      ]

  -- `Do`
  unfoldable pub do_request : RetryPolicy F → W → Outcome × W
  do_request p w = attempts p (pos_part p.max_attempts) p.initial_wait none w
