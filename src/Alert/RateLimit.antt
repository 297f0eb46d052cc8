-- ===== src/Alert/RateLimit.antt =====
-- internal/alert/ratelimit_dispatcher.go. It calls an `Allow` that throttle.go does not have, with a key
-- and a time, which is an argument, and so is the rounding of a duration.
use portwatch.Base.{ℤ, Text, Bool, true, false, Option, some}
use portwatch.Alert.Notification.{Notification, Error, rate_limited, Dispatcher, Clock, wrap}
use portwatch.Alert.Key.{notification_key}

module _ {L W : Type 0} (allow : Text → ℤ → L → (Bool × ℤ) × L) (round : ℤ → ℤ) (now : Clock W)
    (next : Dispatcher W) where
  abbrev pass : Notification → (Bool × ℤ) × L → W → Option Error × (L × W)
  pass n ((true, retry_after), l) w = let (e, w') = next n w in (e, (l, w'))
  pass n ((false, retry_after), l) w =
      (some (rate_limited (notification_key n) (round retry_after)), (l, w))

  -- `(*RateLimitDispatcher).Send`
  unfoldable pub send : Dispatcher (L × W)
  send n (l, w) = let (t, w') = now w in pass n (allow (notification_key n) t l) w'

-- `NewRateLimitDispatcher`, with the limiter that it makes.
new_rate_limit_dispatcher :
    {P L W : Type 0}
    → (Text → ℤ → L → (Bool × ℤ) × L)
    → (ℤ → ℤ)
    → Clock W
    → (P → L)
    → P
    → Option (Dispatcher W)
    → Option (Dispatcher (L × W) × L)
new_rate_limit_dispatcher allow round now new_limiter policy next =
    wrap (send allow round now) next (some (new_limiter policy))
