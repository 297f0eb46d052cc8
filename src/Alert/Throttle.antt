-- ===== src/Alert/Throttle.antt =====
-- internal/alert/throttle.go and throttle_dispatcher.go. `now` is the reading of the clock; the
-- policy is used as it is given.
pub mod Laws
use portwatch.Base.{
  ℤ, pos, ◌-ℤ◌, ltb_ℤ, leb_ℤ, Text, text_eq, List, [], ◌∷◌, ◌++◌, Map, lookup_or, insert, Bool,
  true, false, if◌then◌else◌, Option, none, some, keep, length,
}
use portwatch.Alert.Notification.{Notification, Error, burst_limit, Clock, Dispatcher, wrap}
use portwatch.Alert.Key.{throttle_key}
use portwatch.Alert.Sliding.{after}

pub record ThrottlePolicy : Type 0 where
  pub max_burst : ℤ
  pub burst_window : ℤ

abbrev default_throttle_policy : ThrottlePolicy
default_throttle_policy = record { max_burst = pos 5; burst_window = pos 60_000_000_000 }

pub record Throttler : Type 0 where
  pub policy : ThrottlePolicy
  pub timestamps : Map Text (List ℤ)

unfoldable pub new_throttler : ThrottlePolicy → Throttler
new_throttler p = record { policy = p; timestamps = [] }

-- `Allow` from the computed key on.
pub allow_key : Throttler → ℤ → Text → Throttler × Bool
allow_key t now key =
    let cutoff = now -ℤ t.policy.burst_window in
    let valid = keep (after cutoff) (lookup_or key [] t.timestamps) in
    if leb_ℤ t.policy.max_burst (pos (length valid))
    then (record t { timestamps = insert key valid t.timestamps }, false)
    else (record t { timestamps = insert key (valid ++ now ∷ []) t.timestamps }, true)

unfoldable pub allow : Throttler → ℤ → ℤ → Text → Throttler × Bool
allow t now port state = allow_key t now (throttle_key port state)

pub reset : Throttler → Throttler
reset t = record t { timestamps = [] }

-- `(*ThrottleDispatcher).Send`
module _ {W : Type 0} (clock : Clock W) (next : Dispatcher W) where
  unfoldable pub send : Dispatcher (Throttler × W)
  send n (t, w) =
      let (now, w') = clock w in
      let (t', within) = allow t now n.port n.state in
      if within
      then (let (e, w'') = next n w' in (e, (t', w'')))
      else (some (burst_limit n.port n.state), (t', w'))

-- `NewThrottleDispatcher`
new_throttle_dispatcher :
    {W : Type 0}
    → Clock W
    → Option (Dispatcher W)
    → Option Throttler
    → Option (Dispatcher (Throttler × W) × Throttler)
new_throttle_dispatcher clock = wrap (send clock)
