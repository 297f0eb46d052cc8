-- ===== src/Alert/Shadow.antt =====
-- internal/alert/shadow.go. `send` is what the caller runs, and `settle` what its goroutine runs, at
-- any later time.
pub mod Laws
use portwatch.Base.{
  ℤ, Text, List, [], ◌∷◌, ◌++◌, Bool, true, false, if◌then◌else◌, Option, none, some,
}
use portwatch.Alert.Notification.{Notification, Error, Dispatcher, Clock}
use portwatch.Alert.Key.{notification_key}

pub record ShadowPolicy : Type 0 where
  pub log_divergence : Bool

default_shadow_policy : ShadowPolicy
default_shadow_policy = record { log_divergence = true }

pub record Divergence : Type 0 where
  pub key : Text
  pub primary : Option Error
  pub shadow : Option Error
  pub recorded_at : ℤ

pub record Shadow : Type 0 where
  pub policy : ShadowPolicy
  pub divergences : List Divergence

pub new_shadow : ShadowPolicy → Shadow
new_shadow policy = record { policy = policy; divergences = [] }

-- `(primaryErr == nil) != (shadowErr == nil)`
abbrev pub differ : Option Error → Option Error → Bool
differ none none = false
differ none (some e) = true
differ (some e) none = true
differ (some e) (some f) = false

-- What the goroutine does once the shadow has returned; the clock is read if the sides differ.
unfoldable pub settle : Shadow → Notification → Option Error → Option Error → ℤ → Shadow
settle s n primary shadow now =
    if s.policy.log_divergence
    then (if differ primary shadow
        then record s {
          divergences =
              s.divergences
              ++ record {
                key = notification_key n;
                primary = primary;
                shadow = shadow;
                recorded_at = now;
              }
                ∷ [];
        }
        else s)
    else s

-- `Send`: its result, and the goroutine that it starts, which holds the notification and the result.
abbrev Started : Type 0
Started = Notification × Option Error

module _ {W : Type 0} (primary : Dispatcher W) where
  unfoldable pub send : Notification → W → (Option Error × Started) × W
  send n w = let (e, w') = primary n w in ((e, (n, e)), w')

-- `Divergences`
pub divergences : Shadow → List Divergence
divergences s = s.divergences

pub reset : Shadow → Shadow
reset s = record s { divergences = [] }
