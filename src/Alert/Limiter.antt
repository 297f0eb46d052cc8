-- ===== src/Alert/Limiter.antt =====
-- internal/alert/alert.go, and Send of internal/alert/notify.go. The mutex makes each method one
-- step; `now` is the reading of the clock.
pub mod Laws
use portwatch.Base.{
  ℤ, pos, ltb_ℤ, leb_ℤ, time_sub, Text, text_eq, Map, lookup, insert, delete, [], Bool, true, false,
  if◌then◌else◌, Option, none, some,
}
use portwatch.Alert.Notification.{Notification, Error, suppressed, bad_status, Clock}
use portwatch.Alert.Key.{notification_key}

pub record Policy : Type 0 where
  pub cooldown : ℤ

abbrev default_policy : Policy
default_policy = record { cooldown = pos 30_000_000_000 }

pub record Limiter : Type 0 where
  pub last : Map Text ℤ
  pub policy : Policy

pub new_limiter : Policy → Limiter
new_limiter p = record { last = []; policy = p }

pub allow : Limiter → ℤ → Text → Limiter × Bool
allow l now key =
    let fire : Limiter × Bool = (record l { last = insert key now l.last }, true) in
    elim (lookup key l.last) [
      | some t ↦ if ltb_ℤ (time_sub now t) l.policy.cooldown then (l, false) else fire
      | none ↦ fire
    ]

pub reset : Limiter → Text → Limiter
reset l key = record l { last = delete key l.last }

-- `(*Dispatcher).Send`: `post` is the marshalling and the HTTP call, which reports an error or the
-- status of the answer.
pub data Reply : Type 0 where
  refused : Error → Reply
  status : ℤ → Reply

module _ {W : Type 0} where
  abbrev answer : Limiter → Reply × W → Option Error × (Limiter × W)
  answer l (refused e, w) = (some e, (l, w))
  answer l (status code, w) =
      (if leb_ℤ (pos 300) code then some (bad_status code) else none, (l, w))

  pub send :
      Clock W
      → (Text → Notification → W → Reply × W)
      → Text
      → Notification
      → Limiter × W
      → Option Error × (Limiter × W)
  send clock post url n (l, w) =
      let (now, w') = clock w in
      let (l', fire) = allow l now (notification_key n) in
      if fire then answer l' (post url n w') else (some (suppressed (notification_key n)), (l', w'))
