-- ===== src/Alert/Tap.antt =====
-- internal/alert/tap.go. A nil policy is `none`.
pub mod Laws
use portwatch.Base.{
  ℕ, ◌+◌, ℤ, pos, pos_part, List, [], ◌∷◌, ◌++◌, push_bounded, Option, none, some, length,
}
use portwatch.Alert.Notification.{Notification, Dispatcher, wrap}
use portwatch.Alert.BoundedLog.{positive_or}

pub record TapPolicy : Type 0 where
  pub max_capacity : ℤ

abbrev default_tap_policy : TapPolicy
default_tap_policy = record { max_capacity = pos 256 }

pub record Tap : Type 0 where
  pub policy : TapPolicy
  pub buf : List Notification

abbrev given : Option TapPolicy → TapPolicy
given none = default_tap_policy
given (some p) = p

pub new_tap : Option TapPolicy → Tap
new_tap policy = record {
  policy = record {
    max_capacity = positive_or (given policy).max_capacity default_tap_policy.max_capacity;
  };
  buf = [];
}

-- `record`
pub record_notification : Tap → Notification → Tap
record_notification t n = record t { buf = push_bounded (pos_part t.policy.max_capacity) t.buf n }

-- `Snapshot`; `Len` is its length.
pub snapshot : Tap → List Notification
snapshot t = t.buf

pub reset : Tap → Tap
reset t = record t { buf = [] }

-- `(*tapDispatcher).Send`
module _ {W : Type 0} (next : Dispatcher W) where
  pub send : Dispatcher (Tap × W)
  send n (t, w) = let t' = record_notification t n in let (e, w') = next n w in (e, (t', w'))

-- `NewTapDispatcher`
new_tap_dispatcher :
    {W : Type 0} → Option (Dispatcher W) → Option Tap → Option (Dispatcher (Tap × W) × Tap)
new_tap_dispatcher = wrap send
