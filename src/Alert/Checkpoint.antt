-- ===== src/Alert/Checkpoint.antt =====
-- internal/alert/checkpoint.go.
pub mod Laws
use portwatch.Base.{
  ℤ, pos, ltb_ℤ, time_sub, Text, text_eq, Map, lookup, insert, List, [], ◌∷◌, Bool, ◌&&◌,
  if◌then◌else◌, Option, none, some,
}
use portwatch.Alert.Notification.{Notification, Error, Dispatcher, Clock, wrap}
use portwatch.Alert.Key.{throttle_key, notification_key}

pub record CheckpointPolicy : Type 0 where
  pub max_age : ℤ

abbrev default_checkpoint_policy : CheckpointPolicy
default_checkpoint_policy = record { max_age = pos 300_000_000_000 }

pub record CheckpointEntry : Type 0 where
  pub notification : Notification
  pub at : ℤ

pub record Checkpointer : Type 0 where
  pub policy : CheckpointPolicy
  pub store : Map Text CheckpointEntry

pub new_checkpointer : CheckpointPolicy → Checkpointer
new_checkpointer p = record { policy = p; store = [] }

-- `Record`
unfoldable pub record_notification : Checkpointer → ℤ → Notification → Checkpointer
record_notification c now n = record c {
  store = insert (notification_key n) (record { notification = n; at = now }) c.store;
}

-- What `Latest` makes of the entry that it finds.
abbrev pub unless_expired : CheckpointPolicy → ℤ → Option CheckpointEntry → Option Notification
unless_expired p now none = none
unless_expired p now (some e) =
    if ltb_ℤ (pos 0) p.max_age && ltb_ℤ p.max_age (time_sub now e.at)
    then none
    else some e.notification

pub latest : Checkpointer → ℤ → ℤ → Text → Option Notification
latest c now port state = unless_expired c.policy now (lookup (throttle_key port state) c.store)

pub reset : Checkpointer → Checkpointer
reset c = record c { store = [] }

module _ {W : Type 0} (clock : Clock W) (next : Dispatcher W) where
  abbrev note : Notification → Checkpointer → Option Error × W → Option Error × (Checkpointer × W)
  note n c (some e, w) = (some e, (c, w))
  note n c (none, w) = let (now, w') = clock w in (none, (record_notification c now n, w'))

  -- `(*checkpointDispatcher).Send`
  pub send : Dispatcher (Checkpointer × W)
  send n (c, w) = note n c (next n w)

-- `NewCheckpointDispatcher`
new_checkpoint_dispatcher :
    {W : Type 0}
    → Clock W
    → Option (Dispatcher W)
    → Option Checkpointer
    → Option (Dispatcher (Checkpointer × W) × Checkpointer)
new_checkpoint_dispatcher clock = wrap (send clock)
