-- ===== src/Alert/DeadLetter.antt =====
-- internal/alert/deadletter.go. `time.Now()` is a reading of the clock.
pub mod Laws
use portwatch.Base.{ℤ, pos, pos_part, List, [], push_bounded, Option, none, some}
use portwatch.Alert.Notification.{Notification, Error, Dispatcher, Clock, wrap}
use portwatch.Alert.BoundedLog.{positive_or}

pub record DeadLetterPolicy : Type 0 where
  pub capacity : ℤ

abbrev default_dead_letter_policy : DeadLetterPolicy
default_dead_letter_policy = record { capacity = pos 100 }

pub record DeadLetterEntry : Type 0 where
  pub notification : Notification
  pub err : Error
  pub failed_at : ℤ

pub record DeadLetterQueue : Type 0 where
  pub entries : List DeadLetterEntry
  pub capacity : ℤ

pub new_dead_letter_queue : DeadLetterPolicy → DeadLetterQueue
new_dead_letter_queue p = record {
  entries = [];
  capacity = positive_or p.capacity default_dead_letter_policy.capacity;
}

pub record_failure : DeadLetterQueue → Notification → Error → ℤ → DeadLetterQueue
record_failure q n err now = record q {
  entries =
      push_bounded (pos_part q.capacity) q.entries
        (record { notification = n; err = err; failed_at = now });
}

pub snapshot : DeadLetterQueue → List DeadLetterEntry
snapshot q = q.entries

-- `(*deadLetterDispatcher).Send`
module _ {W : Type 0} (clock : Clock W) (next : Dispatcher W) where
  pub settle :
      DeadLetterQueue → Notification → Option Error × W → Option Error × (DeadLetterQueue × W)
  settle q n (none, w) = (none, (q, w))
  settle q n (some e, w) = let (now, w') = clock w in (some e, (record_failure q n e now, w'))

  pub send : Dispatcher (DeadLetterQueue × W)
  unfolding settle
  send n (q, w) = settle q n (next n w)

-- `NewDeadLetterDispatcher`
new_dead_letter_dispatcher :
    {W : Type 0}
    → Clock W
    → Option (Dispatcher W)
    → Option DeadLetterQueue
    → Option (Dispatcher (DeadLetterQueue × W) × DeadLetterQueue)
new_dead_letter_dispatcher clock = wrap (send clock)
