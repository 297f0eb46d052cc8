-- ===== src/Alert/Correlate.antt =====
-- internal/alert/correlate.go. `now` is what the clock reads under the mutex.
pub mod Laws
use portwatch.Base.{
  ℕ, ◌+◌, ℤ, pos, ◌+ℤ◌, ltb_ℤ, eq_ℤ, time_sub, Text, text_eq, Map, lookup, insert, List, [], ◌∷◌,
  Bool, true, false, if◌then◌else◌, Option, none, some,
}
use portwatch.Alert.Notification.{Notification, Error, Dispatcher, Clock}
use portwatch.Alert.Key.{notification_key}

pub record CorrelatePolicy : Type 0 where
  pub window_duration : ℤ
  pub min_events : ℤ

abbrev default_correlate_policy : CorrelatePolicy
default_correlate_policy = record { window_duration = pos 120_000_000_000; min_events = pos 3 }

pub record CorrelateEntry : Type 0 where
  pub count : ℕ
  pub first_seen : ℤ
  pub last_notif : Notification

pub record Correlator : Type 0 where
  pub policy : CorrelatePolicy
  pub entries : Map Text CorrelateEntry

pub new_correlator : CorrelatePolicy → Correlator
new_correlator p = record { policy = p; entries = [] }

abbrev pub first_entry : ℤ → Notification → CorrelateEntry
first_entry now n = record { count = 1; first_seen = now; last_notif = n }

-- The entry that `Record` leaves, and its answer, given the one that it found.
abbrev pub count_event :
    CorrelatePolicy → ℤ → Notification → Option CorrelateEntry → CorrelateEntry × Bool
count_event p now n none = (first_entry now n, false)
count_event p now n (some e) =
    if ltb_ℤ p.window_duration (time_sub now e.first_seen)
    then (first_entry now n, false)
    else (record e { count = e.count + 1; last_notif = n }, eq_ℤ (pos (e.count + 1)) p.min_events)

-- `Record`
unfoldable pub record_notification : Correlator → ℤ → Notification → Correlator × Bool
record_notification c now n =
    let key = notification_key n in
    let (e, reached) = count_event c.policy now n (lookup key c.entries) in
    (record c { entries = insert key e c.entries }, reached)

pub reset : Correlator → Correlator
reset c = record c { entries = [] }

module _ {W : Type 0} (clock : Clock W) (next : Dispatcher W) where
  pub send : Dispatcher (Correlator × W)
  send n (c, w) =
      let (now, w') = clock w in
      let (c', reached) = record_notification c now n in
      let (e, w'') = next n w' in if reached then (e, (c', w'')) else (none, (c', w'))
