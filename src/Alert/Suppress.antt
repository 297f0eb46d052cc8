-- ===== src/Alert/Suppress.antt =====
-- internal/alert/suppress.go and suppress_dispatcher.go. A time enters by the hour, the minute and the
-- second that package time reads from it.
pub mod Laws
use portwatch.Base.{
  ℕ, ◌+◌, ◌*◌, ltb, leb, List, [], ◌∷◌, any, Bool, true, false, ◌&&◌, ◌||◌, if◌then◌else◌, Option,
  none,
}
use portwatch.Alert.Notification.{Notification, Error, Dispatcher, wrap}

pub record ClockTime : Type 0 where
  pub hour : ℕ
  pub minute : ℕ
  pub second : ℕ

pub record TimeWindow : Type 0 where
  pub start : ClockTime
  pub end_ : ClockTime

pub record SuppressPolicy : Type 0 where
  pub windows : List TimeWindow

abbrev default_suppress_policy : SuppressPolicy
default_suppress_policy = record { windows = [] }

pub record Suppressor : Type 0 where
  pub policy : SuppressPolicy

abbrev pub seconds_of_day : ClockTime → ℕ
seconds_of_day t = t.hour * 3600 + t.minute * 60 + t.second

-- The test of one window.
pub falls_in : ℕ → TimeWindow → Bool
falls_in now w =
    let start = seconds_of_day w.start in
    let end_ = seconds_of_day w.end_ in
    if leb start end_ then leb start now && ltb now end_ else leb start now || ltb now end_

pub is_suppressed : Suppressor → ClockTime → Bool
is_suppressed s now = any (falls_in (seconds_of_day now)) s.policy.windows

update_policy : Suppressor → SuppressPolicy → Suppressor
update_policy s p = record s { policy = p }

module _ {W : Type 0} (clock : W → ClockTime × W) (inner : Dispatcher W) where
  pub send : Dispatcher (Suppressor × W)
  send n (s, w) =
      let (now, w') = clock w in
      let (e, w'') = inner n w' in if is_suppressed s now then (none, (s, w')) else (e, (s, w''))

-- `NewSuppressDispatcher`
new_suppress_dispatcher :
    {W : Type 0}
    → (W → ClockTime × W)
    → Option (Dispatcher W)
    → Option Suppressor
    → Option (Dispatcher (Suppressor × W) × Suppressor)
new_suppress_dispatcher clock = wrap (send clock)
