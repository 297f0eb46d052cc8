-- ===== src/Alert/Suppress/Laws.antt =====
-- When alerts are suppressed.
use portwatch.Base.{ℕ, ◌+◌, ◌-◌, ◌%◌, ◌<◌, ◌≡◌, ◌⊎◌, ◌↔◌, List, [], ◌∷◌, any, true, All, arith}
use portwatch.Alert.Suppress.{
  ClockTime, TimeWindow, Suppressor, seconds_of_day, falls_in, is_suppressed,
}

-- What package time reads from any time.
pub record IsTime (t : ClockTime) : Type 0 where
  pub hour : t.hour < 24
  pub minute : t.minute < 60
  pub second : t.second < 60

abbrev IsWindow : TimeWindow → Type 0
IsWindow w = IsTime w.start × IsTime w.end_

-- The seconds that a clock needs from the one time of day to the next occurrence of the other.
abbrev elapsed : ClockTime → ClockTime → ℕ
elapsed t u = (seconds_of_day u + 86_400 - seconds_of_day t) % 86_400

abbrev IsCovered : ClockTime → List TimeWindow → Type 0
IsCovered now [] = ⊥
IsCovered now (w ∷ ws) = (elapsed w.start now < elapsed w.start w.end_) ⊎ IsCovered now ws

seconds-lt : (t : ClockTime) → IsTime t → seconds_of_day t < 86_400
seconds-lt t i = ground (arith, i.hour, i.minute, i.second)

falls_in_iff :
    (now : ClockTime) (w : TimeWindow)
    → IsTime now
    → IsWindow w
    → (falls_in (seconds_of_day now) w ≡ true) ↔ (elapsed w.start now < elapsed w.start w.end_)
unfolding falls_in
falls_in_iff now w i (s, e) =
    ground (arith, seconds-lt now i, seconds-lt w.start s, seconds-lt w.end_ e)

any_iff :
    (now : ClockTime) (ws : List TimeWindow)
    → IsTime now
    → All IsWindow ws
    → (any (falls_in (seconds_of_day now)) ws ≡ true) ↔ IsCovered now ws
any_iff now [] i a = ground arith
any_iff now (w ∷ ws) i a = ground (arith, falls_in_iff now w i a.0, any_iff now ws i a.1)

-- Alerts are suppressed exactly if, for one of the windows, a clock that starts at its start reaches
-- the present time of day sooner than the window's end, whether or not midnight lies between.
is_suppressed_iff :
    (s : Suppressor) (now : ClockTime)
    → IsTime now
    → All IsWindow s.policy.windows
    → (is_suppressed s now ≡ true) ↔ IsCovered now s.policy.windows
unfolding is_suppressed
is_suppressed_iff s now i a = any_iff now s.policy.windows i a
