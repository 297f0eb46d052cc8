-- ===== src/Tests/Gates.antt =====
-- The gates: keys, cooldowns and sliding windows.
use portwatch.Alert.Dedup.{new_deduplicator}
use portwatch.Alert.Key.{throttle_key}
use portwatch.Alert.Notification.{Notification, Dispatcher, failed, burst_limit}
use portwatch.Alert.Gates.{Timed, relay}
use portwatch.Alert.Gates.Stacked.{send_timed, send_timed-relay}
use portwatch.Base.{
  ℕ, zero, suc, format_int, text_beq, time_sub, ◌-ℤ◌, ◌≡◌, ℤ, pos, ◌≤ℤ◌, List, [], ◌∷◌, Text, text,
  Option, none, some, length, arith,
}
use portwatch.Alert.Cooldown.{Call, ask, clear, granted, thin, asked, Spaced}
use portwatch.Alert.Limiter.{new_limiter}
use portwatch.Alert.Limiter.Laws.{limiter_gate, granted-new_limiter}
use portwatch.Alert.Sliding
use portwatch.Alert.Sliding.{slide}
use portwatch.Alert.Sliding.Bound.{within}
use portwatch.Alert.Throttle.{new_throttler}
use portwatch.Alert.Throttle.Laws.{throttle_gate, granted-new_throttler}

abbrev web : Text
web = text "8080:closed"

abbrev db : Text
db = text "5432:closed"

-- Asked for at 0, 5, 10 and, after a reset, 11, with a cooldown of 10.
abbrev calls : List Call
calls =
    ask (pos 0) web
    ∷ ask (pos 5) web
    ∷ ask (pos 7) db
    ∷ ask (pos 10) web
    ∷ clear web
    ∷ ask (pos 11) web
    ∷ []

abbrev passed : List (Option ℤ)
passed = some (pos 0) ∷ some (pos 10) ∷ none ∷ some (pos 11) ∷ []

granted-new_limiter_example :
    let times = granted limiter_gate (new_limiter (record { cooldown = pos 10 })) web calls in
    (times ≡ thin (pos 10) none (asked web calls)) × Spaced (pos 10) none times
granted-new_limiter_example =
    granted-new_limiter (record { cooldown = pos 10 }) web calls (omega arith)

abbrev bursts : List (ℤ × Text)
bursts = (pos 1, web) ∷ (pos 2, web) ∷ (pos 3, db) ∷ (pos 4, web) ∷ (pos 12, web) ∷ []

granted-new_throttler_example :
    let times =
      Sliding.granted throttle_gate
        (new_throttler (record { max_burst = pos 2; burst_window = pos 10 }))
        web
        bursts in
    (times ≡ slide (pos 10) (pos 2) [] (Sliding.asked web bursts))
    × (pos (length (within (pos 10) (pos 2) times)) ≤ℤ pos 2)
granted-new_throttler_example =
    granted-new_throttler (record { max_burst = pos 2; burst_window = pos 10 }) web (pos 0) (pos 2)
      bursts (omega arith) (omega arith)

abbrev about : ℕ → Notification
about port = record { port = pos port; state = text "closed"; timestamp = pos 0; message = [] }

-- Fails on the first call only.
abbrev flaky : Dispatcher ℕ
flaky n zero = (some (failed 7), 1)
flaky n w = (none, suc w)

-- The first fails and its repeat at 4 is dropped. The one at 30 would find the burst used up, but by
-- the second reading the first send is out of the window; the one at 47 does find it used up.
abbrev timed : List Timed
timed =
    (pos 0, (pos 1, about 80))
    ∷ (pos 4, (pos 4, about 80))
    ∷ (pos 5, (pos 6, about 22))
    ∷ (pos 12, (pos 15, about 80))
    ∷ (pos 30, (pos 46, about 80))
    ∷ (pos 47, (pos 48, about 80))
    ∷ []

send_timed-relay_example :
    send_timed flaky timed (
      new_deduplicator (record { window = pos 10 }),
      (new_throttler (record { max_burst = pos 2; burst_window = pos 40 }), 0),
    )
    ≡ (
      some (failed 7)
          ∷ none
          ∷ none
          ∷ none
          ∷ none
          ∷ some (burst_limit (pos 80) (text "closed"))
          ∷ [],
      4,
    )
unfolding new_deduplicator new_throttler relay throttle_key format_int text_beq time_sub ◌-ℤ◌
send_timed-relay_example =
    send_timed-relay flaky (record { window = pos 10 })
      (record { max_burst = pos 2; burst_window = pos 40 }) (pos 0) timed 0 (omega arith)
