-- ===== src/Tests/Trackers.antt =====
-- What is kept for each key, the daily windows, and the polls.
use portwatch.Base.{
  get_or, length, ◌-◌, ◌/◌, text_beq, false, text_eq, ◌*◌, ◌^◌, ℕ, zero, suc, ◌+◌, ◌≡◌, ◌↔◌, inl,
  inr, ℤ, pos, List, [], ◌∷◌, Text, text, true, Option, none, some,
}
use portwatch.Alert.Notification.{Notification, Error, failed, Dispatcher, Clock, send_all}
use portwatch.Alert.Correlate.{CorrelatePolicy, new_correlator}
use portwatch.Alert.Correlate.Laws.{correlated, windows, times_for, correlated-new_correlator}
use portwatch.Alert.Escalation.{EscalationPolicy, new_escalator, send, count}
use portwatch.Alert.Escalation.Laws.{closed_key, tally, count-send_all}
use portwatch.Alert.Backoff.{BackoffPolicy, new_backoff_limiter}
use portwatch.Alert.Backoff.Laws.{Call, allowed, paced, allowed-new_backoff_limiter}
use portwatch.Alert.PerKey.{inputs_for}
use portwatch.Alert.Observe.{new_observer, snapshot, sort_float64s}
use portwatch.Alert.Observe.Sorting.{IsRising, occurrences}
use portwatch.Alert.Observe.Counting.{
  Outcome, observe_all, drops, failures, latencies, snapshot-observe_all,
}
use portwatch.Monitor.{state_open, state_closed, new_tracker}
use portwatch.Monitor.Changes.{Polled, reported, reported-new_tracker}
use portwatch.Poller
use portwatch.Poller.{Target, launch, poll_all}
use portwatch.Poller.Order.{Received, each, poll_all_lem}

abbrev notice : ℕ → Text → Notification
notice port state = record { port = pos port; state = state; timestamp = pos 0; message = [] }

abbrev web_down : Notification
web_down = notice 80 (text "closed")

abbrev db_down : Notification
db_down = notice 5432 (text "closed")

abbrev calls : List (ℤ × Notification)
calls = (pos 0, web_down) ∷ (pos 1, db_down) ∷ (pos 2, web_down) ∷ (pos 20, web_down) ∷ []

abbrev two_in_ten : CorrelatePolicy
two_in_ten = record { window_duration = pos 10; min_events = pos 2 }

correlated-new_correlator_example :
    correlated (text "80:closed") (new_correlator two_in_ten) calls
    ≡ windows two_in_ten none (times_for (text "80:closed") calls)
correlated-new_correlator_example = correlated-new_correlator two_in_ten (text "80:closed") calls

abbrev twice : EscalationPolicy
twice = record { threshold = pos 2; min_duration = pos 0 }

abbrev ticks : Clock ℕ
ticks w = (pos w, suc w)

-- Refuses when the world is at 1.
abbrev refuses : Dispatcher ℕ
refuses n (suc zero) = (some (failed 1), 2)
refuses n w = (none, suc w)

-- Down, up again, down again.
abbrev flapping : List Notification
flapping = web_down ∷ notice 80 (text "open") ∷ web_down ∷ []

count-send_all_example :
    let (errs, (e', w')) =
      send_all (send ticks refuses refuses) flapping (new_escalator twice, 0) in
    count e' (closed_key (pos 80))
    ≡ count (new_escalator twice) (closed_key (pos 80)) + tally (pos 80) flapping errs
count-send_all_example =
    count-send_all ticks refuses refuses (pos 80) flapping (new_escalator twice) 0

abbrev polls : List Polled
polls =
    record { host = text "a"; port = pos 1; found = state_open }
    ∷ record { host = text "b"; port = pos 1; found = state_closed }
    ∷ record { host = text "a"; port = pos 1; found = state_closed }
    ∷ []

reported-new_tracker_example :
    reported (text "a") (pos 1) (new_tracker (pos 1)) polls ≡ (state_open, state_closed) ∷ []
unfolding text_beq
reported-new_tracker_example = reported-new_tracker (pos 1) (text "a") (pos 1) polls

abbrev two_targets : List (Target × Option Error)
two_targets =
    (record { host = text "a"; port = pos 1 }, none)
    ∷ (record { host = text "b"; port = pos 2 }, some (failed 1))
    ∷ []

-- The second poll ends first.
abbrev swapped : List (ℕ × Poller.Result Error)
swapped =
    (
      1,
      record {
        host = text "b";
        port = pos 2;
        state = Poller.state_closed;
        failure = some (failed 1);
      },
    )
    ∷ (0, record { host = text "a"; port = pos 1; state = Poller.state_open; failure = none })
    ∷ []

swapped_same :
    (x : ℕ × Poller.Result Error) → Received swapped x ↔ Received (launch 0 two_targets) x
unfolding launch Poller.poll
swapped_same x = (
  λ m. elim m [
    | inl first ↦ inr (inl first)
    | inr rest ↦ elim rest [ inl second ↦ inl second | inr never ↦ absurd never ]
  ],
  λ m. elim m [
    | inl first ↦ inr (inl first)
    | inr rest ↦ elim rest [ inl second ↦ inl second | inr never ↦ absurd never ]
  ],
)

poll_all_lem_example : poll_all two_targets swapped ≡ each two_targets
poll_all_lem_example = poll_all_lem two_targets swapped swapped_same

abbrev doubling : BackoffPolicy
doubling = record { base_interval = pos 3; max_interval = pos 10 }

abbrev power : ℕ → ℤ
power k = pos (3 * 2 ^ k)

abbrev tries : List Call
tries =
    (text "a", some (pos 0))
    ∷ (text "b", some (pos 1))
    ∷ (text "a", some (pos 2))
    ∷ (text "a", some (pos 3))
    ∷ (text "a", none)
    ∷ (text "a", some (pos 4))
    ∷ []

allowed-new_backoff_limiter_example :
    allowed power (text "a") (new_backoff_limiter doubling) tries
    ≡ paced power doubling none (inputs_for (text "a") tries)
allowed-new_backoff_limiter_example = allowed-new_backoff_limiter power doubling (text "a") tries

abbrev outcomes : List Outcome
outcomes =
    record { failure = none; latency = pos 9; was_dropped = false }
    ∷ record { failure = some (failed 1); latency = pos 4; was_dropped = false }
    ∷ record { failure = none; latency = pos 1; was_dropped = true }
    ∷ record { failure = none; latency = pos 4; was_dropped = false }
    ∷ []

snapshot-observe_all_example :
    let s = snapshot (observe_all new_observer outcomes) in
    let sorted = sort_float64s (latencies outcomes) in
    (s.total ≡ 4)
    × (s.dropped ≡ drops outcomes)
    × (s.errors ≡ failures outcomes)
    × (s.latency_p50_ms ≡ get_or sorted ((length sorted - 1) / 2) (pos 0))
    × (s.latency_p99_ms ≡ get_or sorted ((length sorted - 1) * 99 / 100) (pos 0))
    × (occurrences (pos 4) sorted ≡ occurrences (pos 4) (latencies outcomes))
    × IsRising sorted
snapshot-observe_all_example = snapshot-observe_all outcomes (pos 4)
