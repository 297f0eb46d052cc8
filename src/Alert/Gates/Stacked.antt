-- ===== src/Alert/Gates/Stacked.antt =====
-- A deduplicating dispatcher over a throttling one (internal/alert/dedup_dispatcher.go and
-- throttle_dispatcher.go).
use portwatch.Base.{◌≡◌, refl, ◌∙◌, ℤ, List, [], ◌∷◌, text_eq, lookup, Option, none}
use portwatch.Alert.Notification.{Notification, Error, burst_limit, Clock, Dispatcher}
use portwatch.Alert.Dedup
use portwatch.Alert.Dedup.{Deduplicator, DedupPolicy, new_deduplicator}
use portwatch.Alert.Dedup.Laws.{dedup_gate}
use portwatch.Alert.Throttle
use portwatch.Alert.Throttle.{Throttler, ThrottlePolicy, new_throttler}
use portwatch.Alert.Throttle.Laws.{throttle_gate}
use portwatch.Alert.Gates.{Timed, Ordered, relay, gated, run}
use portwatch.Alert.Gates.Follow.{run-relay_new}

-- A clock that shows this time.
abbrev at : {W : Type 0} → ℤ → Clock W
at now w = (now, w)

abbrev pub refusal : Notification → Error
refusal n = burst_limit n.port n.state

module _ {W : Type 0} (next : Dispatcher W) where
  -- A send during which the clock of the outer one shows the first time, and that of the inner one
  -- the second.
  abbrev pub send_at : ℤ → ℤ → Dispatcher (Deduplicator × (Throttler × W))
  send_at asked passed = Dedup.send (at asked) (Throttle.send (at passed) next)

  -- The answers, in order, and the state below the two.
  unfoldable pub send_timed : List Timed → Deduplicator × (Throttler × W) → List (Option Error) × W
  send_timed [] (d, (t, w)) = ([], w)
  send_timed ((asked, (passed, n)) ∷ sends) s =
      let (e, s') = send_at asked passed n s in let (es, w) = send_timed sends s' in (e ∷ es, w)

  send_at-gated :
      (asked passed : ℤ) (n : Notification) (d : Deduplicator) (t : Throttler) (w : W)
      → send_at asked passed n (d, (t, w))
        ≡ gated dedup_gate throttle_gate refusal next asked passed n (d, (t, w))
  unfolding Dedup.send Throttle.send Throttle.allow
  send_at-gated asked passed n d t w = refl

  send_timed-run :
      (sends : List Timed) (d : Deduplicator) (t : Throttler) (w : W)
      → send_timed sends (d, (t, w)) ≡ run dedup_gate throttle_gate refusal next sends d t w
  unfolding send_timed run
  send_timed-run [] d t w = refl
  send_timed-run ((asked, (passed, n)) ∷ sends) d t w = rw (send_at-gated asked passed n d t w) (
      let (e, (d', (t', w'))) =
        gated dedup_gate throttle_gate refusal next asked passed n (d, (t, w)) in
      rw (send_timed-run sends d' t' w') refl)

  -- A new deduplicator over a new throttler, with sends one after the other, in each of which the
  -- deduplicator reads the clock and then the throttler reads it again, while the clock does not go
  -- back: the answers of any sends, and what they do below, are those of a memory that forgets
  -- nothing. A notification is dropped with a nil error if, by the first readings, less than the dedup
  -- window has passed since the last one of its key that was not dropped; otherwise it is refused with
  -- the error of the throttler if, by the second readings, the burst of the key is used up within the
  -- burst window by those that went on; otherwise it is sent and its result returned. A notification that is refused, or whose send fails, starts the dedup window
  -- like any other: its repeats are dropped with a nil error although none was delivered.
  pub send_timed-relay :
      (p : DedupPolicy) (q : ThrottlePolicy) (start : ℤ) (sends : List Timed) (w : W)
      → Ordered start sends
      → send_timed sends (new_deduplicator p, (new_throttler q, w))
        ≡ relay p.window q.burst_window q.max_burst refusal next (λ _. none) (λ _. []) sends w
  unfolding new_deduplicator new_throttler lookup
  send_timed-relay p q start sends w o =
      send_timed-run sends (new_deduplicator p) (new_throttler q) w
      ∙ run-relay_new dedup_gate throttle_gate refusal next start sends (new_deduplicator p)
          (new_throttler q) w o (λ k. refl) (λ k. refl)
