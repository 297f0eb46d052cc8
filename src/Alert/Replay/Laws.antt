-- ===== src/Alert/Replay/Laws.antt =====
-- What `Replay` sends again, and what it keeps.
use portwatch.Base.{
  ◌≡◌, refl, ℤ, ltb_ℤ, time_sub, List, [], ◌∷◌, Option, none, some, keep, Bool, not, Bool-cases,
  inl, inr,
}
use portwatch.Alert.Notification.{Notification, Error, Dispatcher, Clock, send_all}
use portwatch.Alert.Replay.{Replayer, ReplayEntry, keep_failed, replay_loop, replay, verdict}

-- Not older than the maximal age.
abbrev is_young : ℤ → ℤ → ReplayEntry → Bool
is_young max_age now e = not (ltb_ℤ max_age (time_sub now e.stored_at))

abbrev pub notifications : List ReplayEntry → List Notification
notifications [] = []
notifications (e ∷ es) = e.notification ∷ notifications es

-- The entries whose send returned an error, in order.
abbrev failed_of : List ReplayEntry → List (Option Error) → List ReplayEntry
failed_of [] errs = []
failed_of (e ∷ es) [] = []
failed_of (e ∷ es) (none ∷ errs) = failed_of es errs
failed_of (e ∷ es) (some x ∷ errs) = e ∷ failed_of es errs

failed_of-cons :
    (e : ReplayEntry) (x : Option Error) (es : List ReplayEntry) (errs : List (Option Error))
    → failed_of (e ∷ es) (x ∷ errs) ≡ keep_failed e x (failed_of es errs)
failed_of-cons e none es errs = refl
failed_of-cons e (some x) es errs = refl

replay_loop-young :
    {W : Type 0}
    → (dst : Dispatcher W) (max_age now : ℤ) (es : List ReplayEntry) (w : W)
    → let young = keep (is_young max_age now) es in
      let sent = send_all dst (notifications young) w in
      replay_loop max_age now dst es w ≡ (failed_of young sent.0, sent.1)
unfolding replay_loop send_all
replay_loop-young dst max_age now [] w = refl
replay_loop-young dst max_age now (e ∷ es) w =
    elim (Bool-cases (ltb_ℤ max_age (time_sub now e.stored_at))) [
      | inl old ↦ rw old (replay_loop-young dst max_age now es w)
      | inr young ↦
          rw (young, replay_loop-young dst max_age now es (dst e.notification w).1, failed_of-cons)
    ]

-- One call of `Replay`, whose sends may change the replayer: with the clock's reading `now`, the
-- entries that the buffer held at the call and that are not older than the maximal age are sent,
-- each once, oldest first, and no other. Afterwards the buffer holds those of them whose send
-- failed, in the same order and with their old time, and nothing of what was recorded meanwhile;
-- the result is nil exactly when no send failed, and else an error that counts the failed ones.
pub replay_lem :
    {W : Type 0}
    → (clock : Clock W) (dst : Dispatcher (Replayer × W)) (r : Replayer) (w : W)
    → let young = keep (is_young r.policy.max_age (clock w).0) r.buf in
      let sent = send_all dst (notifications young) (r, (clock w).1) in
      let left = failed_of young sent.0 in
      replay clock dst (r, w) ≡ (verdict left, (record sent.1.0 { buf = left }, sent.1.1))
unfolding replay
replay_lem clock dst r w =
    rw (replay_loop-young dst r.policy.max_age (clock w).0 r.buf (r, (clock w).1))
