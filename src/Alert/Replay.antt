-- ===== src/Alert/Replay.antt =====
-- internal/alert/replay.go and replay_dispatcher.go. Other calls may come between the two locked
-- sections of `Replay`.
pub mod Laws
use portwatch.Base.{
  ℕ, ℤ, pos, pos_part, ltb_ℤ, time_sub, List, [], ◌∷◌, push_bounded, Option, none, some, length,
  if◌then◌else◌, Bool, true, false,
}
use portwatch.Alert.Notification.{Notification, Error, not_replayed, Dispatcher, Clock, wrap}
use portwatch.Alert.BoundedLog.{positive_or}

pub record ReplayPolicy : Type 0 where
  pub max_events : ℤ
  pub max_age : ℤ

abbrev default_replay_policy : ReplayPolicy
default_replay_policy = record { max_events = pos 64; max_age = pos 600_000_000_000 }

pub record ReplayEntry : Type 0 where
  pub notification : Notification
  pub stored_at : ℤ

pub record Replayer : Type 0 where
  pub policy : ReplayPolicy
  pub buf : List ReplayEntry

new_replayer : ReplayPolicy → Replayer
new_replayer p = record {
  policy = record {
    max_events = positive_or p.max_events default_replay_policy.max_events;
    max_age = positive_or p.max_age default_replay_policy.max_age;
  };
  buf = [];
}

-- `Record`
unfoldable pub record_notification : Replayer → Notification → ℤ → Replayer
record_notification r n now = record r {
  buf =
      push_bounded (pos_part r.policy.max_events) r.buf
        (record { notification = n; stored_at = now });
}

abbrev pub keep_failed : ReplayEntry → Option Error → List ReplayEntry → List ReplayEntry
keep_failed e none failed = failed
keep_failed e (some err) failed = e ∷ failed

-- The loop of `Replay`, with the entries that failed.
pub replay_loop : {W : Type 0} → ℤ → ℤ → Dispatcher W → List ReplayEntry → W → List ReplayEntry × W
replay_loop max_age now dst [] w = ([], w)
replay_loop max_age now dst (e ∷ es) w =
    let skip = replay_loop max_age now dst es w in
    let (err, w') = dst e.notification w in
    let (failed, w'') = replay_loop max_age now dst es w' in
    if ltb_ℤ max_age (time_sub now e.stored_at) then skip else (keep_failed e err failed, w'')

abbrev pub verdict : List ReplayEntry → Option Error
verdict [] = none
verdict (e ∷ es) = some (not_replayed (length (e ∷ es)))

module _ {W : Type 0} (clock : Clock W) where
  -- `Replay` sends without the mutex, so a send may change the replayer: the target may be this
  -- replayer's own dispatcher, and what other calls record meanwhile counts as done by the sends.
  pub replay : Dispatcher (Replayer × W) → Replayer × W → Option Error × (Replayer × W)
  unfolding replay_loop
  replay dst (r, w) =
      let (now, w') = clock w in
      let (failed, (r', w'')) = replay_loop r.policy.max_age now dst r.buf (r, w') in
      (verdict failed, (record r' { buf = failed }, w''))

  -- `(*ReplayDispatcher).Send`
  unfoldable pub send : Dispatcher W → Dispatcher (Replayer × W)
  send next n (r, w) =
      let (err, w') = next n w in
      let (now, w'') = clock w' in (err, (record_notification r n now, w''))

-- `NewReplayDispatcher`
new_replay_dispatcher :
    {W : Type 0}
    → Clock W
    → Option (Dispatcher W)
    → Option Replayer
    → Option (Dispatcher (Replayer × W) × Replayer)
new_replay_dispatcher clock = wrap (send clock)
