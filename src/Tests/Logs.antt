-- ===== src/Tests/Logs.antt =====
-- The logs of notifications, and the batches.
use portwatch.Base.{
  ℕ, ◌≡◌, ◌+◌, ◌++◌, length, pos, ◌<ℤ◌, ◌-ℤ◌, leb_ℤ, time_sub, List, [], ◌∷◌, All, true, false, not,
  ◌⊎◌, text, none, some, if◌then◌else◌,
}
use portwatch.Alert.Notification.{Notification, Dispatcher, Clock, failed, not_replayed, send_all}
use portwatch.Alert.Replay.{Replayer, ReplayEntry, record_notification, replay, send}
use portwatch.Alert.Replay.Laws.{replay_lem}
use portwatch.Alert.Batch.{BatchPolicy, new_batcher, adding, ticked, ctx_done, Event, step}
use portwatch.Alert.Batch.Laws as Batched
use portwatch.Alert.Batch.Laws.{join, Fits, added, ends, run-new_batcher}

abbrev notice : ℕ → Notification
notice port = record { port = pos port; state = text "closed"; timestamp = pos 0; message = [] }

abbrev pairs : BatchPolicy
pairs = record { max_size = pos 2; flush_interval = pos 1 }

-- The last one comes after the end of the context.
abbrev three_and_end : List Event
three_and_end =
    adding (notice 1)
    ∷ ticked
    ∷ adding (notice 2)
    ∷ adding (notice 3)
    ∷ ctx_done
    ∷ adding (notice 4)
    ∷ []

run-new_batcher_example :
    let b = new_batcher pairs in
    let (b', waits, batches) = Batched.run b true three_and_end in
    let (b'', _, last) = step b' waits ctx_done in
    (join batches ++ b'.buf ≡ added three_and_end)
    × All (Fits b.policy) batches
    × (pos (length b'.buf) <ℤ b.policy.max_size)
    × (waits ≡ not (ends three_and_end))
    × ((waits ≡ false) ⊎ ((join (batches ++ last) ≡ added three_and_end) × (b''.buf ≡ [])))
run-new_batcher_example = run-new_batcher pairs three_and_end

abbrev stored : ℕ → ℕ → ReplayEntry
stored port at = record { notification = notice port; stored_at = pos at }

abbrev stored_thrice : Replayer
stored_thrice = record {
  policy = record { max_events = pos 3; max_age = pos 10 };
  buf = stored 1 0 ∷ stored 2 5 ∷ stored 3 6 ∷ [];
}

abbrev reading : Clock ℕ
reading now = (pos now, now + 1)

-- Refuses what is about port 2.
abbrev picky : Dispatcher ℕ
picky n now = (if leb_ℤ n.port (pos 2) then some (failed 7) else none, now)

-- Replayed at 12 through the dispatcher of the same replayer.
replay_lem_example :
    replay reading (send reading picky) (stored_thrice, 12)
    ≡ (some (not_replayed 1), (record stored_thrice { buf = stored 2 5 ∷ [] }, 15))
unfolding send_all send record_notification time_sub ◌-ℤ◌
replay_lem_example = replay_lem reading (send reading picky) stored_thrice 12
