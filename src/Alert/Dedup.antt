-- ===== src/Alert/Dedup.antt =====
-- internal/alert/dedup.go and dedup_dispatcher.go. `now` is the reading of the clock.
pub mod Laws
use portwatch.Base.{
  ℤ, pos, ltb_ℤ, time_sub, Text, text_eq, Map, lookup, insert, delete, [], Bool, true, false,
  if◌then◌else◌, Option, none, some,
}
use portwatch.Alert.Notification.{Notification, Error, Clock, Dispatcher, wrap}
use portwatch.Alert.Key.{notification_key}

pub record DedupPolicy : Type 0 where
  pub window : ℤ

abbrev default_dedup_policy : DedupPolicy
default_dedup_policy = record { window = pos 300_000_000_000 }

pub record Deduplicator : Type 0 where
  pub last : Map Text ℤ
  pub policy : DedupPolicy

unfoldable pub new_deduplicator : DedupPolicy → Deduplicator
new_deduplicator p = record { last = []; policy = p }

pub allow : Deduplicator → ℤ → Text → Deduplicator × Bool
allow d now key =
    let fire : Deduplicator × Bool = (record d { last = insert key now d.last }, true) in
    elim (lookup key d.last) [
      | some t ↦ if ltb_ℤ (time_sub now t) d.policy.window then (d, false) else fire
      | none ↦ fire
    ]

pub reset : Deduplicator → Text → Deduplicator
reset d key = record d { last = delete key d.last }

-- `(*DedupDispatcher).Send`: what the deduplicator holds back is dropped without an error.
module _ {W : Type 0} (clock : Clock W) (next : Dispatcher W) where
  unfoldable pub send : Dispatcher (Deduplicator × W)
  send n (d, w) =
      let (now, w') = clock w in
      let (d', fire) = allow d now (notification_key n) in
      if fire then (let (e, w'') = next n w' in (e, (d', w''))) else (none, (d', w'))

-- `NewDedupDispatcher`
new_dedup_dispatcher :
    {W : Type 0}
    → Clock W
    → Option (Dispatcher W)
    → Option Deduplicator
    → Option (Dispatcher (Deduplicator × W) × Deduplicator)
new_dedup_dispatcher clock = wrap (send clock)
