-- ===== src/Alert/Cached.antt =====
-- internal/alert/cache_dispatcher.go, over any `Hit` and `Record`; Alert.Cache has those of the source.
use portwatch.Base.{Text, Bool, if◌then◌else◌, Option, none, some}
use portwatch.Alert.Notification.{Notification, Error, Dispatcher, wrap}
use portwatch.Alert.Key.{notification_key}

-- Both may read the clock and drop what has expired.
pub record Cache (C : Type 0) : Type 0 where
  pub hit : Text → C → Bool × C
  pub record_key : Text → C → C

module _ {C W : Type 0} (cache : Cache C) (next : Dispatcher W) where
  abbrev pub settle : Text → Option Error → C → C
  settle key none c = cache.record_key key c
  settle key (some e) c = c

  abbrev pub forward : Notification → C → W → Option Error × (C × W)
  forward n c w = let (e, w') = next n w in (e, (settle (notification_key n) e c, w'))

  -- `(*cacheDispatcher).Send`, whose `cacheKey` is the key of the port and the state.
  unfoldable pub send : Dispatcher (C × W)
  send n (c, w) =
      let (found, c') = cache.hit (notification_key n) c in
      if found then (none, (c', w)) else forward n c' w

-- `NewCacheDispatcher`, with the cache that it is given.
new_cache_dispatcher :
    {C W : Type 0} → Cache C → Option C → Option (Dispatcher W) → Option (Dispatcher (C × W) × C)
new_cache_dispatcher cache c next = wrap (send cache) next c
