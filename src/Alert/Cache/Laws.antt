-- ===== src/Alert/Cache/Laws.antt =====
-- The dispatcher that asks the cache, against a memory that forgets nothing.
use portwatch.Base.{
  stored, ◌≡◌, refl, ℤ, ◌≤ℤ◌, List, [], ◌∷◌, Text, text_eq, Map, lookup, Option, none, some,
  Bool-cases, inl, inr, if◌then◌else◌, arith,
}
use portwatch.Alert.Notification.{Notification, Error, Dispatcher}
use portwatch.Alert.Key.{notification_key}
use portwatch.Alert.Cache.{
  CachePolicy, CacheEntry, ResponseCache, new_response_cache, hit, record_key,
}
use portwatch.Alert.Cached.{Cache, settle, send}
use portwatch.Alert.Cache.Memory.{
  Memory, is_kept, Tracks, Tracks-later, hit-is_kept, hit-Tracks, record_key-Tracks,
}

-- A send, with what the clock shows when `Hit`, the eviction of `Record` and its new entry read it.
pub record Sent : Type 0 where
  pub notification : Notification
  pub asked_at : ℤ
  pub evicted_at : ℤ
  pub stored_at : ℤ

-- The clock does not go back.
abbrev pub Ordered : ℤ → List Sent → Type 0
Ordered now [] = Unit {0}
Ordered now (s ∷ rest) =
    (now ≤ℤ s.asked_at)
    × (s.asked_at ≤ℤ s.evicted_at)
    × (s.evicted_at ≤ℤ s.stored_at)
    × Ordered s.stored_at rest

abbrev pub cache_at : (Map Text CacheEntry → List Text) → Sent → Cache ResponseCache
cache_at order s = record {
  hit = λ key c. let (c', found) = hit c s.asked_at key in (found, c');
  record_key = λ key c. record_key order c s.evicted_at s.stored_at key;
}

module _ {W : Type 0} (next : Dispatcher W) where
  -- The answers of sends through the cache, in order, and the state below it.
  unfoldable pub send_all :
      (Map Text CacheEntry → List Text) → List Sent → ResponseCache → W → List (Option Error) × W
  send_all order [] c w = ([], w)
  send_all order (s ∷ rest) c w =
      let (e, (c', w')) = send (cache_at order s) next s.notification (c, w) in
      let (es, w'') = send_all order rest c' w' in (e ∷ es, w'')

  abbrev noted_if : Option Error → Memory → Text → ℤ → Memory
  noted_if none m k t = stored m k (some t)
  noted_if (some e) m k t = m

  -- The reference: a notification whose key was delivered not longer than the TTL ago is dropped, and
  -- any other goes on.
  unfoldable pub relay : ℤ → List Sent → Memory → W → List (Option Error) × W
  relay ttl [] m w = ([], w)
  relay ttl (s ∷ rest) m w =
      let key = notification_key s.notification in
      let (es, w') = relay ttl rest m w in
      let (e, v) = next s.notification w in
      let (es', v') = relay ttl rest (noted_if e m key s.stored_at) v in
      if is_kept ttl (m key) s.asked_at then (none ∷ es, w') else (e ∷ es', v')

  -- What a send that misses leaves in the cache.
  settle-Tracks :
      (order : Map Text CacheEntry → List Text) (ttl : ℤ) (s : Sent) (c : ResponseCache)
      → (m : Memory) (e : Option Error) → s.asked_at ≤ℤ s.evicted_at
      → s.evicted_at ≤ℤ s.stored_at
      → Tracks ttl s.asked_at c m
      → let key = notification_key s.notification in
        Tracks ttl s.stored_at
          (settle (cache_at order s) next key e c)
          (noted_if e m key s.stored_at)
  settle-Tracks order ttl s c m none h k t =
      record_key-Tracks order ttl s.evicted_at s.stored_at c m (notification_key s.notification) k
        (Tracks-later ttl s.asked_at s.evicted_at c m h t)
  settle-Tracks order ttl s c m (some e) h k t =
      Tracks-later ttl s.asked_at s.stored_at c m (omega (arith, h, k)) t

  send_all-relay :
      (order : Map Text CacheEntry → List Text) (ttl now : ℤ) (sends : List Sent)
      → (c : ResponseCache) (m : Memory) (w : W) → Ordered now sends
      → Tracks ttl now c m
      → send_all order sends c w ≡ relay ttl sends m w
  unfolding send_all relay send
  send_all-relay order ttl now [] c m w o t = refl
  send_all-relay order ttl now (s ∷ rest) c m w (h, k, l, o) t =
      let key = notification_key s.notification in
      let t' = Tracks-later ttl now s.asked_at c m h t in
      let c' = (hit c s.asked_at key).0 in
      let t'' = hit-Tracks ttl s.asked_at c m key t' in
      let (e, v) = next s.notification w in
      elim (Bool-cases (is_kept ttl (m key) s.asked_at)) [
        | inl known ↦
            let again = Tracks-later ttl s.asked_at s.stored_at c' m (omega (arith, k, l)) t'' in
            rw
              (
                hit-is_kept ttl s.asked_at c m key t',
                known,
                send_all-relay order ttl s.stored_at rest c' m w o again,
              )
              refl
        | inr new ↦
            rw
              (
                hit-is_kept ttl s.asked_at c m key t',
                new,
                send_all-relay order ttl s.stored_at rest (settle (cache_at order s) next key e c')
                    (noted_if e m key s.stored_at) v o (settle-Tracks order ttl s c' m e k l t''),
              )
              refl
      ]

  -- Whatever the capacity, and in whatever order `Record` ranges over the entries: while the clock
  -- does not go back, the answers of sends through a new cache, and what they do below it, are those of
  -- a memory that forgets nothing. A notification is dropped, with a nil error, exactly if one of the
  -- same key was sent with success and not more than the TTL has passed since; any other is sent, and
  -- its error is returned. So neither the eviction nor the capacity makes the cache forget a key
  -- before its TTL has passed.
  pub send_all-new_response_cache :
      (order : Map Text CacheEntry → List Text) (lost_ttl : ℤ) (p : CachePolicy) (now : ℤ)
      → (sends : List Sent) (w : W) → Ordered now sends
      → let c = new_response_cache lost_ttl p in
        send_all order sends c w ≡ relay c.policy.ttl sends (λ _. none) w
  unfolding new_response_cache lookup
  send_all-new_response_cache order lost_ttl p now sends w o =
      let c = new_response_cache lost_ttl p in
      send_all-relay order c.policy.ttl now sends c (λ _. none) w o
        (record { policy = refl; agrees = λ k later h. refl })
