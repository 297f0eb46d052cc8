-- ===== src/Alert/Cache.antt =====
-- internal/alert/cache.go, whose text has lost characters. In `Hit` the test can only be whether the
-- clock is after `expiresAt`, the one field of an entry. `Record` has lost the range over the entries
-- that declares the `k` and the `e` of its loop, and `Reset` an unlock. What `NewResponseCache` gives a
-- TTL that is not positive is lost, and an argument here. The readings of the clock are arguments.
pub mod Memory
pub mod Laws
use portwatch.Base.{
  ℤ, pos, leb_ℤ, ltb_ℤ, ◌+ℤ◌, List, [], ◌∷◌, length, Text, text_eq, Map, lookup, insert, delete,
  Bool, true, false, if◌then◌else◌, Option, none, some,
}
use portwatch.Alert.BoundedLog.{positive_or}

pub record CachePolicy : Type 0 where
  pub ttl : ℤ
  pub capacity : ℤ

abbrev default_cache_policy : CachePolicy
default_cache_policy = record { ttl = pos 30_000_000_000; capacity = pos 256 }

pub record CacheEntry : Type 0 where
  pub expires_at : ℤ

pub record ResponseCache : Type 0 where
  pub policy : CachePolicy
  pub entries : Map Text CacheEntry

unfoldable pub new_response_cache : ℤ → CachePolicy → ResponseCache
new_response_cache lost_ttl p = record {
  policy = record {
    ttl = positive_or p.ttl lost_ttl;
    capacity = positive_or p.capacity default_cache_policy.capacity;
  };
  entries = [];
}

-- `now.After(e.expiresAt)`
abbrev pub is_expired : ℤ → CacheEntry → Bool
is_expired now e = ltb_ℤ e.expires_at now

-- `Hit`: an expired entry is deleted.
unfoldable pub hit : ResponseCache → ℤ → Text → ResponseCache × Bool
hit c now key =
    let gone : ResponseCache × Bool = (record c { entries = delete key c.entries }, false) in
    elim (lookup key c.entries) [
      | none ↦ (c, false)
      | some e ↦ if is_expired now e then gone else (c, true)
    ]

-- The loop of `Record`, which ranges over the keys in an order that Go leaves open, and ends at the
-- first entry that it deletes.
unfoldable pub evict_one : ℤ → List Text → Map Text CacheEntry → Map Text CacheEntry
evict_one now [] m = m
evict_one now (k ∷ keys) m =
    let rest = evict_one now keys m in
    elim (lookup k m) [ none ↦ rest | some e ↦ if is_expired now e then delete k m else rest ]

-- What `Record` keeps before it adds: at the capacity one expired entry goes, if there is one.
unfoldable pub make_room :
    (Map Text CacheEntry → List Text) → ResponseCache → ℤ → Map Text CacheEntry
make_room order c now =
    if leb_ℤ c.policy.capacity (pos (length c.entries))
    then evict_one now (order c.entries) c.entries
    else c.entries

-- `Record`, with the reading of the clock for the eviction and then the one for the new entry.
unfoldable pub record_key :
    (Map Text CacheEntry → List Text) → ResponseCache → ℤ → ℤ → Text → ResponseCache
record_key order c evicted_at now key =
    let e : CacheEntry = record { expires_at = now +ℤ c.policy.ttl } in
    record c { entries = insert key e (make_room order c evicted_at) }

-- `Reset`
unfoldable pub reset : ResponseCache → ResponseCache
reset c = record c { entries = [] }
