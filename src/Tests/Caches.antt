-- ===== src/Tests/Caches.antt =====
-- The cache of outcomes.
use portwatch.Base.{
  ℕ, suc, zero, ◌+◌, ◌≡◌, pos, ◌+ℤ◌, List, [], ◌∷◌, map, Map, Text, text, text_beq, format_int,
  none, some, arith,
}
use portwatch.Alert.Notification.{failed, Dispatcher}
use portwatch.Alert.Key.{throttle_key}
use portwatch.Alert.Cache.{CacheEntry, CachePolicy, new_response_cache}
use portwatch.Alert.Cache.Laws.{Sent, send_all, relay, send_all-new_response_cache}

abbrev keys : Map Text CacheEntry → List Text
keys m = map (λ (e : Text × CacheEntry). e.0) m

abbrev sent : ℕ → ℕ → Sent
sent port at = record {
  notification = record { port = pos port; state = text "closed"; timestamp = pos 0; message = [] };
  asked_at = pos at;
  evicted_at = pos at;
  stored_at = pos (at + 1);
}

-- Fails on the first call only.
abbrev flaky : Dispatcher ℕ
flaky n zero = (some (failed 7), 1)
flaky n w = (none, suc w)

abbrev one_for_ten : CachePolicy
one_for_ten = record { ttl = pos 10; capacity = pos 1 }

-- The last one comes after the TTL.
abbrev sends : List Sent
sends = sent 80 0 ∷ sent 80 2 ∷ sent 22 4 ∷ sent 80 6 ∷ sent 22 8 ∷ sent 80 14 ∷ []

send_all-new_response_cache_example :
    send_all flaky keys sends (new_response_cache (pos 1) one_for_ten) 0
    ≡ (some (failed 7) ∷ none ∷ none ∷ none ∷ none ∷ none ∷ [], 4)
unfolding new_response_cache relay throttle_key format_int text_beq ◌+ℤ◌
send_all-new_response_cache_example =
    send_all-new_response_cache flaky keys (pos 1) one_for_ten (pos 0) sends 0 (omega arith)
