-- ===== src/Alert/Window/Counting.antt =====
-- `Count` and `Keys` of the window counter.
use portwatch.Base.{
  ℕ, ◌+◌, ◌<◌, ◌≡◌, refl, ◌∙◌, ◌↔◌, ℤ, ◌-ℤ◌, List, [], ◌∷◌, ◌++◌, Text, text_eq, text_beq_iff, ◌==◌,
  Bool, true, false, any, arith, lookup, lookup_or, Distinct, insert-Distinct, delete-Distinct,
  length, keep, Map, none,
}
use portwatch.Alert.Sliding.{after, recent}
use portwatch.Alert.Window.{
  WindowCounter, count_after, count, keys_after, keys, new_window_counter, WindowPolicy, allow,
  reset,
}

count_after-keep :
    (cutoff : ℤ) (times : List ℤ) (n : ℕ)
    → count_after cutoff times n ≡ n + length (keep (after cutoff) times)
unfolding count_after
count_after-keep cutoff [] n = omega arith
count_after-keep cutoff (t ∷ times) n =
    ground (arith, count_after-keep cutoff times (n + 1), count_after-keep cutoff times n)

count-recent :
    (c : WindowCounter) (now : ℤ) (k : Text)
    → count c now k ≡ length (recent c.policy.size now (lookup_or k [] c.timestamps))
unfolding count
count-recent c now k =
    count_after-keep (now -ℤ c.policy.size) (lookup_or k [] c.timestamps) 0 ∙ omega arith

any-keep : (p : ℤ → Bool) (times : List ℤ) → (any p times ≡ true) ↔ (0 < length (keep p times))
any-keep p [] = ground arith
any-keep p (t ∷ times) = ground (arith, any-keep p times)

-- A key stands in the list.
abbrev pub listed : Text → List Text → Bool
listed k = any (λ j. j == k)

listed_absent :
    (cutoff : ℤ) (k : Text) (m : Map Text (List ℤ))
    → lookup k m ≡ none
    → listed k (keys_after cutoff m) ≡ false
unfolding keys_after lookup
listed_absent cutoff k [] h = refl
listed_absent cutoff k ((j, times) ∷ m) h = ground (arith, listed_absent cutoff k m)

listed-keys_after :
    (cutoff : ℤ) (k : Text) (m : Map Text (List ℤ))
    → Distinct m
    → listed k (keys_after cutoff m) ≡ any (after cutoff) (lookup_or k [] m)
unfolding keys_after lookup
listed-keys_after cutoff k [] h = refl
listed-keys_after cutoff k ((j, times) ∷ m) (fresh, h) =
    ground (arith, text_beq_iff j k, listed-keys_after cutoff k m h, listed_absent cutoff k m)

keys_iff :
    (c : WindowCounter) (now : ℤ) (k : Text)
    → Distinct c.timestamps
    → (listed k (keys c now) ≡ true) ↔ (0 < count c now k)
unfolding keys
keys_iff c now k d = ground (
  arith,
  count-recent c now k,
  listed-keys_after (now -ℤ c.policy.size) k c.timestamps d,
  any-keep (after (now -ℤ c.policy.size)) (lookup_or k [] c.timestamps),
)

-- The calls that change a counter.
pub data Call : Type 0 where
  allows : ℤ → Text → Call
  resets : Text → Call

pub run : WindowCounter → List Call → WindowCounter
run c [] = c
run c (allows now k ∷ calls) = run (allow c now k).0 calls
run c (resets k ∷ calls) = run (reset c k) calls

allow-Distinct :
    (c : WindowCounter) (now : ℤ) (k : Text)
    → Distinct c.timestamps
    → Distinct (allow c now k).0.timestamps
unfolding allow
allow-Distinct c now k d =
    let pruned = recent c.policy.size now (lookup_or k [] c.timestamps) in
    ground (
      arith,
      insert-Distinct k pruned c.timestamps d,
      insert-Distinct k (pruned ++ now ∷ []) c.timestamps d,
    )

run-Distinct :
    (c : WindowCounter) (calls : List Call)
    → Distinct c.timestamps
    → Distinct (run c calls).timestamps
unfolding run reset
run-Distinct c [] d = d
run-Distinct c (allows now k ∷ calls) d =
    run-Distinct (allow c now k).0 calls (allow-Distinct c now k d)
run-Distinct c (resets k ∷ calls) d =
    run-Distinct (reset c k) calls (delete-Distinct k c.timestamps d)

-- After any calls of `Allow` and `Reset`, `Keys` lists exactly the keys with a positive `Count`.
keys-count :
    (p : WindowPolicy) (calls : List Call) (now : ℤ) (k : Text)
    → let c = run (new_window_counter p) calls in
      (listed k (keys c now) ≡ true) ↔ (0 < count c now k)
unfolding new_window_counter
keys-count p calls now k =
    keys_iff (run (new_window_counter p) calls) now k (run-Distinct (new_window_counter p) calls tt)
