-- ===== src/Alert/Throttle/Laws.antt =====
-- The throttler is a sliding gate, for each pair of a port and a state.
use portwatch.Base.{
  ◌≡◌, refl, ap, ℤ, pos, ◌≤ℤ◌, List, [], ◌∷◌, ◌++◌, Text, text_eq, ◌==◌, if◌then◌else◌, arith,
  lookup, lookup_or, lookup-insert, append-nil, length,
}
use portwatch.Alert.Sliding.{
  SlidingGate, has_room, recent, slide, asked, Ascending, granted, granted-eq-slide,
}
use portwatch.Alert.Sliding.Bound.{within, slide-within}
use portwatch.Alert.Throttle.{Throttler, ThrottlePolicy, new_throttler, allow_key}

pub allow_decides :
    (t : Throttler) (now : ℤ) (k : Text)
    → (allow_key t now k).1
      ≡ has_room t.policy.max_burst (recent t.policy.burst_window now (lookup_or k [] t.timestamps))
unfolding allow_key
allow_decides t now k = ground arith

pub held-allow :
    (t : Throttler) (now : ℤ) (k j : Text)
    → lookup_or j [] (allow_key t now k).0.timestamps ≡ (
        if k == j
        then recent t.policy.burst_window now (lookup_or k [] t.timestamps)
          ++ (if (allow_key t now k).1 then now ∷ [] else [])
        else lookup_or j [] t.timestamps)
unfolding allow_key
held-allow t now k j =
    let valid = recent t.policy.burst_window now (lookup_or k [] t.timestamps) in
    ground (
      arith,
      lookup-insert k j valid t.timestamps,
      lookup-insert k j (valid ++ now ∷ []) t.timestamps,
      append-nil valid,
    )

pub policy-allow : (t : Throttler) (now : ℤ) (k : Text) → (allow_key t now k).0.policy ≡ t.policy
unfolding allow_key
policy-allow t now k = ground arith

abbrev pub throttle_gate : SlidingGate Throttler
throttle_gate = record {
  allow = allow_key;
  window = λ t. t.policy.burst_window;
  limit = λ t. t.policy.max_burst;
  held = λ k t. lookup_or k [] t.timestamps;
  allow_decides = allow_decides;
  held-allow = held-allow;
  window-allow = λ t now k. ap (λ p. p.burst_window) (policy-allow t now k);
  limit-allow = λ t now k. ap (λ p. p.max_burst) (policy-allow t now k);
}

-- From a new throttler on, while the clock does not go back: the calls of `Allow` that pass for a
-- key are exactly those before which fewer than the burst have passed for it within the window, so
-- that no window of that length, wherever it lies, holds more of them than the burst.
pub granted-new_throttler :
    (p : ThrottlePolicy) (k : Text) (t c : ℤ) (calls : List (ℤ × Text))
    → Ascending t calls
    → pos 0 ≤ℤ p.max_burst
    → let times = granted throttle_gate (new_throttler p) k calls in
      (times ≡ slide p.burst_window p.max_burst [] (asked k calls))
      × (pos (length (within p.burst_window c times)) ≤ℤ p.max_burst)
unfolding new_throttler lookup
granted-new_throttler p k t c calls asc h =
    let e = granted-eq-slide throttle_gate (new_throttler p) k t calls asc refl in
    (e, rw e (slide-within p.burst_window p.max_burst c (asked k calls) h))
