-- ===== src/Alert/Window/Laws.antt =====
-- The window counter is a sliding gate, for each key.
use portwatch.Base.{
  ◌≡◌, refl, ap, ℤ, pos, ◌≤ℤ◌, List, [], ◌∷◌, ◌++◌, Text, text_eq, ◌==◌, if◌then◌else◌, arith,
  lookup, lookup_or, lookup-insert, append-nil, length,
}
use portwatch.Alert.Sliding.{
  SlidingGate, has_room, recent, slide, asked, Ascending, granted, granted-eq-slide,
}
use portwatch.Alert.Sliding.Bound.{within, slide-within}
use portwatch.Alert.Window.{WindowCounter, WindowPolicy, new_window_counter, allow}

pub allow_decides :
    (t : WindowCounter) (now : ℤ) (k : Text)
    → (allow t now k).1
      ≡ has_room t.policy.max_events (recent t.policy.size now (lookup_or k [] t.timestamps))
unfolding allow
allow_decides t now k = ground arith

pub held-allow :
    (t : WindowCounter) (now : ℤ) (k j : Text)
    → lookup_or j [] (allow t now k).0.timestamps ≡ (
        if k == j
        then recent t.policy.size now (lookup_or k [] t.timestamps)
          ++ (if (allow t now k).1 then now ∷ [] else [])
        else lookup_or j [] t.timestamps)
unfolding allow
held-allow t now k j =
    let valid = recent t.policy.size now (lookup_or k [] t.timestamps) in
    ground (
      arith,
      lookup-insert k j valid t.timestamps,
      lookup-insert k j (valid ++ now ∷ []) t.timestamps,
      append-nil valid,
    )

pub policy-allow : (t : WindowCounter) (now : ℤ) (k : Text) → (allow t now k).0.policy ≡ t.policy
unfolding allow
policy-allow t now k = ground arith

abbrev pub window_gate : SlidingGate WindowCounter
window_gate = record {
  allow = allow;
  window = λ t. t.policy.size;
  limit = λ t. t.policy.max_events;
  held = λ k t. lookup_or k [] t.timestamps;
  allow_decides = allow_decides;
  held-allow = held-allow;
  window-allow = λ t now k. ap (λ p. p.size) (policy-allow t now k);
  limit-allow = λ t now k. ap (λ p. p.max_events) (policy-allow t now k);
}

-- From a new counter of any policy on, while the clock does not go back: the calls of `Allow` that
-- pass for a key are exactly those before which fewer than the maximum have passed for it within
-- the window, so that no window of that length, wherever it lies, holds more of them.
pub granted-new_window_counter :
    (p : WindowPolicy) (k : Text) (t c : ℤ) (calls : List (ℤ × Text))
    → Ascending t calls
    → let q = (new_window_counter p).policy in
      let times = granted window_gate (new_window_counter p) k calls in
      (times ≡ slide q.size q.max_events [] (asked k calls))
      × (pos (length (within q.size c times)) ≤ℤ q.max_events)
unfolding new_window_counter lookup
granted-new_window_counter p k t c calls asc =
    let q = (new_window_counter p).policy in
    let e = granted-eq-slide window_gate (new_window_counter p) k t calls asc refl in
    (e, rw e (slide-within q.size q.max_events c (asked k calls) (ground arith)))
