-- ===== src/Alert/Dedup/Laws.antt =====
-- The deduplicator is a cooldown gate.
use portwatch.Base.{
  ◌≡◌, refl, ℤ, IsDuration, List, Text, text_eq, ◌==◌, none, some, if◌then◌else◌, arith, lookup,
  lookup-insert, lookup-delete, ◌&&◌,
}
use portwatch.Alert.Cooldown.{
  CooldownGate, Call, is_due, thin, thin-Spaced, Spaced, asked, granted, granted-eq-thin,
}
use portwatch.Alert.Dedup.{Deduplicator, DedupPolicy, new_deduplicator, allow, reset}

pub allow_decides :
    (d : Deduplicator) (now : ℤ) (k : Text)
    → (allow d now k).1 ≡ is_due d.policy.window (lookup k d.last) now
unfolding allow
allow_decides d now k = ground arith

pub lookup-allow :
    (d : Deduplicator) (now : ℤ) (k j : Text)
    → lookup j (allow d now k).0.last
      ≡ (if (allow d now k).1 && (k == j) then some now else lookup j d.last)
unfolding allow
lookup-allow d now k j = ground (arith, lookup-insert k j now d.last)

pub policy-allow :
    (d : Deduplicator) (now : ℤ) (k : Text) → (allow d now k).0.policy.window ≡ d.policy.window
unfolding allow
policy-allow d now k = ground arith

pub policy-reset : (d : Deduplicator) (k : Text) → (reset d k).policy.window ≡ d.policy.window
unfolding reset
policy-reset d k = refl

pub lookup-reset :
    (d : Deduplicator) (k j : Text)
    → lookup j (reset d k).last ≡ (if k == j then none else lookup j d.last)
unfolding reset
lookup-reset d k j = lookup-delete k j d.last

abbrev pub dedup_gate : CooldownGate Deduplicator
dedup_gate = record {
  allow = allow;
  reset = reset;
  window = λ d. d.policy.window;
  seen = λ k d. lookup k d.last;
  allow_decides = allow_decides;
  seen-allow = lookup-allow;
  window-allow = policy-allow;
  window-reset = policy-reset;
  seen-reset = lookup-reset;
}

-- From a new deduplicator on, the calls of `Allow` for a key that pass are exactly those that come at
-- least a window after the last one that passed since the key's last `Reset`, whatever calls for
-- other keys lie between; so, between resets, two that pass are never closer than the window.
pub granted-new_deduplicator :
    (p : DedupPolicy) (k : Text) (calls : List Call)
    → IsDuration p.window
    → let times = granted dedup_gate (new_deduplicator p) k calls in
      (times ≡ thin p.window none (asked k calls)) × Spaced p.window none times
unfolding new_deduplicator lookup
granted-new_deduplicator p k calls v =
    let e = granted-eq-thin dedup_gate (new_deduplicator p) k calls in
    (e, rw e (thin-Spaced p.window none (asked k calls) v))
