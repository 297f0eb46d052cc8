-- ===== src/Alert/Limiter/Laws.antt =====
-- The limiter is a cooldown gate.
use portwatch.Base.{
  ◌≡◌, refl, ℤ, IsDuration, List, Text, text_eq, ◌==◌, none, some, if◌then◌else◌, arith, lookup,
  lookup-insert, lookup-delete, ◌&&◌,
}
use portwatch.Alert.Cooldown.{
  CooldownGate, Call, is_due, thin, thin-Spaced, Spaced, asked, granted, granted-eq-thin,
}
use portwatch.Alert.Limiter.{Limiter, Policy, new_limiter, allow, reset}

pub allow_decides :
    (l : Limiter) (now : ℤ) (k : Text)
    → (allow l now k).1 ≡ is_due l.policy.cooldown (lookup k l.last) now
unfolding allow
allow_decides l now k = ground arith

pub lookup-allow :
    (l : Limiter) (now : ℤ) (k j : Text)
    → lookup j (allow l now k).0.last
      ≡ (if (allow l now k).1 && (k == j) then some now else lookup j l.last)
unfolding allow
lookup-allow l now k j = ground (arith, lookup-insert k j now l.last)

pub policy-allow :
    (l : Limiter) (now : ℤ) (k : Text) → (allow l now k).0.policy.cooldown ≡ l.policy.cooldown
unfolding allow
policy-allow l now k = ground arith

pub policy-reset : (l : Limiter) (k : Text) → (reset l k).policy.cooldown ≡ l.policy.cooldown
unfolding reset
policy-reset l k = refl

pub lookup-reset :
    (l : Limiter) (k j : Text)
    → lookup j (reset l k).last ≡ (if k == j then none else lookup j l.last)
unfolding reset
lookup-reset l k j = lookup-delete k j l.last

abbrev pub limiter_gate : CooldownGate Limiter
limiter_gate = record {
  allow = allow;
  reset = reset;
  window = λ l. l.policy.cooldown;
  seen = λ k l. lookup k l.last;
  allow_decides = allow_decides;
  seen-allow = lookup-allow;
  window-allow = policy-allow;
  window-reset = policy-reset;
  seen-reset = lookup-reset;
}

-- From a new limiter on, the calls of `Allow` for a key that pass are exactly those that come at
-- least a cooldown after the last one that passed since the key's last `Reset`, whatever calls for
-- other keys lie between; so, between resets, two that pass are never closer than the cooldown.
pub granted-new_limiter :
    (p : Policy) (k : Text) (calls : List Call)
    → IsDuration p.cooldown
    → let times = granted limiter_gate (new_limiter p) k calls in
      (times ≡ thin p.cooldown none (asked k calls)) × Spaced p.cooldown none times
unfolding new_limiter lookup
granted-new_limiter p k calls d =
    let e = granted-eq-thin limiter_gate (new_limiter p) k calls in
    (e, rw e (thin-Spaced p.cooldown none (asked k calls) d))
