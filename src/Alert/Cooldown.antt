-- ===== src/Alert/Cooldown.antt =====
-- What alert.Limiter and alert.Deduplicator promise alike: for each key, a call passes if it is the
-- first one or comes at least a window after the last one that passed.
use portwatch.Base.{
  ◌≡◌, refl, ℤ, ◌+ℤ◌, ◌≤ℤ◌, ltb_ℤ, time_sub, IsDuration, time_sub-lt_iff, text_beq_iff, List, [],
  ◌∷◌, Text, text_eq, Bool, true, not, ◌&&◌, ◌==◌, Option, none, some, if◌then◌else◌, arith,
}

-- Whether a call at `now` is due, the last one that passed being at `seen`.
abbrev pub is_due : ℤ → Option ℤ → ℤ → Bool
is_due window none now = true
is_due window (some t) now = not (ltb_ℤ (time_sub now t) window)

-- The operations of a gate, its view as the time at which each key last passed, and their laws.
pub record CooldownGate (G : Type 0) : Type 0 where
  pub allow : G → ℤ → Text → G × Bool
  pub reset : G → Text → G
  pub window : G → ℤ
  pub seen : Text → G → Option ℤ
  pub allow_decides :
      (g : G) (now : ℤ) (k : Text) → (allow g now k).1 ≡ is_due (window g) (seen k g) now
  pub seen-allow :
      (g : G) (now : ℤ) (k j : Text)
      → seen j (allow g now k).0 ≡ (if (allow g now k).1 && (k == j) then some now else seen j g)
  pub window-allow : (g : G) (now : ℤ) (k : Text) → window (allow g now k).0 ≡ window g
  pub window-reset : (g : G) (k : Text) → window (reset g k) ≡ window g
  pub seen-reset : (g : G) (k j : Text) → seen j (reset g k) ≡ (if k == j then none else seen j g)

-- What one key is asked for: a pass at a time, or (`none`) a reset.
abbrev Events : Type 0
Events = List (Option ℤ)

-- The reference: of the times at which a key is asked for, keep each that is due after the last one
-- kept since the last reset.
pub thin : ℤ → Option ℤ → Events → Events
thin window last [] = []
thin window last (none ∷ events) = none ∷ thin window none events
thin window last (some now ∷ events) =
    let pass : Events = some now ∷ thin window (some now) events in
    let hold = thin window last events in if is_due window last now then pass else hold

-- Between resets each time comes at least a window after the one before it.
abbrev pub Spaced : ℤ → Option ℤ → Events → Type 0
Spaced window last [] = Unit {0}
Spaced window last (none ∷ events) = Spaced window none events
Spaced window none (some t ∷ events) = Spaced window (some t) events
Spaced window (some s) (some t ∷ events) = (s +ℤ window ≤ℤ t) × Spaced window (some t) events

pub thin-Spaced :
    (window : ℤ) (last : Option ℤ) (events : Events)
    → IsDuration window
    → Spaced window last (thin window last events)
unfolding thin
thin-Spaced window last [] d = tt
thin-Spaced window last (none ∷ events) d = thin-Spaced window none events d
thin-Spaced window none (some t ∷ events) d = thin-Spaced window (some t) events d
thin-Spaced window (some s) (some t ∷ events) d = ground (
  arith,
  time_sub-lt_iff t s window d,
  thin-Spaced window (some t) events d,
  thin-Spaced window (some s) events d,
)

pub data Call : Type 0 where
  ask : ℤ → Text → Call
  clear : Text → Call

-- The calls for one key.
abbrev pub asked : Text → List Call → Events
asked k [] = []
asked k (ask now j ∷ calls) = if j == k then some now ∷ asked k calls else asked k calls
asked k (clear j ∷ calls) = if j == k then none ∷ asked k calls else asked k calls

module _ {G : Type 0} (gate : CooldownGate G) where
  open gate use {
    allow, reset, window, seen, allow_decides, seen-allow, seen-reset, window-allow, window-reset,
  }

  -- The times at which calls for a key pass, and its resets, the calls made in order.
  pub granted : G → Text → List Call → Events
  granted g k [] = []
  granted g k (ask now j ∷ calls) =
      let rest = granted (allow g now j).0 k calls in
      if (allow g now j).1 && (j == k) then some now ∷ rest else rest
  granted g k (clear j ∷ calls) =
      let rest = granted (reset g j) k calls in if j == k then none ∷ rest else rest

  -- A gate lets through exactly what the reference keeps; calls for other keys make no difference.
  pub granted-eq-thin :
      (g : G) (k : Text) (calls : List Call)
      → granted g k calls ≡ thin (window g) (seen k g) (asked k calls)
  unfolding granted thin
  granted-eq-thin g k [] = refl
  granted-eq-thin g k (ask now j ∷ calls) = ground (
    arith,
    granted-eq-thin (allow g now j).0 k calls,
    allow_decides g now j,
    seen-allow g now j k,
    window-allow g now j,
    text_beq_iff j k,
  )
  granted-eq-thin g k (clear j ∷ calls) =
      ground (arith, granted-eq-thin (reset g j) k calls, seen-reset g j k, window-reset g j)
