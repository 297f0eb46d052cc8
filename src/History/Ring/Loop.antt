-- ===== src/History/Ring/Loop.antt =====
-- The copying loop of `Snapshot`: what it reads when a slot is written, and where it may start.
use portwatch.Base.{
  ℕ, zero, suc, ◌+◌, ◌-◌, ◌%◌, ◌≤◌, ◌<◌, ◌≡◌, ◌≢◌, refl, ap, ap₂, List, [], ◌∷◌, ◌++◌, get_or, set,
  length, get_or-set_ne, arith,
}
use native.Mathlib.Nat.{mod-add-mod}
use portwatch.History.Ring.{Event, zero_event, copy_out}

-- Two indices less than a round apart fall on different slots.
pub mod-ne : (a d c : ℕ) → 0 < d → d < c → (a + d) % c ≢ a % c
mod-ne a d c h k e = grind arith

module _ (buf : List Event) (c : ℕ) where
  pub copy_out-append :
      (s i n : ℕ)
      → copy_out buf c s i (suc n)
        ≡ copy_out buf c s i n ++ get_or buf ((s + i + n) % c) zero_event ∷ []
  unfolding copy_out
  copy_out-append s i zero = let e : s + i ≡ s + i + 0 = omega arith in rw (← e)
  copy_out-append s i (suc n) =
      let e : s + (i + 1) + n ≡ s + i + suc n = omega arith in
      ap (◌∷◌ (get_or buf ((s + i) % c) zero_event)) (rw (← e) (copy_out-append s (i + 1) n))

  pub copy_out-shift : (s i n : ℕ) → copy_out buf c ((s + 1) % c) i n ≡ copy_out buf c s (i + 1) n
  unfolding copy_out
  copy_out-shift s i zero = refl
  copy_out-shift s i (suc n) =
      let e : s + 1 + i ≡ s + (i + 1) = omega arith in
      ap₂ ◌∷◌ (rw (mod-add-mod, e)) (copy_out-shift s (i + 1) n)

  -- A write to a slot that the loop does not read is not seen.
  pub copy_out-set :
      (v : Event) (s m i n : ℕ)
      → i + n ≤ m
      → m < i + c
      → copy_out (set buf ((s + m) % c) v) c s i n ≡ copy_out buf c s i n
  unfolding copy_out
  copy_out-set v s m i zero h k = refl
  copy_out-set v s m i (suc n) h k =
      ap₂ ◌∷◌
        (get_or-set_ne buf v zero_event (λ e.
          mod-ne (s + i) (m - i) c (omega arith) (omega arith)
            (let d : s + i + (m - i) ≡ s + m = omega arith in rw d e)))
        (copy_out-set v s m (i + 1) n (omega arith) (omega arith))

  pub length-copy_out : (s i n : ℕ) → length (copy_out buf c s i n) ≡ n
  unfolding copy_out
  length-copy_out s i zero = refl
  length-copy_out s i (suc n) = ap suc (length-copy_out s (i + 1) n)
