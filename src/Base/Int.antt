-- ===== src/Base/Int.antt =====
-- Go's `int`, `int64`, `time.Duration` and `time.Time` as integers. `negsuc n` is -(n + 1).
use Prim.Native.Nat.{ℕ, suc, ◌+◌, ◌-◌, ◌*◌, ◌%◌, ◌^◌, ◌≤◌, ◌<◌}
use mathlib.Core.Path.{◌≡◌}
use mathlib.Core.Logic.{◌↔◌}
use mathlib.Core.Bool.{Bool, true}
use native.Mathlib.Omega.{arith}
use portwatch.Base.Tests.{ltb, leb, nat_eq, if◌then◌else◌, Comparable}

pub data ℤ : Type 0 where
  pos : ℕ → ℤ
  negsuc : ℕ → ℤ

abbrev pub pos_part : ℤ → ℕ
pos_part (pos n) = n
pos_part (negsuc n) = 0

abbrev neg_part : ℤ → ℕ
neg_part (pos n) = 0
neg_part (negsuc n) = suc n

abbrev sub_ℕ : ℕ → ℕ → ℤ
sub_ℕ a b = if leb b a then pos (a - b) else negsuc (b - a - 1)

infixl 65 ◌+ℤ◌ ◌-ℤ◌
infix 50 ◌≤ℤ◌ ◌<ℤ◌
unfoldable pub ◌+ℤ◌ : ℤ → ℤ → ℤ
a +ℤ b = sub_ℕ (pos_part a + pos_part b) (neg_part a + neg_part b)

unfoldable pub ◌-ℤ◌ : ℤ → ℤ → ℤ
a -ℤ b = sub_ℕ (pos_part a + neg_part b) (neg_part a + pos_part b)

abbrev pub ◌≤ℤ◌ : ℤ → ℤ → Type 0
a ≤ℤ b = pos_part a + neg_part b ≤ pos_part b + neg_part a

abbrev pub ◌<ℤ◌ : ℤ → ℤ → Type 0
a <ℤ b = pos_part a + neg_part b < pos_part b + neg_part a

abbrev pub ltb_ℤ : ℤ → ℤ → Bool
ltb_ℤ a b = ltb (pos_part a + neg_part b) (pos_part b + neg_part a)

abbrev pub leb_ℤ : ℤ → ℤ → Bool
leb_ℤ a b = leb (pos_part a + neg_part b) (pos_part b + neg_part a)

abbrev pub eq_ℤ : ℤ → ℤ → Bool
eq_ℤ a b = nat_eq (pos_part a + neg_part b) (pos_part b + neg_part a)

pub eq_ℤ_iff : (a b : ℤ) → (eq_ℤ a b ≡ true) ↔ (a ≡ b)
eq_ℤ_iff a b = ground arith

instance abbrev pub int_eq : Comparable ℤ
int_eq = record { same = eq_ℤ; same_iff = eq_ℤ_iff }

pub +ℤ_parts :
    (a b : ℤ)
    → pos_part (a +ℤ b) + neg_part a + neg_part b ≡ neg_part (a +ℤ b) + pos_part a + pos_part b
unfolding ◌+ℤ◌
+ℤ_parts a b = ground arith

pub -ℤ_parts :
    (a b : ℤ)
    → pos_part (a -ℤ b) + neg_part a + pos_part b ≡ neg_part (a -ℤ b) + pos_part a + neg_part b
unfolding ◌-ℤ◌
-ℤ_parts a b = ground arith

pub ruleset int_laws = (arith, +ℤ_parts, -ℤ_parts)

abbrev pub max_duration : ℤ
max_duration = pos (2 ^ 63 - 1)

abbrev pub min_duration : ℤ
min_duration = negsuc (2 ^ 63 - 1)

-- `t.Sub(u)` of package time: the difference in nanoseconds, held at the ends of `int64`.
unfoldable pub time_sub : ℤ → ℤ → ℤ
time_sub t u =
    let d = t -ℤ u in
    if ltb_ℤ max_duration d then max_duration else if ltb_ℤ d min_duration then min_duration else d

-- Strictly between the ends of `int64`, where the saturation is not seen.
pub record IsDuration (d : ℤ) : Type 0 where
  pub above : min_duration <ℤ d
  pub below : d <ℤ max_duration

pub time_sub-lt_iff : (t u d : ℤ) → IsDuration d → (ltb_ℤ (time_sub t u) d ≡ true) ↔ (t <ℤ u +ℤ d)
unfolding time_sub
time_sub-lt_iff t u d h = ground (arith, -ℤ_parts t u, +ℤ_parts u d)

lt-time_sub_iff : (t u d : ℤ) → IsDuration d → (ltb_ℤ d (time_sub t u) ≡ true) ↔ (u +ℤ d <ℤ t)
unfolding time_sub
lt-time_sub_iff t u d h = ground (arith, -ℤ_parts t u, +ℤ_parts u d)

pub le-time_sub_iff : (t u d : ℤ) → IsDuration d → (leb_ℤ d (time_sub t u) ≡ true) ↔ (u +ℤ d ≤ℤ t)
unfolding time_sub
le-time_sub_iff t u d h = ground (arith, -ℤ_parts t u, +ℤ_parts u d)

-- An `int64` that has wrapped round.
abbrev residue : ℤ → ℕ
residue (pos n) = n % 2 ^ 64
residue (negsuc n) = 2 ^ 64 - 1 - n % 2 ^ 64

unfoldable pub wrap_64 : ℤ → ℤ
wrap_64 a = let r = residue a in if ltb r (2 ^ 63) then pos r else negsuc (2 ^ 64 - 1 - r)

-- `time.Duration(a) * time.Second`
abbrev times_second : ℤ → ℤ
times_second (pos n) = pos (n * 1000000000)
times_second (negsuc n) = negsuc (suc n * 1000000000 - 1)

unfoldable pub in_seconds : ℤ → ℤ
in_seconds a = wrap_64 (times_second a)

-- Up to 9.2 s of nanoseconds the product fits; for what is more, up to twice that, it is negative.
pub in_seconds-small : (n : ℕ) → n ≤ 9223372036 → in_seconds (pos n) ≡ pos (n * 1000000000)
unfolding in_seconds wrap_64
in_seconds-small n h = ground arith

pub in_seconds-negative : (n : ℕ) → 9223372036 < n → n ≤ 18446744073 → in_seconds (pos n) <ℤ pos 0
unfolding in_seconds wrap_64
in_seconds-negative n h u = ground arith
