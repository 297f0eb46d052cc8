-- ===== src/Base/Parse.antt =====
-- `strconv.Atoi`, and the reading back of what `%d` prints.
use Prim.Native.Nat.{ℕ, zero, suc, ◌+◌, ◌-◌, ◌*◌, ◌/◌, ◌%◌, ◌^◌, ◌≤◌, ◌<◌}
use mathlib.Core.Path.{◌≡◌, refl}
use mathlib.Core.Bool.{◌&&◌}
use mathlib.Core.Logic.{inl, inr, ◌≢◌}
use mathlib.Core.Option.{Option, none, some}
use mathlib.Core.List.{[], ◌∷◌, ◌++◌}
use native.Mathlib.Omega.{arith}
use portwatch.Base.Tests.{nat_eq, ltb, leb, if◌then◌else◌, Bool-cases}
use portwatch.Base.Int.{ℤ, pos, negsuc, min_duration, max_duration, ◌≤ℤ◌}
use portwatch.Base.Decimal.{AllDigits, digits_of-AllDigits}
use portwatch.Base.Strings.{Text, digits_of, format_int}

-- The value of a text of digits, after digits of value `acc`.
unfoldable pub digits_from : ℕ → Text → Option ℕ
digits_from acc [] = some acc
digits_from acc (c ∷ s) =
    let rest = digits_from (acc * 10 + (c - b'0')) s in
    if leb b'0' c && leb c b'9' then rest else none

-- At least one digit is needed.
abbrev unsigned : Text → Option ℕ
unsigned [] = none
unsigned (c ∷ s) = digits_from 0 (c ∷ s)

abbrev positive : Option ℕ → Option ℤ
positive none = none
positive (some n) = if leb n (2 ^ 63 - 1) then some (pos n) else none

abbrev negative : Option ℕ → Option ℤ
negative none = none
negative (some zero) = some (pos 0)
negative (some (suc n)) = if leb n (2 ^ 63 - 1) then some (negsuc n) else none

-- `strconv.Atoi` on a 64-bit machine: a sign or none, digits, and a value that an `int` holds.
unfoldable pub atoi : Text → Option ℤ
atoi [] = none
atoi (c ∷ s) =
    if nat_eq c b'-'
    then negative (unsigned s)
    else if nat_eq c b'+'
    then positive (unsigned s)
    else positive (unsigned (c ∷ s))

digits_from-append :
    (acc n : ℕ) (s : Text) (c : ℕ)
    → digits_from acc s ≡ some n
    → b'0' ≤ c
    → c ≤ b'9'
    → digits_from acc (s ++ c ∷ []) ≡ some (n * 10 + (c - b'0'))
unfolding digits_from
digits_from-append acc n [] c e l u = ground arith
digits_from-append acc n (d ∷ s) c e l u =
    ground (arith, digits_from-append (acc * 10 + (d - b'0')) n s c)

digits_from-digits_of : (f n : ℕ) → n < f → digits_from 0 (digits_of f n) ≡ some n
unfolding digits_of
digits_from-digits_of zero n h = absurd (omega (arith, h))
digits_from-digits_of (suc f) n h = elim (Bool-cases (ltb n 10)) [
  | inl small ↦ rw small (unfold digits_from in ground arith)
  | inr large ↦
      rw
        (
          large,
          digits_from-append 0 (n / 10) (digits_of f (n / 10)) (b'0' + n % 10)
              (digits_from-digits_of f (n / 10) (ground (arith, h, large))) (omega arith)
              (omega arith),
        )
        (ground arith)
]

append-not-nil : (s : Text) (c : ℕ) → s ++ c ∷ [] ≢ []
append-not-nil [] c e = ground arith
append-not-nil (d ∷ s) c e = ground arith

digits_of-not-nil : (f n : ℕ) → digits_of (suc f) n ≢ []
unfolding digits_of
digits_of-not-nil f n = elim (Bool-cases (ltb n 10)) [
  | inl small ↦ rw small (λ e. ground arith)
  | inr large ↦ rw large (append-not-nil (digits_of f (n / 10)) (b'0' + n % 10))
]

atoi-positive :
    (s : Text) (n : ℕ)
    → AllDigits s
    → s ≢ []
    → digits_from 0 s ≡ some n
    → n ≤ 2 ^ 63 - 1
    → atoi s ≡ some (pos n)
unfolding atoi
atoi-positive [] n d h e b = absurd (h refl)
atoi-positive (c ∷ s) n (l, u, d) h e b = rw e (ground arith)

atoi-negative :
    (s : Text) (n : ℕ)
    → s ≢ []
    → digits_from 0 s ≡ some (suc n)
    → n ≤ 2 ^ 63 - 1
    → atoi (b'-' ∷ s) ≡ some (negsuc n)
unfolding atoi
atoi-negative [] n h e b = absurd (h refl)
atoi-negative (c ∷ s) n h e b = rw e (ground arith)

-- `Atoi` reads back what `%d` prints, for every `int`.
pub atoi-format_int : (n : ℤ) → min_duration ≤ℤ n → n ≤ℤ max_duration → atoi (format_int n) ≡ some n
unfolding format_int
atoi-format_int (pos n) l u =
    atoi-positive (digits_of (suc n) n) n (digits_of-AllDigits (suc n) n) (digits_of-not-nil n n)
      (digits_from-digits_of (suc n) n (omega arith)) (ground (arith, u))
atoi-format_int (negsuc n) l u =
    atoi-negative (digits_of (suc (suc n)) (suc n)) n (digits_of-not-nil (suc n) (suc n))
      (digits_from-digits_of (suc (suc n)) (suc n) (omega arith)) (ground (arith, l))
