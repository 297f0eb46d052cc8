-- ===== src/Base/Decimal.antt =====
-- Laws of `%d`: a decimal holds no separator, and different integers print differently.
use portwatch.Base.Tests.{ltb, Bool-cases}
use portwatch.Base.Int.{ℤ, pos, negsuc}
use portwatch.Base.Strings.{Text, digits_of, format_int}
use Prim.Native.Nat.{ℕ, zero, suc, ◌+◌, ◌-◌, ◌*◌, ◌/◌, ◌%◌, ◌≤◌, ◌<◌}
use mathlib.Core.Path.{◌≡◌, refl, sym, ap, ◌∙◌}
use mathlib.Core.Logic.{inl, inr, ◌≢◌}
use mathlib.Core.List.{[], ◌∷◌, ◌++◌}
use native.Mathlib.Omega.{arith}

-- Every byte is one of `0` to `9`.
abbrev pub AllDigits : Text → Type 0
AllDigits [] = Unit {0}
AllDigits (c ∷ s) = (b'0' ≤ c) × (c ≤ b'9') × AllDigits s

AllDigits-append : (s : Text) (c : ℕ) → AllDigits s → b'0' ≤ c → c ≤ b'9' → AllDigits (s ++ c ∷ [])
AllDigits-append [] c h l u = (l, u, tt)
AllDigits-append (d ∷ s) c (dl, du, h) l u = (dl, du, AllDigits-append s c h l u)

pub digits_of-AllDigits : (f n : ℕ) → AllDigits (digits_of f n)
unfolding digits_of
digits_of-AllDigits zero n = tt
digits_of-AllDigits (suc f) n = elim (Bool-cases (ltb n 10)) [
  | inl small ↦ rw small (ground arith, ground arith, tt)
  | inr large ↦ rw large (
      AllDigits-append (digits_of f (n / 10)) (b'0' + n % 10) (digits_of-AllDigits f (n / 10))
        (omega arith) (omega arith))
]

-- What a decimal stands for.
value_from : ℕ → Text → ℕ
value_from acc [] = acc
value_from acc (c ∷ s) = value_from (acc * 10 + (c - b'0')) s

value_from-append :
    (acc : ℕ) (s : Text) (c : ℕ) → value_from acc (s ++ c ∷ []) ≡ value_from acc s * 10 + (c - b'0')
unfolding value_from
value_from-append acc [] c = refl
value_from-append acc (d ∷ s) c = value_from-append (acc * 10 + (d - b'0')) s c

value_from-digits_of : (f n : ℕ) → n < f → value_from 0 (digits_of f n) ≡ n
unfolding digits_of
value_from-digits_of zero n h = absurd (omega arith)
value_from-digits_of (suc f) n h = elim (Bool-cases (ltb n 10)) [
  | inl small ↦ rw small (unfold value_from in omega arith)
  | inr large ↦
      rw (large, value_from-append 0 (digits_of f (n / 10)) (b'0' + n % 10))
        (ground (arith, value_from-digits_of f (n / 10)))
]

digits_of-injective : (m n : ℕ) → digits_of (suc m) m ≡ digits_of (suc n) n → m ≡ n
digits_of-injective m n e =
    sym (value_from-digits_of (suc m) m (omega arith))
    ∙ ap (value_from 0) e
    ∙ value_from-digits_of (suc n) n (omega arith)

minus_not_digits : (s t : Text) → AllDigits t → t ≢ b'-' ∷ s
minus_not_digits s [] h e = cc
minus_not_digits s (c ∷ t) (l, u, h) e = ground arith

pub format_int-injective : (a b : ℤ) → format_int a ≡ format_int b → a ≡ b
unfolding format_int
format_int-injective (pos m) (pos n) e = ap pos (digits_of-injective m n e)
format_int-injective (pos m) (negsuc n) e =
    absurd (minus_not_digits _ _ (digits_of-AllDigits (suc m) m) e)
format_int-injective (negsuc m) (pos n) e =
    absurd (minus_not_digits _ _ (digits_of-AllDigits (suc n) n) (sym e))
format_int-injective (negsuc m) (negsuc n) e =
    ap negsuc (ground (arith, digits_of-injective (suc m) (suc n)))

-- The byte `c` does not occur.
abbrev Without : ℕ → Text → Type 0
Without c [] = Unit {0}
Without c (d ∷ s) = (d ≢ c) × Without c s

AllDigits-Without : (s : Text) → AllDigits s → Without b':' s
AllDigits-Without [] h = tt
AllDigits-Without (c ∷ s) (l, u, h) = (omega arith, AllDigits-Without s h)

pub format_int-Without : (a : ℤ) → Without b':' (format_int a)
unfolding format_int
format_int-Without (pos n) = AllDigits-Without _ (digits_of-AllDigits (suc n) n)
format_int-Without (negsuc n) =
    (omega arith, AllDigits-Without _ (digits_of-AllDigits (suc (suc n)) (suc n)))

-- A text is cut in one way only at its first separator.
pub cut_unique :
    (c : ℕ) (a b s t : Text)
    → Without c a
    → Without c b
    → a ++ c ∷ s ≡ b ++ c ∷ t
    → (a ≡ b) × (s ≡ t)
cut_unique c [] [] s t ha hb e = ground arith
cut_unique c [] (y ∷ b) s t ha (ny, hb) e = ground arith
cut_unique c (x ∷ a) [] s t (nx, ha) hb e = ground arith
cut_unique c (x ∷ a) (y ∷ b) s t (nx, ha) (ny, hb) e = ground (arith, cut_unique c a b s t ha hb)

not_within : (c : ℕ) (s a t : Text) → Without c s → s ≢ a ++ c ∷ t
not_within c [] [] t h e = cc
not_within c [] (x ∷ a) t h e = cc
not_within c (y ∷ s) [] t (n, h) e = ground arith
not_within c (y ∷ s) (x ∷ a) t (n, h) e = ground (arith, not_within c s a t h)

-- The last `c` parts a text in one way.
pub last_cut_unique :
    (c : ℕ) (a b s t : Text)
    → Without c s
    → Without c t
    → a ++ c ∷ s ≡ b ++ c ∷ t
    → (a ≡ b) × (s ≡ t)
last_cut_unique c [] [] s t hs ht e = ground arith
last_cut_unique c [] (y ∷ b) s t hs ht e = ground (arith, not_within c s b t hs)
last_cut_unique c (x ∷ a) [] s t hs ht e = ground (arith, not_within c t a s ht)
last_cut_unique c (x ∷ a) (y ∷ b) s t hs ht e = ground (arith, last_cut_unique c a b s t hs ht)
