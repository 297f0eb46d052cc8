-- ===== src/Alert/Observe/Sorting.antt =====
-- The insertion sort sorts.
use portwatch.Base.{
  ℕ, suc, ◌+◌, ◌-◌, ◌≡◌, refl, ap, sym, ◌∙◌, ℤ, pos, ◌≤ℤ◌, ltb_ℤ, eq_ℤ, List, [], ◌∷◌, length, All,
  get_or, set, Bool-cases, inl, inr, if◌then◌else◌, arith,
}
use portwatch.Alert.Observe.{swap_back, sift, sort_from, sort_float64s}

-- `xs` in reverse order before `ys`: the part of the array that is sorted already, from its end.
abbrev reverse_onto : List ℤ → List ℤ → List ℤ
reverse_onto [] ys = ys
reverse_onto (x ∷ xs) ys = reverse_onto xs (x ∷ ys)

-- The place of a value in a list that falls.
abbrev place : ℤ → List ℤ → List ℤ
place x [] = x ∷ []
place x (y ∷ ys) = let deeper = y ∷ place x ys in if ltb_ℤ x y then deeper else x ∷ y ∷ ys

get_or-reverse_onto :
    (xs ys : List ℤ) (k : ℕ)
    → get_or (reverse_onto xs ys) (length xs + k) (pos 0) ≡ get_or ys k (pos 0)
get_or-reverse_onto [] ys k = ap (λ i. get_or ys i (pos 0)) (omega arith)
get_or-reverse_onto (x ∷ xs) ys k =
    ap (λ i. get_or (reverse_onto xs (x ∷ ys)) i (pos 0)) (omega arith)
    ∙ get_or-reverse_onto xs (x ∷ ys) (suc k)

set-reverse_onto :
    (xs ys : List ℤ) (k : ℕ) (v : ℤ)
    → set (reverse_onto xs ys) (length xs + k) v ≡ reverse_onto xs (set ys k v)
set-reverse_onto [] ys k v = ap (λ i. set ys i v) (omega arith)
set-reverse_onto (x ∷ xs) ys k v =
    ap (λ i. set (reverse_onto xs (x ∷ ys)) i v) (omega arith)
    ∙ set-reverse_onto xs (x ∷ ys) (suc k) v

at_end : (xs ys : List ℤ) → get_or (reverse_onto xs ys) (length xs) (pos 0) ≡ get_or ys 0 (pos 0)
at_end xs ys =
    ap (λ i. get_or (reverse_onto xs ys) i (pos 0)) (omega arith) ∙ get_or-reverse_onto xs ys 0

after_end :
    (xs ys : List ℤ) → get_or (reverse_onto xs ys) (suc (length xs)) (pos 0) ≡ get_or ys 1 (pos 0)
after_end xs ys =
    ap (λ i. get_or (reverse_onto xs ys) i (pos 0)) (omega arith) ∙ get_or-reverse_onto xs ys 1

swap_back-reverse_onto :
    (xs : List ℤ) (y x : ℤ) (ys : List ℤ)
    → swap_back (reverse_onto xs (y ∷ x ∷ ys)) (length xs) ≡ reverse_onto xs (x ∷ y ∷ ys)
swap_back-reverse_onto xs y x ys =
    rw (after_end xs (y ∷ x ∷ ys), at_end xs (y ∷ x ∷ ys))
      (ap (λ i. set (set (reverse_onto xs (y ∷ x ∷ ys)) i x) (suc (length xs)) y) (omega arith)
        ∙ ap (λ zs. set zs (suc (length xs)) y) (set-reverse_onto xs (y ∷ x ∷ ys) 0 x)
        ∙ ap (λ i. set (reverse_onto xs (x ∷ x ∷ ys)) i y) (omega arith)
        ∙ set-reverse_onto xs (x ∷ x ∷ ys) 1 y)

sift-reverse_onto :
    (xs : List ℤ) (x : ℤ) (ys : List ℤ)
    → sift (reverse_onto xs (x ∷ ys)) (length xs) ≡ reverse_onto (place x xs) ys
unfolding sift
sift-reverse_onto [] x ys = refl
sift-reverse_onto (y ∷ xs) x ys = elim (Bool-cases (ltb_ℤ x y)) [
  | inl less ↦
      rw
        (
          swap_back-reverse_onto xs y x ys,
          sift-reverse_onto xs x (y ∷ ys),
          after_end xs (y ∷ x ∷ ys),
          at_end xs (y ∷ x ∷ ys),
          less,
        )
        refl
  | inr not_less ↦ rw (after_end xs (y ∷ x ∷ ys), at_end xs (y ∷ x ∷ ys), not_less) refl
]

abbrev place_all : List ℤ → List ℤ → List ℤ
place_all xs [] = xs
place_all xs (y ∷ ys) = place_all (place y xs) ys

length-place : (x : ℤ) (xs : List ℤ) → length (place x xs) ≡ suc (length xs)
length-place x [] = refl
length-place x (y ∷ ys) = ground (arith, length-place x ys)

sort_from-reverse_onto :
    (xs ys : List ℤ)
    → sort_from (reverse_onto xs ys) (length xs) (length ys) ≡ reverse_onto (place_all xs ys) []
unfolding sort_from
sort_from-reverse_onto xs [] = refl
sort_from-reverse_onto xs (y ∷ ys) =
    ap (λ zs. sort_from zs (suc (length xs)) (length ys)) (sift-reverse_onto xs y ys)
    ∙ ap (λ i. sort_from (reverse_onto (place y xs) ys) i (length ys)) (sym (length-place y xs))
    ∙ sort_from-reverse_onto (place y xs) ys

sort_float64s-place_all : (s : List ℤ) → sort_float64s s ≡ reverse_onto (place_all [] s) []
unfolding sort_float64s sort_from
sort_float64s-place_all [] = refl
sort_float64s-place_all (x ∷ xs) =
    let rounds : length (x ∷ xs) - 1 ≡ length xs = omega arith in
    ap (λ n. sort_from (x ∷ xs) 1 n) rounds ∙ sort_from-reverse_onto (x ∷ []) xs

abbrev IsFalling : List ℤ → Type 0
IsFalling [] = Unit
IsFalling (x ∷ xs) = All (λ y. y ≤ℤ x) xs × IsFalling xs

-- Each member is at most all that follow.
abbrev pub IsRising : List ℤ → Type 0
IsRising [] = Unit
IsRising (x ∷ xs) = All (λ y. x ≤ℤ y) xs × IsRising xs

All-le : (a b : ℤ) (xs : List ℤ) → a ≤ℤ b → All (λ y. y ≤ℤ a) xs → All (λ y. y ≤ℤ b) xs
All-le a b [] h k = tt
All-le a b (x ∷ xs) h k = (ground (arith, h, k.0), All-le a b xs h k.1)

All-place : (a x : ℤ) (xs : List ℤ) → All (λ y. y ≤ℤ a) xs → x ≤ℤ a → All (λ y. y ≤ℤ a) (place x xs)
All-place a x [] h k = (k, tt)
All-place a x (y ∷ ys) h k = elim (Bool-cases (ltb_ℤ x y)) [
  | inl less ↦ rw less (h.0, All-place a x ys h.1 k)
  | inr not_less ↦ rw not_less (k, h)
]

place-IsFalling : (x : ℤ) (xs : List ℤ) → IsFalling xs → IsFalling (place x xs)
place-IsFalling x [] f = (tt, tt)
place-IsFalling x (y ∷ ys) f = elim (Bool-cases (ltb_ℤ x y)) [
  | inl less ↦ rw less (All-place y x ys f.0 (ground (arith, less)), place-IsFalling x ys f.1)
  | inr not_less ↦
      rw not_less ((ground (arith, not_less), All-le y x ys (ground (arith, not_less)) f.0), f)
]

place_all-IsFalling : (xs ys : List ℤ) → IsFalling xs → IsFalling (place_all xs ys)
place_all-IsFalling xs [] f = f
place_all-IsFalling xs (y ∷ ys) f = place_all-IsFalling (place y xs) ys (place-IsFalling y xs f)

-- Each of the first is at most each of the second.
abbrev Below : List ℤ → List ℤ → Type 0
Below xs ys = All (λ x. All (λ y. x ≤ℤ y) ys) xs

Below-cons : (x : ℤ) (xs ys : List ℤ) → All (λ y. y ≤ℤ x) xs → Below xs ys → Below xs (x ∷ ys)
Below-cons x [] ys h b = tt
Below-cons x (z ∷ xs) ys h b = ((h.0, b.0), Below-cons x xs ys h.1 b.1)

Below-nil : (xs : List ℤ) → Below xs []
Below-nil [] = tt
Below-nil (x ∷ xs) = (tt, Below-nil xs)

reverse_onto-IsRising :
    (xs ys : List ℤ) → IsFalling xs → IsRising ys → Below xs ys → IsRising (reverse_onto xs ys)
reverse_onto-IsRising [] ys f r b = r
reverse_onto-IsRising (x ∷ xs) ys f r b =
    reverse_onto-IsRising xs (x ∷ ys) f.1 (b.0, r) (Below-cons x xs ys f.0 b.1)

-- How often a value occurs.
abbrev pub occurrences : ℤ → List ℤ → ℕ
occurrences v [] = 0
occurrences v (x ∷ xs) = let rest = occurrences v xs in if eq_ℤ v x then suc rest else rest

occurrences-place : (v x : ℤ) (xs : List ℤ) → occurrences v (place x xs) ≡ occurrences v (x ∷ xs)
occurrences-place v x [] = refl
occurrences-place v x (y ∷ ys) = ground (arith, occurrences-place v x ys)

occurrences-place_all :
    (v : ℤ) (xs ys : List ℤ) → occurrences v (place_all xs ys) ≡ occurrences v xs + occurrences v ys
occurrences-place_all v xs [] = omega arith
occurrences-place_all v xs (y ∷ ys) =
    ground (arith, occurrences-place_all v (place y xs) ys, occurrences-place v y xs)

occurrences-reverse_onto :
    (v : ℤ) (xs ys : List ℤ)
    → occurrences v (reverse_onto xs ys) ≡ occurrences v xs + occurrences v ys
occurrences-reverse_onto v [] ys = omega arith
occurrences-reverse_onto v (x ∷ xs) ys = ground (arith, occurrences-reverse_onto v xs (x ∷ ys))

pub sort_float64s-IsRising : (s : List ℤ) → IsRising (sort_float64s s)
sort_float64s-IsRising s = rw (sort_float64s-place_all s) (
    reverse_onto-IsRising (place_all [] s) [] (place_all-IsFalling [] s tt) tt
      (Below-nil (place_all [] s)))

pub occurrences-sort_float64s :
    (v : ℤ) (s : List ℤ) → occurrences v (sort_float64s s) ≡ occurrences v s
occurrences-sort_float64s v s =
    rw (sort_float64s-place_all s, occurrences-reverse_onto, occurrences-place_all) (omega arith)
