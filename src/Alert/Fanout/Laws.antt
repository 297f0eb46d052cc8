-- ===== src/Alert/Fanout/Laws.antt =====
-- What a fan-out reports does not depend on the order in which its targets end.
use mathlib.Core.List.{Permᴰ}
use mathlib.Core.List.Permᴰ.{nil, cons, swap, trans}
use portwatch.Base.{
  ◌⊎◌, inl, inr, ap, gathered, gathered-Permᴰ, ℕ, suc, ◌≡◌, ◌↔◌, refl, ◌∙◌, subst, List, [], ◌∷◌,
  ◌++◌, All, Bool, true, false, Option, none, some, arith,
}
use portwatch.Alert.Notification.{Error}
use portwatch.Alert.Fanout.{Target, outcome, launch, reported, collect, send}

collect-gathered : (xs : List (ℕ × Option Error)) → collect xs ≡ gathered reported xs
unfolding collect
collect-gathered [] = refl
collect-gathered (x ∷ xs) = rw (collect-gathered xs) refl

-- The errors of another order of arrival are the same errors in another order.
collect-Permᴰ : {xs ys : List (ℕ × Option Error)} → Permᴰ xs ys → Permᴰ (collect xs) (collect ys)
collect-Permᴰ {xs = xs} {ys = ys} d =
    rw (collect-gathered xs, collect-gathered ys) (gathered-Permᴰ reported d)

abbrev is_nil : {A : Type 0} → List A → Bool
is_nil [] = true
is_nil (x ∷ xs) = false

is_nil-Permᴰ : {A : Type 0} {xs ys : List A} → Permᴰ xs ys → is_nil xs ≡ is_nil ys
is_nil-Permᴰ nil = refl
is_nil-Permᴰ (cons e d) = refl
is_nil-Permᴰ (swap e f) = refl
is_nil-Permᴰ (trans d e) = is_nil-Permᴰ d ∙ is_nil-Permᴰ e

-- The errors of the targets from index `i` on, in their order.
abbrev pub errors_from : ℕ → List Target → List (ℕ × Error)
errors_from i [] = []
errors_from i (t ∷ ts) = reported (i, outcome t) ++ errors_from (suc i) ts

abbrev pub HasNoError : Target → Type 0
HasNoError t = outcome t ≡ none

collect-launch : (i : ℕ) (ts : List Target) → collect (launch i ts) ≡ errors_from i ts
unfolding collect launch
collect-launch i [] = refl
collect-launch i (t ∷ ts) = rw (collect-launch (suc i) ts) refl

errors_from-is_nil_iff :
    (i : ℕ) (ts : List Target) → (is_nil (errors_from i ts) ≡ true) ↔ All HasNoError ts
errors_from-is_nil_iff i [] = ground arith
errors_from-is_nil_iff i (none ∷ ts) = ground (arith, errors_from-is_nil_iff (suc i) ts)
errors_from-is_nil_iff i (some none ∷ ts) = ground (arith, errors_from-is_nil_iff (suc i) ts)
errors_from-is_nil_iff i (some (some e) ∷ ts) = ground arith

-- `Send` reports what it has collected, and nil if that is nothing.
send-collect :
    (received : List (ℕ × Option Error))
    → ((collect received ≡ []) × (send received ≡ none))
      ⊎ ((is_nil (collect received) ≡ false) × (send received ≡ some (collect received)))
unfolding send
send-collect received = ground arith

-- In whatever order the results come, one of two things holds. Either every target is nil or accepts,
-- and `Send` returns nil; or not all are, and `Send` reports an error that is made of the errors of the
-- targets that refuse, each once and with the index of its target, in some order.
pub send-Permᴰ :
    (ts : List Target) (received : List (ℕ × Option Error))
    → Permᴰ (launch 0 ts) received
    → (All HasNoError ts × (send received ≡ none))
      ⊎ (¬ All HasNoError ts
          × ((errs : List (ℕ × Error)) × (send received ≡ some errs)
              × Permᴰ (errors_from 0 ts) errs))
send-Permᴰ ts received d =
    let errs : Permᴰ (errors_from 0 ts) (collect received) =
      subst (λ xs. Permᴰ xs (collect received)) (collect-launch 0 ts) (collect-Permᴰ d) in
    elim (send-collect received) [
      | inl (empty, e) ↦
          inl ((errors_from-is_nil_iff 0 ts).0 (is_nil-Permᴰ errs ∙ ap is_nil empty), e)
      | inr (some_, e) ↦ inr (
        (λ h. absurd (ground (arith, some_, is_nil-Permᴰ errs, (errors_from-is_nil_iff 0 ts).1 h))),
        (collect received, e, errs),
      )
    ]
