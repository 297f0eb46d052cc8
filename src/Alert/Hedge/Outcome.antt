-- ===== src/Alert/Hedge/Outcome.antt =====
-- What becomes of a hedged send once it drains the results of its attempts.
use portwatch.Base.{
  Bool, true, false, refl, ◌≤ℤ◌, ℕ, ◌+◌, ◌<◌, ◌≡◌, pos, +ℤ_parts, ◌<ℤ◌, List, [], ◌∷◌, length,
  Option, none, some, ◌⊎◌, arith,
}
use portwatch.Alert.Notification.{Error}
use portwatch.Alert.Hedge.{
  HedgePolicy, new_hedge_policy, draining, returned, Event, result, total, drain_head, receive,
  step, steps,
}
use portwatch.Alert.Hedge.Runs.{Run, run-IsValid, CanHappen, new_hedge_policy-positive, at}

-- The results of attempts that end so.
abbrev pub results : List (Option Error) → List Event
results [] = []
results (e ∷ es) = result e ∷ results es

abbrev pub has_nil : List (Option Error) → Bool
has_nil [] = false
has_nil (none ∷ es) = true
has_nil (some e ∷ es) = has_nil es

abbrev pub last_of : Option Error → List (Option Error) → Option Error
last_of last [] = last
last_of last (e ∷ es) = last_of e es

-- Too few failures to end the second loop leave it where it is; just enough end it.
steps-few :
    (p : HedgePolicy) (es : List (Option Error)) (l r i : ℕ) (last : Option Error)
    → has_nil es ≡ false
    → pos (i + length es) <ℤ total p
    → steps (at p l r (draining i last)) (results es)
      ≡ at p l (r + length es) (draining (i + length es) (last_of last es))
unfolding steps step receive drain_head
steps-few p [] l r i last h a = ground arith
steps-few p (none ∷ es) l r i last h a = ground (arith, h)
steps-few p (some e ∷ es) l r i last h a =
    ground (arith, h, steps-few p es l (r + 1) (i + 1) (some e))

steps-enough :
    (p : HedgePolicy) (es : List (Option Error)) (l r i : ℕ) (last : Option Error)
    → has_nil es ≡ false
    → pos i <ℤ total p
    → pos (i + length es) ≡ total p
    → (steps (at p l r (draining i last)) (results es)).phase ≡ returned (last_of last es)
unfolding steps step receive drain_head
steps-enough p [] l r i last h a b = ground arith
steps-enough p (none ∷ es) l r i last h a b = ground (arith, h)
steps-enough p (some e ∷ []) l r i last h a b = ground arith
steps-enough p (some e ∷ f ∷ es) l r i last h a b =
    ground (arith, h, steps-enough p (f ∷ es) l (r + 1) (i + 1) (some e))

-- What comes after `Send` has returned changes nothing.
steps-returned :
    (p : HedgePolicy) (es : List (Option Error)) (l r : ℕ) (o : Option Error)
    → (steps (at p l r (returned o)) (results es)).phase ≡ returned o
unfolding steps step
steps-returned p [] l r o = refl
steps-returned p (e ∷ es) l r o = steps-returned p es l r o

steps-nil :
    (p : HedgePolicy) (es : List (Option Error)) (l r i : ℕ) (last : Option Error)
    → has_nil es ≡ true
    → pos (i + length es) ≤ℤ total p
    → (steps (at p l r (draining i last)) (results es)).phase ≡ returned none
unfolding steps step receive drain_head
steps-nil p [] l r i last h a = ground (arith, h)
steps-nil p (none ∷ es) l r i last h a = steps-returned p es l (r + 1) none
steps-nil p (some e ∷ []) l r i last h a = ground (arith, h)
steps-nil p (some e ∷ f ∷ es) l r i last h a =
    ground (arith, h, steps-nil p (f ∷ es) l (r + 1) (i + 1) (some e))

-- `Send` has entered its second loop, with `l` attempts launched and `r` results received, and then
-- all the attempts still running end. If one of them succeeds, `Send` returns nil. If all of them fail
-- and all `MaxHedges + 1` attempts were launched, it returns the last of their errors. If all of them
-- fail and fewer were launched, which is so exactly if an attempt failed in its first loop, it waits
-- for ever: it goes on receiving, and no attempt is left that could send a result.
pub steps-results :
    (policy : HedgePolicy) (es : List Event) (p : HedgePolicy) (l r i : ℕ) (last : Option Error)
    (rest : List (Option Error))
    → Run (new_hedge_policy policy) es (at p l r (draining i last))
    → r + length rest ≡ l
    → let done = steps (at p l r (draining i last)) (results rest) in
      ((has_nil rest ≡ true) × (done.phase ≡ returned none))
      ⊎ ((has_nil rest ≡ false)
          × (pos l ≡ total p)
          × (r ≡ i)
          × (done.phase ≡ returned (last_of last rest)))
      ⊎ ((has_nil rest ≡ false)
          × (pos l <ℤ total p)
          × (i < r)
          × (done.phase ≡ draining (i + length rest) (last_of last rest))
          × (¬ CanHappen (result none) done))
steps-results policy es p l r i last rest run e =
    let v =
      run-IsValid (new_hedge_policy policy) es (at p l r (draining i last))
        (new_hedge_policy-positive policy) run in
    ground (
      arith,
      v.launches,
      v.fits,
      +ℤ_parts (total p) (pos i),
      e,
      steps-few p rest l r i last,
      steps-enough p rest l r i last,
      steps-nil p rest l r i last,
    )
