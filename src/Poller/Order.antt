-- ===== src/Poller/Order.antt =====
-- The results of `PollAll` stand in the order of the targets.
use portwatch.Base.{
  ℕ, zero, suc, ◌+◌, ◌≤◌, ◌<◌, ◌≡◌, ◌⊎◌, ◌↔◌, inl, inr, refl, sym, ◌∙◌, ap, Bool-cases, ltb, nat_eq,
  ap₂, subst, List, [], ◌∷◌, length, set, get_or, replicate, length-set, length-replicate,
  get_or-set_self, get_or-set_ne, Option, arith,
}
use portwatch.Poller.{Result, Target, poll, launch, zero_result, gather, poll_all}

-- Membership.
abbrev pub Received : {A : Type 0} → List A → A → Type 0
Received [] x = ⊥
Received (y ∷ ys) x = (y ≡ x) ⊎ Received ys x

module _ {A : Type 0} (z : A) where
  -- Lists of one length with equal members are equal.
  ext :
      (xs ys : List A) → length xs ≡ length ys → ((i : ℕ) → get_or xs i z ≡ get_or ys i z) → xs ≡ ys
  ext [] [] e h = refl
  ext [] (y ∷ ys) e h = ground (arith, e)
  ext (x ∷ xs) [] e h = ground (arith, e)
  ext (x ∷ xs) (y ∷ ys) e h = ap₂ (λ a bs. a ∷ bs) (h 0) (ext xs ys (omega arith) (λ i. h (suc i)))

  get_or_beyond : (xs : List A) (i : ℕ) → length xs ≤ i → get_or xs i z ≡ z
  get_or_beyond [] i h = refl
  get_or_beyond (x ∷ xs) zero h = absurd (omega (arith, h))
  get_or_beyond (x ∷ xs) (suc i) h = get_or_beyond xs i (omega (arith, h))

module _ {E : Type 0} where
  -- The results of the polls, in the order of the targets.
  abbrev pub each : List (Target × Option E) → List (Result E)
  each [] = []
  each (x ∷ rest) = poll x.0 x.1 ∷ each rest

  length-gather :
      (results : List (Result E)) (received : List (ℕ × Result E))
      → length (gather results received) ≡ length results
  unfolding gather
  length-gather results [] = refl
  length-gather results (x ∷ rest) = rw (length-gather (set results x.0 x.1) rest, length-set) refl

  length-each : (targets : List (Target × Option E)) → length (each targets) ≡ length targets
  length-each [] = refl
  length-each (x ∷ rest) = ap suc (length-each rest)

  -- Each entry received carries the result that `goal` has at its index.
  abbrev Right : List (Result E) → List (ℕ × Result E) → Type 0
  Right goal received =
      (x : ℕ × Result E)
      → Received received x
      → (x.0 < length goal) × (x.1 ≡ get_or goal x.0 zero_result)

  -- The entry is right already, or is still to come.
  abbrev Settled : List (Result E) → List (Result E) → List (ℕ × Result E) → ℕ → Type 0
  Settled goal results received i =
      (get_or results i zero_result ≡ get_or goal i zero_result)
      ⊎ ((r : Result E) × Received received (i, r))

  set_own :
      (goal results : List (Result E)) (x : ℕ × Result E) (i : ℕ)
      → length results ≡ length goal
      → (x.0 < length goal) × (x.1 ≡ get_or goal x.0 zero_result)
      → x.0 ≡ i
      → get_or (set results x.0 x.1) i zero_result ≡ get_or goal i zero_result
  set_own goal results x i e right here =
      subst (λ j. get_or (set results x.0 x.1) j zero_result ≡ get_or goal j zero_result) here
        (get_or-set_self results x.0 x.1 zero_result (omega (arith, right.0, e)) ∙ right.1)

  set-Settled :
      (goal results : List (Result E)) (x : ℕ × Result E) (rest : List (ℕ × Result E)) (i : ℕ)
      → length results ≡ length goal
      → Right goal (x ∷ rest)
      → Settled goal results (x ∷ rest) i
      → Settled goal (set results x.0 x.1) rest i
  set-Settled goal results x rest i e right (inr (r, inr later)) = inr (r, later)
  set-Settled goal results x rest i e right (inr (r, inl now)) =
      inl (set_own goal results x i e (right x (inl refl)) (ap (λ y. y.0) now))
  set-Settled goal results x rest i e right (inl done) = elim (Bool-cases (nat_eq x.0 i)) [
    | inl here ↦ inl (set_own goal results x i e (right x (inl refl)) (ground (arith, here)))
    | inr elsewhere ↦ inl (get_or-set_ne results x.1 zero_result (ground (arith, elsewhere)) ∙ done)
  ]

  gather-Right :
      (goal results : List (Result E)) (received : List (ℕ × Result E)) (i : ℕ)
      → length results ≡ length goal
      → Right goal received
      → Settled goal results received i
      → get_or (gather results received) i zero_result ≡ get_or goal i zero_result
  unfolding gather
  gather-Right goal results [] i e right (inl here) = here
  gather-Right goal results [] i e right (inr (r, never)) = absurd never
  gather-Right goal results (x ∷ rest) i e right h =
      gather-Right goal (set results x.0 x.1) rest i (length-set results x.0 x.1 ∙ e)
        (λ y m. right y (inr m)) (set-Settled goal results x rest i e right h)

  -- What is sent, is sent with its index.
  launch-from :
      (j : ℕ) (targets : List (Target × Option E)) (x : ℕ × Result E)
      → Received (launch j targets) x
      → (k : ℕ) × (x.0 ≡ j + k)
        × (k < length (each targets))
        × (x.1 ≡ get_or (each targets) k zero_result)
  unfolding launch
  launch-from j [] x never = absurd never
  launch-from j (t ∷ rest) x (inl here) =
      (0, sym (ap (λ y. y.0) here) ∙ omega arith, omega arith, sym (ap (λ y. y.1) here))
  launch-from j (t ∷ rest) x (inr later) =
      let (k, at, below, value) = launch-from (suc j) rest x later in
      (suc k, at ∙ omega arith, omega arith, value)

  launch-has :
      (j : ℕ) (targets : List (Target × Option E)) (k : ℕ)
      → k < length (each targets)
      → Received (launch j targets) (j + k, get_or (each targets) k zero_result)
  unfolding launch
  launch-has j [] k h = absurd (omega (arith, h))
  launch-has j (t ∷ rest) zero h = inl (ap₂ (λ a b. (a, b)) (omega arith) refl)
  launch-has j (t ∷ rest) (suc k) h = inr (
      subst (λ i. Received (launch (suc j) rest) (i, get_or (each rest) k zero_result))
        (omega arith) (launch-has (suc j) rest k (omega (arith, h))))

  -- In whatever order the polls end: if what `PollAll` receives is what the polls sent, its results
  -- are those of the polls in the order of the targets.
  pub poll_all_lem :
      (targets : List (Target × Option E)) (received : List (ℕ × Result E))
      → ((x : ℕ × Result E) → Received received x ↔ Received (launch 0 targets) x)
      → poll_all targets received ≡ each targets
  unfolding poll_all
  poll_all_lem targets received same =
      let start : List (Result E) = replicate (length targets) zero_result in
      let sized : length start ≡ length (each targets) =
        length-replicate (length targets) zero_result ∙ sym (length-each targets) in
      let right : Right (each targets) received = λ x m.
        let (k, at, below, value) = launch-from 0 targets x ((same x).0 m) in
        let index : k ≡ x.0 = omega (arith, at) in
        (
          omega (arith, index, below),
          value ∙ ap (λ i. get_or (each targets) i zero_result) index,
        ) in
      ext zero_result (gather start received) (each targets) (length-gather start received ∙ sized)
        (λ i. elim (Bool-cases (ltb i (length (each targets)))) [
          | inl inside ↦ gather-Right (each targets) start received i sized right (
              inr (
                get_or (each targets) i zero_result,
                (same (i, get_or (each targets) i zero_result)).1 (
                    subst
                      (λ j. Received (launch 0 targets) (j, get_or (each targets) i zero_result))
                      (omega arith) (launch-has 0 targets i (ground (arith, inside)))),
              ))
          | inr outside ↦
              get_or_beyond zero_result (gather start received) i
                (ground (arith, outside, length-gather start received, sized))
              ∙ sym (get_or_beyond zero_result (each targets) i (ground (arith, outside)))
        ])
