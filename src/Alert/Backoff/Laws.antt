-- ===== src/Alert/Backoff/Laws.antt =====
-- How far apart the calls are that pass.
use portwatch.Base.{
  ℕ, zero, suc, ◌≡◌, refl, ap, ◌∙◌, ℤ, ◌+ℤ◌, leb_ℤ, ltb_ℤ, arith, Text, text_eq, ◌==◌, lookup, List,
  [], ◌∷◌, Bool, true, false, Bool-cases, inl, inr, if◌then◌else◌, Option, none, some,
}
use portwatch.Alert.PerKey.{answers, inputs_for, answers_for, answers_for_lem}
use portwatch.Alert.Backoff.{
  BackoffPolicy, BackoffEntry, BackoffLimiter, new_backoff_limiter, interval, try_at, allow, reset,
}

-- A call of `Allow` at a time, or (`none`) of `Reset`, with its key.
abbrev pub Call : Type 0
Call = Text × Option ℤ

-- The lesser of two durations.
abbrev pub lesser : ℤ → ℤ → ℤ
lesser x y = if leb_ℤ x y then x else y

module _ (power : ℕ → ℤ) where
  -- The answers to the calls of `Allow` for one key, among calls for any; a reset answers no.
  pub allowed : Text → BackoffLimiter → List Call → List Bool
  allowed k b [] = []
  allowed k b ((key, none) ∷ calls) =
      let rest = allowed k (reset b key) calls in if key == k then false ∷ rest else rest
  allowed k b ((key, some now) ∷ calls) =
      let (b', pass) = allow power b now key in
      let rest = allowed k b' calls in if key == k then pass ∷ rest else rest

  -- How long a key waits after its pass number `n + 1` since the last reset.
  abbrev pub wait : BackoffPolicy → ℕ → ℤ
  wait p zero = p.base_interval
  wait p (suc n) = lesser (power (suc n)) p.max_interval

  interval-lesser :
      (p : BackoffPolicy) (n : ℕ) → interval power p n ≡ lesser (power n) p.max_interval
  interval-lesser p n = ground arith

  -- The reference, given how many passes came before the last and when that was: a first call
  -- passes, and another one if its time is not before the end of the wait after the last pass.
  unfoldable pub paced : BackoffPolicy → Option (ℕ × ℤ) → List (Option ℤ) → List Bool
  paced p last [] = []
  paced p last (none ∷ calls) = false ∷ paced p none calls
  paced p none (some now ∷ calls) = true ∷ paced p (some (0, now)) calls
  paced p (some (n, t)) (some now ∷ calls) =
      let hold = false ∷ paced p (some (n, t)) calls in
      let pass = true ∷ paced p (some (suc n, now)) calls in
      if ltb_ℤ now (t +ℤ wait p n) then hold else pass

  abbrev step : BackoffPolicy → Option BackoffEntry → Option ℤ → Option BackoffEntry × Bool
  step p e none = (none, false)
  step p e (some now) = (some (try_at power p now e).0, (try_at power p now e).1)

  -- What the code stores for a key with this last pass.
  abbrev entry : BackoffPolicy → Option (ℕ × ℤ) → Option BackoffEntry
  entry p none = none
  entry p (some (n, t)) = some (record { attempts = suc n; next_at = t +ℤ wait p n })

  answers-paced :
      (p : BackoffPolicy) (last : Option (ℕ × ℤ)) (calls : List (Option ℤ))
      → answers (step p) (entry p last) calls ≡ paced p last calls
  unfolding answers paced
  answers-paced p last [] = refl
  answers-paced p none (none ∷ calls) = ap (λ xs. false ∷ xs) (answers-paced p none calls)
  answers-paced p (some s) (none ∷ calls) = ap (λ xs. false ∷ xs) (answers-paced p none calls)
  answers-paced p none (some now ∷ calls) =
      ap (λ xs. true ∷ xs) (answers-paced p (some (0, now)) calls)
  answers-paced p (some (n, t)) (some now ∷ calls) = elim (Bool-cases (ltb_ℤ now (t +ℤ wait p n))) [
    | inl early ↦ rw (early, answers-paced p (some (n, t)) calls) refl
    | inr due ↦ rw (due, interval-lesser p (suc n), answers-paced p (some (suc n, now)) calls) refl
  ]

  allowed_lem :
      (k : Text) (b : BackoffLimiter) (calls : List Call)
      → allowed k b calls ≡ answers_for (step b.policy) k b.state calls
  unfolding allowed answers_for allow reset
  allowed_lem k b [] = refl
  allowed_lem k b ((key, none) ∷ calls) = rw (allowed_lem k (reset b key) calls) refl
  allowed_lem k b ((key, some now) ∷ calls) =
      rw (allowed_lem k (allow power b now key).0 calls) refl

  -- The answers of `Allow` for a key, among calls for any keys, depend only on the calls for that
  -- key: since the last reset the first passes, and any other passes exactly if, since the last
  -- one that passed, at least its wait has gone by. This is the base interval after the first pass,
  -- and after the pass number n + 1 the lesser of the power n, as the code computes it, and the
  -- maximal interval.
  pub allowed-new_backoff_limiter :
      (p : BackoffPolicy) (k : Text) (calls : List Call)
      → allowed k (new_backoff_limiter p) calls ≡ paced p none (inputs_for k calls)
  unfolding new_backoff_limiter lookup
  allowed-new_backoff_limiter p k calls =
      allowed_lem k (new_backoff_limiter p) calls
      ∙ answers_for_lem (step p) k [] calls
      ∙ answers-paced p none (inputs_for k calls)
