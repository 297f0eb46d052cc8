-- ===== src/Alert/Bulkhead/Steps.antt =====
-- A bulkhead shared by any number of calls, whose steps interleave.
use portwatch.Base.{ℕ, suc, ◌+◌, ◌≤◌, ◌≡◌, refl, pos, pos_part, negsuc, +ℤ_parts, true, arith}
use portwatch.Alert.Bulkhead.{BulkheadPolicy, Bulkhead, new_bulkhead, is_free, push, pop, count}

-- The bulkhead; the calls that have got into the semaphore and are not yet counted, those that are
-- counted, and those that have left the semaphore and are still counted.
pub record Shared : Type 0 where
  pub bulkhead : Bulkhead
  pub entering : ℕ
  pub holding : ℕ
  pub leaving : ℕ

pub data Step (s : Shared) : Shared → Type 0 where
  get_in :
      is_free s.bulkhead ≡ true
      → Step s (record s { bulkhead = push s.bulkhead; entering = suc s.entering })
  counted_in :
      (k : ℕ)
      → s.entering ≡ suc k
      → Step s
          (record s { bulkhead = count s.bulkhead (pos 1); entering = k; holding = suc s.holding })
  get_out :
      (k : ℕ)
      → s.holding ≡ suc k
      → Step s (record s { bulkhead = pop s.bulkhead; holding = k; leaving = suc s.leaving })
  counted_out :
      (k : ℕ)
      → s.leaving ≡ suc k
      → Step s (record s { bulkhead = count s.bulkhead (negsuc 0); leaving = k })

pub data Run (s : Shared) : Shared → Type 0 where
  start : Run s s
  next : {t u : Shared} → Run s t → Step t u → Run s u

abbrev pub idle : BulkheadPolicy → Shared
idle p = record { bulkhead = new_bulkhead p; entering = 0; holding = 0; leaving = 0 }

record IsValid (p : BulkheadPolicy) (s : Shared) : Type 0 where
  policy : s.bulkhead.policy ≡ (new_bulkhead p).policy
  inside : s.bulkhead.sem ≡ s.entering + s.holding
  bounded : s.bulkhead.sem ≤ pos_part s.bulkhead.policy.max_concurrent
  counted : s.bulkhead.active ≡ pos (s.holding + s.leaving)

Step-IsValid : (p : BulkheadPolicy) (s t : Shared) → Step s t → IsValid p s → IsValid p t
unfolding is_free push pop count
Step-IsValid p s t (get_in e) v = record {
  policy = v.policy;
  inside = ground (arith, v.inside);
  bounded = ground (arith, e);
  counted = v.counted;
}
Step-IsValid p s t (counted_in k e) v = record {
  policy = v.policy;
  inside = ground (arith, e, v.inside);
  bounded = v.bounded;
  counted = ground (arith, v.counted, +ℤ_parts s.bulkhead.active (pos 1));
}
Step-IsValid p s t (get_out k e) v = record {
  policy = v.policy;
  inside = ground (arith, e, v.inside);
  bounded = ground (arith, v.bounded);
  counted = ground (arith, e, v.counted);
}
Step-IsValid p s t (counted_out k e) v = record {
  policy = v.policy;
  inside = v.inside;
  bounded = v.bounded;
  counted = ground (arith, e, v.counted, +ℤ_parts s.bulkhead.active (negsuc 0));
}

run-IsValid : (p : BulkheadPolicy) (s : Shared) → Run (idle p) s → IsValid p s
unfolding new_bulkhead
run-IsValid p s start = record {
  policy = refl;
  inside = refl;
  bounded = omega arith;
  counted = refl;
}
run-IsValid p s (next r st) = Step-IsValid p _ s st (run-IsValid p _ r)

-- However the steps of the calls interleave, from a new bulkhead on: the calls inside, counted yet
-- or not, are at most the maximum, and `Active` reads the counted calls, to which those belong
-- that have left the semaphore and not yet been counted out.
pub run-idle_bulkhead :
    (p : BulkheadPolicy) (s : Shared)
    → Run (idle p) s
    → (s.entering + s.holding ≤ pos_part (new_bulkhead p).policy.max_concurrent)
      × (s.bulkhead.active ≡ pos (s.holding + s.leaving))
run-idle_bulkhead p s r =
    let v = run-IsValid p s r in (ground (arith, v.policy, v.inside, v.bounded), v.counted)
