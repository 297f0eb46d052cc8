-- ===== src/Alert/Observe/Counting.antt =====
-- What a snapshot of the metrics says.
use portwatch.Base.{
  ℕ, suc, ◌+◌, ◌-◌, ◌*◌, ◌/◌, pos, get_or, ◌≡◌, refl, ap, ◌∙◌, ℤ, List, [], ◌∷◌, ◌++◌, append_assoc,
  append-nil, length, Bool, true, false, if◌then◌else◌, Option, none, some, arith,
}
use portwatch.Alert.Notification.{Error}
use portwatch.Alert.Observe.{
  Observer, new_observer, failure_count, record_outcome, sort_float64s, percentile, snapshot,
}
use portwatch.Alert.Observe.Sorting.{
  IsRising, occurrences, sort_float64s-IsRising, occurrences-sort_float64s,
}

-- A call of `Record`.
pub record Outcome : Type 0 where
  pub failure : Option Error
  pub latency : ℤ
  pub was_dropped : Bool

pub observe_all : Observer → List Outcome → Observer
observe_all o [] = o
observe_all o (x ∷ xs) = observe_all (record_outcome o x.failure x.latency x.was_dropped) xs

abbrev pub drops : List Outcome → ℕ
drops [] = 0
drops (x ∷ xs) = let rest = drops xs in if x.was_dropped then suc rest else rest

-- The latencies of those that were not dropped.
abbrev pub latencies : List Outcome → List ℤ
latencies [] = []
latencies (x ∷ xs) = let rest = latencies xs in if x.was_dropped then rest else x.latency ∷ rest

abbrev pub has_failed : Option Error → Bool
has_failed none = false
has_failed (some e) = true

-- Those that were not dropped, and failed.
abbrev pub failures : List Outcome → ℕ
failures [] = 0
failures (x ∷ xs) =
    let rest = failures xs in
    if x.was_dropped then rest else if has_failed x.failure then suc rest else rest

failure_count_lem : (e : Option Error) → failure_count e ≡ (if has_failed e then 1 else 0)
failure_count_lem none = refl
failure_count_lem (some e) = refl

record Told (o : Observer) (xs : List Outcome) (p : Observer) : Type 0 where
  total : p.total ≡ o.total + length xs
  dropped : p.dropped ≡ o.dropped + drops xs
  errors : p.errors ≡ o.errors + failures xs
  samples : p.samples ≡ o.samples ++ latencies xs

Told-cons :
    (o p : Observer) (e : Option Error) (l : ℤ) (d : Bool) (xs : List Outcome)
    → Told (record_outcome o e l d) xs p
    → Told o (record { failure = e; latency = l; was_dropped = d } ∷ xs) p
unfolding record_outcome
Told-cons o p e l true xs t = record {
  total = t.total ∙ omega arith;
  dropped = t.dropped ∙ omega arith;
  errors = t.errors;
  samples = t.samples;
}
Told-cons o p e l false xs t = record {
  total = t.total ∙ omega arith;
  dropped = t.dropped;
  errors = ground (arith, t.errors, failure_count_lem e);
  samples = t.samples ∙ append_assoc o.samples (l ∷ []) (latencies xs);
}

observe_all-Told : (o : Observer) (xs : List Outcome) → Told o xs (observe_all o xs)
unfolding observe_all
observe_all-Told o [] = record {
  total = omega arith;
  dropped = omega arith;
  errors = omega arith;
  samples = rw append-nil refl;
}
observe_all-Told o (x ∷ xs) =
    let first = record_outcome o x.failure x.latency x.was_dropped in
    Told-cons o (observe_all first xs) x.failure x.latency x.was_dropped xs
      (observe_all-Told first xs)

percentile_50 :
    (sorted : List ℤ) → percentile sorted 50 ≡ get_or sorted ((length sorted - 1) / 2) (pos 0)
unfolding percentile
percentile_50 sorted = ap (λ i. get_or sorted i (pos 0)) (omega arith)

percentile_99 :
    (sorted : List ℤ)
    → percentile sorted 99 ≡ get_or sorted ((length sorted - 1) * 99 / 100) (pos 0)
unfolding percentile
percentile_99 sorted = refl

-- After any outcomes, a snapshot counts all of them, those that were dropped, and those that were
-- not dropped and failed; its percentiles are the value in the middle (the lower one of two) and that
-- at 99 hundredths of the last index, rounded down, and zero where there is no value, of a list of
-- the latencies that were not dropped which has each value as often as they have it, and in which
-- none comes before a smaller one.
pub snapshot-observe_all :
    (xs : List Outcome) (v : ℤ)
    → let s = snapshot (observe_all new_observer xs) in
      let sorted = sort_float64s (latencies xs) in
      (s.total ≡ length xs)
      × (s.dropped ≡ drops xs)
      × (s.errors ≡ failures xs)
      × (s.latency_p50_ms ≡ get_or sorted ((length sorted - 1) / 2) (pos 0))
      × (s.latency_p99_ms ≡ get_or sorted ((length sorted - 1) * 99 / 100) (pos 0))
      × (occurrences v sorted ≡ occurrences v (latencies xs))
      × IsRising sorted
unfolding new_observer snapshot
snapshot-observe_all xs v =
    let t = observe_all-Told new_observer xs in
    (
      t.total ∙ omega arith,
      t.dropped ∙ omega arith,
      t.errors ∙ omega arith,
      ap (λ zs. percentile (sort_float64s zs) 50) t.samples
          ∙ percentile_50 (sort_float64s (latencies xs)),
      ap (λ zs. percentile (sort_float64s zs) 99) t.samples
          ∙ percentile_99 (sort_float64s (latencies xs)),
      occurrences-sort_float64s v (latencies xs),
      sort_float64s-IsRising (latencies xs),
    )
