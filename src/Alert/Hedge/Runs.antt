-- ===== src/Alert/Hedge/Runs.antt =====
-- The runs of `Send`: a result comes only from an attempt that was launched.
use portwatch.Base.{
  ℕ, ◌+◌, ◌≤◌, ◌<◌, ◌≡◌, ◌↔◌, refl, pos, +ℤ_parts, ◌≤ℤ◌, ◌<ℤ◌, ◌+ℤ◌, List, [], ◌∷◌, Bool, true,
  false, ◌||◌, none, some, arith,
}
use portwatch.Alert.Notification.{Error}
use portwatch.Alert.Hedge.{
  HedgePolicy, new_hedge_policy, Phase, waiting, draining, returned, Hedge, Event, ctx_done,
  delay_over, result, total, drain_head, wait_head, begin, select, receive, step,
}

abbrev pub CanHappen : Event → Hedge → Type 0
CanHappen (ctx_done e) h = Unit {0}
CanHappen delay_over h = Unit {0}
CanHappen (result r) h = h.received < h.launched

abbrev HasReturned : Phase → Type 0
HasReturned (waiting i) = ⊥
HasReturned (draining i last) = ⊥
HasReturned (returned r) = Unit {0}

-- `Run p es h`: from its start under the policy `p`, `Send` can meet the events `es`, the latest
-- first, and be at `h`.
pub data Run : HedgePolicy → List Event → Hedge → Type 0 where
  start : {p : HedgePolicy} → Run p [] (begin p)
  next :
      {p : HedgePolicy} {es : List Event} {h : Hedge} {e : Event}
      → Run p es h
      → (¬ HasReturned h.phase)
      → CanHappen e h
      → Run p (e ∷ es) (step h e)

abbrev is_nil_result : Event → Bool
is_nil_result (ctx_done e) = false
is_nil_result delay_over = false
is_nil_result (result none) = true
is_nil_result (result (some e)) = false

abbrev pub has_nil_result : List Event → Bool
has_nil_result [] = false
has_nil_result (e ∷ es) = is_nil_result e || has_nil_result es

-- What holds in each phase, of the attempts launched and received and of whether a nil result came.
abbrev Fits : HedgePolicy → Phase → ℕ → ℕ → Bool → Type 0
Fits p (waiting i) launched received nil_seen =
    (pos i <ℤ p.max_hedges) × (launched + received ≡ i + 1) × (nil_seen ≡ false)
Fits p (draining i last) launched received nil_seen =
    (pos i <ℤ total p)
    × (pos (launched + received) ≡ total p +ℤ pos i)
    × (i ≤ received)
    × (nil_seen ≡ false)
Fits p (returned none) launched received nil_seen = nil_seen ≡ true
Fits p (returned (some e)) launched received nil_seen = nil_seen ≡ false

pub record IsValid (p : HedgePolicy) (es : List Event) (h : Hedge) : Type 0 where
  pub policy : h.policy ≡ p
  pub launches : pos h.launched ≤ℤ total h.policy
  pub takes : h.received ≤ h.launched
  pub fits : Fits h.policy h.phase h.launched h.received (has_nil_result es)

begin-IsValid : (p : HedgePolicy) → pos 0 <ℤ p.max_hedges → IsValid p [] (begin p)
unfolding begin wait_head total ◌+ℤ◌
begin-IsValid p a = record {
  policy = refl;
  launches = ground arith;
  takes = omega arith;
  fits = ground arith;
}

wait_head-Fits :
    (p : HedgePolicy) (i launched received : ℕ)
    → pos i <ℤ p.max_hedges
    → launched + received ≡ i + 2
    → Fits p (wait_head p (i + 1)) launched received false
unfolding wait_head drain_head total ◌+ℤ◌
wait_head-Fits p i launched received b c = ground arith

drain_head-Fits :
    (p : HedgePolicy) (i launched received : ℕ) (e : Error)
    → pos i <ℤ total p
    → pos (launched + received) ≡ total p +ℤ pos (i + 1)
    → i < received
    → Fits p (drain_head p (i + 1) (some e)) launched received false
unfolding drain_head
drain_head-Fits p i launched received e b c d = ground arith

abbrev pub at : HedgePolicy → ℕ → ℕ → Phase → Hedge
at p l r f = record { policy = p; launched = l; received = r; phase = f }

step-IsValid :
    (p q : HedgePolicy) (es : List Event) (e : Event) (l r : ℕ) (f : Phase)
    → IsValid p es (at q l r f)
    → (¬ HasReturned f)
    → CanHappen e (at q l r f)
    → IsValid p (e ∷ es) (step (at q l r f) e)
unfolding step select receive total
step-IsValid p q es (ctx_done e) l r (waiting i) v c d = record {
  policy = v.policy;
  launches = v.launches;
  takes = v.takes;
  fits = ground (arith, v.fits);
}
step-IsValid p q es delay_over l r (waiting i) v c d = record {
  policy = v.policy;
  launches = ground (arith, v.fits, +ℤ_parts q.max_hedges (pos 1));
  takes = ground (arith, v.takes);
  fits = ground (arith, v.fits, wait_head-Fits q i (l + 1) r);
}
step-IsValid p q es (result none) l r (waiting i) v c d = record {
  policy = v.policy;
  launches = v.launches;
  takes = ground arith;
  fits = refl;
}
step-IsValid p q es (result (some e)) l r (waiting i) v c d = record {
  policy = v.policy;
  launches = v.launches;
  takes = ground arith;
  fits = ground (arith, v.fits, wait_head-Fits q i l (r + 1));
}
step-IsValid p q es (ctx_done e) l r (draining i last) v c d = record {
  policy = v.policy;
  launches = v.launches;
  takes = v.takes;
  fits = v.fits;
}
step-IsValid p q es delay_over l r (draining i last) v c d = record {
  policy = v.policy;
  launches = v.launches;
  takes = v.takes;
  fits = v.fits;
}
step-IsValid p q es (result none) l r (draining i last) v c d = record {
  policy = v.policy;
  launches = v.launches;
  takes = ground arith;
  fits = refl;
}
step-IsValid p q es (result (some e)) l r (draining i last) v c d = record {
  policy = v.policy;
  launches = v.launches;
  takes = ground arith;
  fits = ground (
    arith,
    v.fits,
    drain_head-Fits q i l (r + 1) e,
    +ℤ_parts (total q) (pos i),
    +ℤ_parts (total q) (pos (i + 1)),
  );
}
step-IsValid p q es e l r (returned o) v c d = absurd (c tt)

pub run-IsValid :
    (p : HedgePolicy) (es : List Event) (h : Hedge)
    → pos 0 <ℤ p.max_hedges
    → Run p es h
    → IsValid p es h
run-IsValid p es h a start = begin-IsValid p a
run-IsValid p es h a (next {es = before} {h = g} {e = e} r c d) =
    step-IsValid p g.policy before e g.launched g.received g.phase (run-IsValid p before g a r) c d

pub new_hedge_policy-positive :
    (policy : HedgePolicy) → pos 0 <ℤ (new_hedge_policy policy).max_hedges
unfolding new_hedge_policy
new_hedge_policy-positive policy = ground arith

nil_iff :
    (p : HedgePolicy) (f : Phase) (l r : ℕ) (nil_seen : Bool)
    → Fits p f l r nil_seen
    → (f ≡ returned none) ↔ (nil_seen ≡ true)
nil_iff p (waiting i) l r nil_seen v = ground (arith, v)
nil_iff p (draining i last) l r nil_seen v = ground (arith, v)
nil_iff p (returned none) l r nil_seen v = ground (arith, v)
nil_iff p (returned (some e)) l r nil_seen v = ground (arith, v)

-- Whatever happens, in whatever order: no more than `MaxHedges + 1` attempts are launched, so that
-- every one of them can put its result into the channel without waiting, and `Send` has returned nil
-- exactly if some attempt was received that succeeded: a success is never lost behind failures.
pub run-new_hedge_policy :
    (policy : HedgePolicy) (es : List Event) (h : Hedge)
    → Run (new_hedge_policy policy) es h
    → (pos h.launched ≤ℤ (new_hedge_policy policy).max_hedges +ℤ pos 1)
      × ((h.phase ≡ returned none) ↔ (has_nil_result es ≡ true))
unfolding total
run-new_hedge_policy policy es h r =
    let v = run-IsValid (new_hedge_policy policy) es h (new_hedge_policy-positive policy) r in
    (
      ground (arith, v.launches, v.policy),
      nil_iff h.policy h.phase h.launched h.received (has_nil_result es) v.fits,
    )
