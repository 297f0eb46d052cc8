-- ===== src/Alert/Hedge.antt =====
-- internal/alert/hedge.go. What the goroutines, the timers and the context do is a sequence of events;
-- `Send` is what it does with each.
pub mod Runs
pub mod Outcome
use portwatch.Base.{
  ℕ, ◌+◌, ◌*◌, ℤ, pos, ◌+ℤ◌, ltb_ℤ, leb_ℤ, Option, none, some, if◌then◌else◌, List, [], ◌∷◌,
}
use portwatch.Alert.Notification.{Error}

pub record HedgePolicy : Type 0 where
  pub delay : ℤ
  pub max_hedges : ℤ

default_hedge_policy : HedgePolicy
default_hedge_policy = record { delay = pos (200 * 1000000); max_hedges = pos 1 }

-- The policy that `NewHedgeDispatcher` keeps. A nil target panics.
unfoldable pub new_hedge_policy : HedgePolicy → HedgePolicy
unfolding default_hedge_policy
new_hedge_policy p = record {
  delay = if leb_ℤ p.delay (pos 0) then default_hedge_policy.delay else p.delay;
  max_hedges = if ltb_ℤ p.max_hedges (pos 1) then pos 1 else p.max_hedges;
}

-- Where `Send` is: in its first loop with this `i`, in its second with this `i` and `lastErr`, or done.
pub data Phase : Type 0 where
  waiting : ℕ → Phase
  draining : ℕ → Option Error → Phase
  returned : Option Error → Phase

-- `launched` counts the goroutines, `received` the results that `Send` has taken from the channel.
pub record Hedge : Type 0 where
  pub policy : HedgePolicy
  pub launched : ℕ
  pub received : ℕ
  pub phase : Phase

-- What a select or a receive may wake on.
pub data Event : Type 0 where
  ctx_done : Error → Event
  delay_over : Event
  result : Option Error → Event

unfoldable pub total : HedgePolicy → ℤ
total p = p.max_hedges +ℤ pos 1

-- The heads of the two loops.
unfoldable pub drain_head : HedgePolicy → ℕ → Option Error → Phase
drain_head p i last = if ltb_ℤ (pos i) (total p) then draining i last else returned last

unfoldable pub wait_head : HedgePolicy → ℕ → Phase
wait_head p i = if ltb_ℤ (pos i) p.max_hedges then waiting i else drain_head p 0 none

-- `Send` up to its first select.
unfoldable pub begin : HedgePolicy → Hedge
begin p = record { policy = p; launched = 1; received = 0; phase = wait_head p 0 }

-- The cases of the select.
unfoldable pub select : Hedge → ℕ → Event → Hedge
select h i (ctx_done e) = record h { phase = returned (some e) }
select h i delay_over = record h { launched = h.launched + 1; phase = wait_head h.policy (i + 1) }
select h i (result none) = record h { received = h.received + 1; phase = returned none }
select h i (result (some e)) = record h {
  received = h.received + 1;
  phase = wait_head h.policy (i + 1);
}

-- The body of the second loop, which waits for results only.
unfoldable pub receive : Hedge → ℕ → Option Error → Event → Hedge
receive h i last (ctx_done e) = h
receive h i last delay_over = h
receive h i last (result none) = record h { received = h.received + 1; phase = returned none }
receive h i last (result (some e)) = record h {
  received = h.received + 1;
  phase = drain_head h.policy (i + 1) (some e);
}

abbrev step_in : Phase → Hedge → Event → Hedge
step_in (waiting i) h e = select h i e
step_in (draining i last) h e = receive h i last e
step_in (returned r) h e = h

unfoldable pub step : Hedge → Event → Hedge
step h e = step_in h.phase h e

-- `Send` from here on.
unfoldable pub steps : Hedge → List Event → Hedge
steps h [] = h
steps h (e ∷ es) = steps (step h e) es
