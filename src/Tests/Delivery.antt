-- ===== src/Tests/Delivery.antt =====
-- Hedged and repeated sends.
use portwatch.Base.{
  ℕ, ◌*◌, ◌<◌, ◌≡◌, ◌↔◌, ◌⊎◌, refl, ℤ, pos, pos_part, ◌≤ℤ◌, ◌<ℤ◌, ◌+ℤ◌, List, [], ◌∷◌, true, false,
  Option, none, some, arith,
}
use portwatch.Alert.Notification.{Error, failed}
use portwatch.Alert.Hedge.{
  HedgePolicy, new_hedge_policy, draining, returned, Hedge, Event, delay_over, result, total, steps,
  begin, step, select, wait_head, drain_head,
}
use portwatch.Alert.Hedge.Runs as Runs
use portwatch.Alert.Hedge.Runs.{Run, CanHappen, has_nil_result, at, run-new_hedge_policy}
use portwatch.Alert.Hedge.Outcome.{results, has_nil, last_of, steps-results}
use portwatch.Alert.Retry.{RetryPolicy, Reply, replied, broken}

abbrev two_hedges : HedgePolicy
two_hedges = record { delay = pos 200; max_hedges = pos 2 }

-- The first attempt fails before the first hedge is due, which is launched at the next delay.
abbrev early_failure : List Event
early_failure = delay_over ∷ result (some (failed 1)) ∷ []

abbrev one_running : Hedge
one_running = at two_hedges 2 1 (draining 0 none)

early_run : Run (new_hedge_policy two_hedges) early_failure one_running
unfolding new_hedge_policy begin step select wait_head drain_head total ◌+ℤ◌
early_run = Runs.next (Runs.next Runs.start (λ h. h) (omega arith)) (λ h. h) tt

abbrev last_failure : List (Option Error)
last_failure = some (failed 2) ∷ []

steps-results_example :
    let done = steps one_running (results last_failure) in
    ((has_nil last_failure ≡ true) × (done.phase ≡ returned none))
    ⊎ ((has_nil last_failure ≡ false)
        × (pos 2 ≡ total two_hedges)
        × (one_running.received ≡ 0)
        × (done.phase ≡ returned (last_of none last_failure)))
    ⊎ ((has_nil last_failure ≡ false)
        × (pos 2 <ℤ total two_hedges)
        × (0 < 1)
        × (done.phase ≡ draining 1 (last_of none last_failure))
        × (¬ CanHappen (result none) done))
steps-results_example =
    steps-results two_hedges early_failure two_hedges 2 1 0 none last_failure early_run refl

run-new_hedge_policy_example :
    (pos 2 ≤ℤ (new_hedge_policy two_hedges).max_hedges +ℤ pos 1)
    × ((one_running.phase ≡ returned none) ↔ (has_nil_result early_failure ≡ true))
run-new_hedge_policy_example = run-new_hedge_policy two_hedges early_failure one_running early_run

abbrev twofold : RetryPolicy ℕ
twofold = record { max_attempts = pos 4; initial_wait = pos 5; multiplier = 2; max_wait = pos 8 }

abbrev times : ℤ → ℕ → ℤ
times wait k = pos (pos_part wait * k)

abbrev no_cause : Error → Option Error
no_cause e = none

-- Two replies are not final, the third is.
abbrev replies : List Reply
replies = replied (pos 503) ∷ broken (failed 1) ∷ replied (pos 200) ∷ replied (pos 200) ∷ []
