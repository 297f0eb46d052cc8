-- ===== src/Tests/Senders.antt =====
-- Routes, pipelines, quorums and the limits on concurrent sends.
use portwatch.Base.{
  Option, ◌⊎◌, All, ◌+ℤ◌, ℕ, zero, suc, ◌+◌, ◌≤◌, ◌≡◌, ◌↔◌, refl, ℤ, pos, pos_part, ◌≤ℤ◌, List, [],
  ◌∷◌, Text, text, none, some,
}
use portwatch.Alert.Notification.{Notification, Error, failed, Dispatcher}
use portwatch.Alert.Router
use portwatch.Alert.Router.{Router}
use portwatch.Alert.Router.Laws.{send_each, matching, last_error, send-matching}
use portwatch.Alert.Quorum
use portwatch.Alert.Quorum.{QuorumPolicy, new_quorum_policy, validate}
use portwatch.Alert.Quorum.Laws.{accepted, send_iff}
use mathlib.Core.List.{Permᴰ}
use mathlib.Core.List.Permᴰ.{swap}
use portwatch.Alert.Fanout
use portwatch.Alert.Fanout.{Target, launch, collect}
use portwatch.Alert.Fanout.Laws.{HasNoError, errors_from, send-Permᴰ}
use portwatch.Alert.LoadShed.{ShedPolicy}
use portwatch.Alert.LoadShed.Steps as Shed
use portwatch.Alert.Bulkhead.{BulkheadPolicy, new_bulkhead, is_free, push, count}
use portwatch.Alert.Bulkhead.Steps as Hold
use portwatch.Alert.Bulkhead.Steps.{run-idle_bulkhead}

abbrev notice : ℤ → Text → Notification
notice port state = record { port = port; state = state; timestamp = pos 0; message = [] }

-- Counts what it gets, and fails on the third.
abbrev counts : Dispatcher ℕ
counts n (suc (suc zero)) = (some (failed 7), 3)
counts n w = (none, suc w)

abbrev two_routes : Router ℕ
two_routes = record {
  routes =
      record { route = record { name = text "all"; ports = []; states = [] }; dispatcher = counts }
      ∷ record {
        route = record { name = text "web"; ports = pos 80 ∷ []; states = [] };
        dispatcher = counts;
      }
      ∷ [];
}

send-matching_example :
    let n = notice (pos 80) (text "open") in
    let sent = send_each (matching n two_routes.routes) n 1 in
    Router.send two_routes n 1 ≡ (last_error sent.0, sent.1)
send-matching_example = send-matching two_routes (notice (pos 80) (text "open")) 1

abbrev two_of : ℤ → QuorumPolicy
two_of total = record { total = total; required = pos 2 }

two_of_three : new_quorum_policy (two_of (pos 0)) 3 ≡ some (two_of (pos 3))
unfolding new_quorum_policy validate
two_of_three = refl

send_iff_example :
    (Quorum.send (two_of (pos 3)) (none ∷ some (failed 1) ∷ none ∷ []) ≡ none)
    ↔ (pos 2 ≤ℤ pos (accepted (none ∷ some (failed 1) ∷ none ∷ [])))
send_iff_example =
    send_iff (two_of (pos 0)) (two_of (pos 3)) (none ∷ some (failed 1) ∷ none ∷ []) two_of_three

abbrev one_shed : ShedPolicy
one_shed = record { max_in_flight = pos 1 }

abbrev shed_after : ℕ → ℕ → Shed.Shared
shed_after holding undoing = record {
  shedder = record { policy = one_shed; inflight = pos (holding + undoing) };
  holding = holding;
  undoing = undoing;
}

abbrev one_slot : BulkheadPolicy
one_slot = record { max_concurrent = pos 1 }

abbrev hold_after : Hold.Shared
hold_after = record {
  bulkhead = record { policy = one_slot; sem = 1; active = pos 1 };
  entering = 0;
  holding = 1;
  leaving = 0;
}

hold_run : Hold.Run (Hold.idle one_slot) hold_after
unfolding new_bulkhead is_free push count ◌+ℤ◌
hold_run = Hold.next (Hold.next Hold.start (Hold.get_in refl)) (Hold.counted_in 0 refl)

run-idle_bulkhead_example :
    (0 + 1 ≤ pos_part (new_bulkhead one_slot).policy.max_concurrent) × (pos 1 ≡ pos (1 + 0))
run-idle_bulkhead_example = run-idle_bulkhead one_slot hold_after hold_run

-- Two targets refuse and one is nil; the first two end in the other order.
abbrev three_targets : List Target
three_targets = some (some (failed 2)) ∷ none ∷ some (some (failed 1)) ∷ []

abbrev received : List (ℕ × Option Error)
received = (1, none) ∷ (0, some (failed 2)) ∷ (2, some (failed 1)) ∷ []

received_swapped : Permᴰ (launch 0 three_targets) received
unfolding launch
received_swapped = swap refl refl

send-Permᴰ_example :
    (All HasNoError three_targets × (Fanout.send received ≡ none))
    ⊎ (¬ All HasNoError three_targets
        × ((errs : List (ℕ × Error)) × (Fanout.send received ≡ some errs)
            × Permᴰ (errors_from 0 three_targets) errs))
send-Permᴰ_example = send-Permᴰ three_targets received received_swapped
