-- ===== src/Tests/Program.antt =====
-- The program as a whole, and a tick of its daemon.
use portwatch.Base.{
  ℕ, ◌≡◌, ◌⊎◌, inr, refl, ℤ, pos, ◌≤ℤ◌, ◌<ℤ◌, List, [], ◌∷◌, ◌++◌, Bool, true, false, Text, text,
  text_eq, text_beq, ◌==◌, format_int, if◌then◌else◌, Option, none, some, arith,
}
use portwatch.Alert.Notification as Alert
use portwatch.Config
use portwatch.Config.{Config, PortConfig, Result, ok, err, validate}
use portwatch.Config.Valid.{IsValid, defaulted}
use portwatch.Action.{PortActions}
use portwatch.Base.Http.{Request, Reply, status}
use portwatch.Action.Webhook.{json_request}
use portwatch.Action.Effects.{Effect, sent, executed, webhook, script, perform}
use portwatch.Daemon.{Polled, Verdict, Wake, ticked, ctx_done}
use portwatch.Daemon.Outside.{do_tick, tick-change_effects}
use portwatch.Daemon.Loop.{first_end}
use portwatch.Main.{loading_failed, panicked, main_program}
use portwatch.Main.Exits.{exit_of, ticked_from, main_program_lem}

-- The state outside is what has been sent and executed, the newest first.
abbrev Log : Type 0
Log = List Effect

abbrev encode : ℤ → Text → ℕ ⊎ Text
encode port state = inr (format_int port ++ state)

abbrev accept : Text → Option ℕ
accept url = if url == text "bad" then some 3 else none

abbrev server : Request → Log → Reply ℕ × Log
server r w = (status (pos 500), sent r ∷ w)

abbrev shell : Text → List Text → Log → Option ℕ × Log
shell path args w = (none, executed path args ∷ w)

-- A tracker that keeps the last state of all.
abbrev track : Text → ℤ → Text → Text → Verdict × Text
track host port state last = (
  record { changed = if state == last then false else true; previous = last; current = state },
  state,
)

abbrev on_any : List PortActions
on_any =
    record {
      port = pos 22;
      actions =
          record { kind = text "script"; on = text "any"; url = []; path = text "run" }
          ∷ record { kind = text "webhook"; on = text "open"; url = text "u"; path = [] }
          ∷ record { kind = text "webhook"; on = text "closed"; url = text "v"; path = [] }
          ∷ record { kind = text "webhook"; on = text "closed"; url = text "bad"; path = [] }
          ∷ [];
    }
    ∷ []

-- The second result is no change.
abbrev polled : Log → List Polled × Log
polled w = (
  record { host = text "b"; port = pos 22; state = text "closed" }
      ∷ record { host = text "b"; port = pos 22; state = text "closed" }
      ∷ [],
  w,
)

tick-change_effects_example :
    do_tick encode accept server shell track on_any polled (text "open") [] ≡ (
      text "closed",
      sent (json_request (text "v") (text "22closed"))
          ∷ executed (text "run") (text "22" ∷ text "closed" ∷ [])
          ∷ [],
    )
unfolding perform text_beq format_int
tick-change_effects_example =
    tick-change_effects encode accept server shell track on_any polled (text "open") []

abbrev five : Config
five = record { interval = pos 5; ports = [] }

abbrev reading : Text → Result Text
reading path = ok path

abbrev parsing : Text → Config → Result Config
parsing content defaults = ok five

abbrev three_wakes : List Wake
three_wakes = ticked ∷ ctx_done (Alert.failed 1) ∷ ticked ∷ []

abbrev is_canceled : Alert.Error → Bool
is_canceled e = true

main_program_lem_example :
    let outcome =
      main_program reading parsing
        (webhook encode accept server shell)
        (script encode accept server shell)
        track
        (text "open")
        (λ c. on_any)
        (λ ps. polled)
        is_canceled
        (text "p")
        three_wakes
        [] in
    let d = defaulted five in
    ((¬ IsValid five)
      × ((e : Config.Error) × (validate five ≡ err e) × (outcome ≡ loading_failed e)))
    ⊎ (IsValid five
        × (pos 5 ≤ℤ pos 9223372036)
        × (outcome
            ≡ exit_of is_canceled (first_end three_wakes) (
                ticked_from
                  (webhook encode accept server shell)
                  (script encode accept server shell)
                  track
                  (text "open")
                  (λ c. on_any)
                  (λ ps. polled)
                  d
                  three_wakes
                  [])))
    ⊎ (IsValid five × (pos 9223372036 <ℤ pos 5) × (outcome ≡ panicked))
main_program_lem_example =
    main_program_lem reading parsing (webhook encode accept server shell)
      (script encode accept server shell) track (text "open") (λ c. on_any) (λ ps. polled)
      is_canceled (text "p") five three_wakes [] refl (omega arith)
