-- ===== src/Daemon.antt =====
-- internal/daemon/daemon.go: the loop and what one tick does. The polling of all ports and the `Update` of the
-- tracker, which monitor.go does not have, are arguments, and so are the actions (see Action).
pub mod Changes
pub mod Interval
pub mod Loop
pub mod Outside
use portwatch.Base.{
  leb_ℤ, in_seconds, pos, none, some, ◌∷◌, [], ℤ, List, [], ◌∷◌, Bool, Text, Option, not,
  if◌then◌else◌,
}
use portwatch.Alert.Notification.{Error}
use portwatch.Action.{Action, PortActions, run}

pub record Polled : Type 0 where
  pub host : Text
  pub port : ℤ
  pub state : Text

-- What `Update` returns: whether the state changed, the previous and the current one.
pub record Verdict : Type 0 where
  pub changed : Bool
  pub previous : Text
  pub current : Text

-- What the select of `Run` wakes on: the ticker, or the end of the context with its error.
pub data Wake : Type 0 where
  ticked : Wake
  ctx_done : Error → Wake

module _ {E W T : Type 0} (webhook script : Action → ℤ → Text → W → Option E × W)
    (update : Text → ℤ → Text → T → Verdict × T) (cfg : List PortActions) where
  -- The loop over the results; an error of `Run` is only logged.
  unfoldable pub handle_results : List Polled → T → W → T × W
  handle_results [] t w = (t, w)
  handle_results (r ∷ rest) t w =
      let (v, t') = update r.host r.port r.state t in
      let same = handle_results rest t' w in
      let acted = handle_results rest t' (run webhook script cfg r.port v.current w).1 in
      if not v.changed then same else acted

  -- `tick`, whose `PollAll` is `poll_all`.
  unfoldable pub tick : (W → List Polled × W) → T → W → T × W
  tick poll_all t w = let (results, w') = poll_all w in handle_results results t w'

  -- The loop of `Run` over what its select wakes on; `none` is a loop that still waits.
  unfoldable pub wait_loop : (W → List Polled × W) → List Wake → T → W → Option Error × (T × W)
  wait_loop poll_all [] t w = (none, (t, w))
  wait_loop poll_all (ticked ∷ wakes) t w =
      let (t', w') = tick poll_all t w in wait_loop poll_all wakes t' w'
  wait_loop poll_all (ctx_done e ∷ wakes) t w = (some e, (t, w))

  -- `Run` of a configuration with this interval; `none` is the panic of `time.NewTicker`, which wants
  -- a positive duration. The interval is a duration already, and is multiplied once more.
  unfoldable pub run_daemon :
      ℤ → (W → List Polled × W) → List Wake → T → W → Option (Option Error × (T × W))
  run_daemon interval poll_all wakes t w =
      if leb_ℤ (in_seconds interval) (pos 0) then none else some (wait_loop poll_all wakes t w)
