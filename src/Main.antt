-- ===== src/Main.antt =====
-- cmd/portwatch/main.go: the start of the program with the path of its configuration. The file system,
-- the YAML reader, the polling, the tracker, the actions and how the executor reads the actions from
-- the configuration are arguments, and so are the ticks and the end of the context by a signal.
pub mod Exits
use portwatch.Base.{ℤ, List, Bool, Text, Option, none, some, if◌then◌else◌}
use portwatch.Alert.Notification as Alert
use portwatch.Config
use portwatch.Config.{Config, PortConfig, Result, ok, err, load}
use portwatch.Action.{Action, PortActions}
use portwatch.Daemon.{Polled, Verdict, Wake, run_daemon}

-- How the program stands with the state `S`: `log.Fatalf` with either message, a panic, a normal end,
-- or still waiting.
pub data Exit (S : Type 0) : Type 0 where
  loading_failed : Config.Error → Exit S
  panicked : Exit S
  exited : Alert.Error → S → Exit S
  ended running : S → Exit S

module _ {S : Type 0} (is_canceled : Alert.Error → Bool) where
  -- `err != nil && err != context.Canceled`; with no error the daemon has not returned.
  abbrev pub after_run : Option (Option Alert.Error × S) → Exit S
  after_run none = panicked
  after_run (some (none, s)) = running s
  after_run (some (some e, s)) = if is_canceled e then ended s else exited e s

module _ {E W T : Type 0} (read : Text → Result Text) (unmarshal : Text → Config → Result Config)
    (webhook script : Action → ℤ → Text → W → Option E × W)
    (update : Text → ℤ → Text → T → Verdict × T) (new_tracker : T)
    (actions : Config → List PortActions) (poll_all : List PortConfig → W → List Polled × W)
    (is_canceled : Alert.Error → Bool) where
  abbrev pub start : Result Config → List Wake → W → Exit (T × W)
  start (err e) wakes w = loading_failed e
  start (ok c) wakes w = after_run is_canceled (
      run_daemon webhook script update (actions c) c.interval (poll_all c.ports) wakes new_tracker
        w)

  -- `main`, once `flag.Parse` has the path.
  unfoldable pub main_program : Text → List Wake → W → Exit (T × W)
  main_program path wakes w = start (load read unmarshal path) wakes w
