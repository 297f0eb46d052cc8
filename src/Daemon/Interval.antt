-- ===== src/Daemon/Interval.antt =====
-- How long the daemon waits between two ticks.
use portwatch.Base.{
  ◌*◌, ◌≡◌, ◌⊎◌, ℤ, pos, negsuc, pos_part, ◌≤ℤ◌, ◌<ℤ◌, in_seconds, in_seconds-small,
  in_seconds-negative, List, Text, Option, none, some, arith,
}
use portwatch.Config.{Config, ok, validate}
use portwatch.Config.Valid.{validate_iff}
use portwatch.Action.{Action, PortActions}
use portwatch.Daemon.{Polled, Verdict, Wake, wait_loop, run_daemon}

module _ {E W T : Type 0} (webhook script : Action → ℤ → Text → W → Option E × W)
    (update : Text → ℤ → Text → T → Verdict × T) (cfg : List PortActions)
    (poll_all : W → List Polled × W) where
  run_from :
      (i : ℤ) (wakes : List Wake) (t : T) (w : W)
      → pos 0 <ℤ i
      → i ≤ℤ pos 18446744073
      → let answer = run_daemon webhook script update cfg i poll_all wakes t w in
        ((i ≤ℤ pos 9223372036)
          × (in_seconds i ≡ pos (pos_part i * 1000000000))
          × (answer ≡ some (wait_loop webhook script update cfg poll_all wakes t w)))
        ⊎ ((pos 9223372036 <ℤ i) × (answer ≡ none))
  unfolding run_daemon
  run_from (pos n) wakes t w a b = ground (arith, a, b, in_seconds-small n, in_seconds-negative n)
  run_from (negsuc n) wakes t w a b = absurd (omega (arith, a))

  -- A configuration that `validate` accepts holds its interval in nanoseconds, and the daemon
  -- multiplies it by the nanoseconds of a second once more. With an interval of up to 9.223372036
  -- seconds it runs, and waits between its ticks a billion times as long as configured; with any
  -- longer one of up to 18.446744073 seconds, such as the ten seconds that are the default, the product
  -- wraps round to a negative duration, and the start panics.
  pub run_daemon-validate :
      (c d : Config) (wakes : List Wake) (t : T) (w : W)
      → validate c ≡ ok d
      → d.interval ≤ℤ pos 18446744073
      → let answer = run_daemon webhook script update cfg d.interval poll_all wakes t w in
        ((d.interval ≤ℤ pos 9223372036)
          × (in_seconds d.interval ≡ pos (pos_part d.interval * 1000000000))
          × (answer ≡ some (wait_loop webhook script update cfg poll_all wakes t w)))
        ⊎ ((pos 9223372036 <ℤ d.interval) × (answer ≡ none))
  run_daemon-validate c d wakes t w e h =
      let v = (validate_iff c d).0 e in run_from d.interval wakes t w (rw v.1 (v.0.positive)) h
