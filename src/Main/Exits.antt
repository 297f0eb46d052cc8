-- ===== src/Main/Exits.antt =====
-- How the program ends.
use portwatch.Base.{
  ◌≡◌, refl, sym, ap, ◌∙◌, ◌⊎◌, inl, inr, ℤ, pos, ◌≤ℤ◌, ◌<ℤ◌, List, [], Bool, Text, Option, none,
  some, Option-cases, if◌then◌else◌, arith,
}
use portwatch.Alert.Notification as Alert
use portwatch.Config
use portwatch.Config.{Config, PortConfig, Result, ok, err, ◌>>=◌, load, validate, ten_seconds}
use portwatch.Config.Valid.{IsValid, defaulted, validate_iff}
use portwatch.Action.{Action, PortActions}
use portwatch.Daemon.{Polled, Verdict, Wake, run_daemon}
use portwatch.Daemon.Interval.{run_daemon-validate}
use portwatch.Daemon.Loop.{first_end, ticks, tick_times, wait_loop-tick_times}
use portwatch.Main.{Exit, loading_failed, panicked, running, exited, ended, start, main_program}

Result-cases :
    {A : Type 0} (r : Result A) → ((e : Config.Error) × (r ≡ err e)) ⊎ ((a : A) × (r ≡ ok a))
Result-cases (err e) = inl (e, refl)
Result-cases (ok a) = inr (a, refl)

refuted : (c : Config) (e : Config.Error) → validate c ≡ err e → ¬ IsValid c
refuted c e bad v =
    let good = (validate_iff c (defaulted c)).1 (v, refl) in
    let clash : err e ≡ ok (defaulted c) = sym bad ∙ good in cc

module _ {S : Type 0} (is_canceled : Alert.Error → Bool) where
  abbrev pub exit_of : Option Alert.Error → S → Exit S
  exit_of none s = running s
  exit_of (some e) s = if is_canceled e then ended s else exited e s

module _ (read : Text → Result Text) (unmarshal : Text → Config → Result Config) where
  -- What the program reads, before it is checked.
  abbrev pub parsed : Text → Result Config
  parsed path = do
    content ← read path
    unmarshal content (record { interval = ten_seconds; ports = [] })

  load-parsed :
      (path : Text) (c : Config) → parsed path ≡ ok c → load read unmarshal path ≡ validate c
  unfolding load
  load-parsed path c h = elim (Result-cases (read path)) [
    | inl (e, failed) ↦ absurd (ground (arith, h, failed))
    | inr (content, found) ↦ rw found (rw (rw found at h) refl)
  ]

module _ {E W T : Type 0} (webhook script : Action → ℤ → Text → W → Option E × W)
    (update : Text → ℤ → Text → T → Verdict × T) (new_tracker : T)
    (actions : Config → List PortActions) (poll_all : List PortConfig → W → List Polled × W) where
  -- The configuration with which the daemon ticks, and the state after so many ticks.
  abbrev pub ticked_from : Config → List Wake → W → T × W
  ticked_from d wakes w =
      tick_times webhook script update (actions d) (poll_all d.ports) (ticks wakes) new_tracker w

module _ {E W T : Type 0} (read : Text → Result Text) (unmarshal : Text → Config → Result Config)
    (webhook script : Action → ℤ → Text → W → Option E × W)
    (update : Text → ℤ → Text → T → Verdict × T) (new_tracker : T)
    (actions : Config → List PortActions) (poll_all : List PortConfig → W → List Polled × W)
    (is_canceled : Alert.Error → Bool) where
  after_run-exit_of :
      (d : Config) (wakes : List Wake) (w : W)
      → run_daemon webhook script update
          (actions d)
          d.interval
          (poll_all d.ports)
          wakes
          new_tracker
          w
        ≡ some (
          first_end wakes,
          ticked_from webhook script update new_tracker actions poll_all d wakes w,
        )
      → start read unmarshal webhook script update new_tracker actions poll_all is_canceled
          (ok d)
          wakes
          w
        ≡ exit_of is_canceled
            (first_end wakes)
            (ticked_from webhook script update new_tracker actions poll_all d wakes w)
  after_run-exit_of d wakes w h = elim (Option-cases (first_end wakes)) [
    | inl waits ↦ rw (h, waits) refl
    | inr (e, over) ↦ rw (h, over) refl
  ]

  -- Let the file be read and parsed as a configuration, with an interval of up to 18.446744073
  -- seconds. If it is not valid, the program exits with the error that `validate` reports. If it is
  -- valid and the interval is at most 9.223372036 seconds, the daemon runs with the configuration in
  -- which empty hosts are filled in, and has ticked as often as its ticker before the context ended,
  -- until when the program is running; then it ends normally if the context was cancelled, and exits
  -- with the error of the context if not. With any longer interval, such as the ten seconds that are the default, the
  -- program panics before it polls anything.
  pub main_program_lem :
      (path : Text) (c : Config) (wakes : List Wake) (w : W)
      → parsed read unmarshal path ≡ ok c
      → c.interval ≤ℤ pos 18446744073
      → let outcome =
          main_program read unmarshal webhook script update new_tracker actions poll_all is_canceled
            path wakes w in
        let d = defaulted c in
        ((¬ IsValid c) × ((e : Config.Error) × (validate c ≡ err e) × (outcome ≡ loading_failed e)))
        ⊎ (IsValid c
            × (c.interval ≤ℤ pos 9223372036)
            × (outcome
                ≡ exit_of is_canceled
                    (first_end wakes)
                    (ticked_from webhook script update new_tracker actions poll_all d wakes w)))
        ⊎ (IsValid c × (pos 9223372036 <ℤ c.interval) × (outcome ≡ panicked))
  unfolding main_program
  main_program_lem path c wakes w h bound = elim (Result-cases (validate c)) [
    | inl (e, bad) ↦
        inl (λ v. refuted c e bad v, (e, bad, rw (load-parsed read unmarshal path c h, bad) refl))
    | inr (d', good) ↦
        let v = ((validate_iff c d').0 good).0 in
        let d = defaulted c in
        let valid = (validate_iff c d).1 (v, refl) in
        let poll = poll_all d.ports in
        let loaded = load-parsed read unmarshal path c h ∙ valid in
        elim (run_daemon-validate webhook script update (actions d) poll c d wakes new_tracker w
          valid bound) [
            | inl (short, _, runs) ↦
                let loop =
                  wait_loop-tick_times webhook script update (actions d) poll wakes new_tracker w in
                inr (
                  inl (
                    v,
                    short,
                    rw loaded (after_run-exit_of d wakes w (runs ∙ ap (λ x. some x) loop)),
                  ))
            | inr (long, stops) ↦ inr (inr (v, long, rw (loaded, stops) refl))
          ]
  ]
