-- ===== src/Daemon/Outside.antt =====
-- What the ticks of the daemon do outside, with the webhooks and scripts of package action.
use portwatch.Base.{◌≡◌, refl, ap, ◌∙◌, ℤ, List, [], ◌∷◌, ◌++◌, Text, Option, ◌⊎◌}
use portwatch.Action.{PortActions}
use portwatch.Action.Selection.{fire_each}
use portwatch.Base.Http.{Request, Reply}
use portwatch.Action.Effects.{
  Effect, all_effects, perform, webhook, script, perform-append, fire_each-all_effects,
}
use portwatch.Daemon.{Polled, Verdict, tick}
use portwatch.Daemon.Changes.{updated, changes_in, actions_for, fire_changes, tick-changes_in}

module _ {E W T : Type 0} (marshal : ℤ → Text → E ⊎ Text) (refuse : Text → Option E)
    (post : Request → W → Reply E × W) (execute : Text → List Text → W → Option E × W)
    (update : Text → ℤ → Text → T → Verdict × T) (cfg : List PortActions) where
  -- What changes of ports ask for, in order.
  abbrev pub change_effects : List (ℤ × Text) → List Effect
  change_effects [] = []
  change_effects (c ∷ cs) =
      all_effects marshal refuse c.0 c.1 (actions_for cfg c) ++ change_effects cs

  abbrev pub performed : List Effect → W → W
  performed = perform marshal refuse post execute

  abbrev pub do_tick : (W → List Polled × W) → T → W → T × W
  do_tick =
      tick (webhook marshal refuse post execute) (script marshal refuse post execute) update cfg

  fire_changes-change_effects :
      (cs : List (ℤ × Text)) (w : W)
      → fire_changes
          (webhook marshal refuse post execute)
          (script marshal refuse post execute)
          update
          cfg
          cs
          w
        ≡ performed (change_effects cs) w
  unfolding perform
  fire_changes-change_effects [] w = refl
  fire_changes-change_effects (c ∷ cs) w =
      fire_changes-change_effects cs (
        fire_each (webhook marshal refuse post execute) (script marshal refuse post execute) c.0 c.1
          (actions_for cfg c) w)
      ∙ rw
          (
            perform-append marshal refuse post execute
                (all_effects marshal refuse c.0 c.1 (actions_for cfg c)),
            fire_each-all_effects marshal refuse post execute c.0 c.1 (actions_for cfg c) w,
          )
          refl

  -- A tick hands every result of the poll to the tracker, in order. For each change that the tracker
  -- sees, and for nothing else, it takes the actions that the first entry of that port has for the
  -- new state or for any, and does for each, in order and whatever comes back: one POST of the
  -- encoded port and state to the URL of a webhook, unless there is no URL, the encoding fails or the
  -- request is refused; one command with the port and the state as arguments for a script with a path;
  -- nothing for any other type.
  pub tick-change_effects :
      (poll_all : W → List Polled × W) (t : T) (w : W)
      → let (results, w') = poll_all w in
        do_tick poll_all t w
        ≡ (updated update results t, performed (change_effects (changes_in update results t)) w')
  tick-change_effects poll_all t w =
      let (results, w') = poll_all w in
      tick-changes_in (webhook marshal refuse post execute) (script marshal refuse post execute)
        update cfg poll_all t w
      ∙ ap (λ (v : W). (updated update results t, v))
          (fire_changes-change_effects (changes_in update results t) w')
