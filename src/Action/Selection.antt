-- ===== src/Action/Selection.antt =====
-- The actions that a run of the executor fires.
use portwatch.Base.{
  ℤ, ◌≡◌, refl, List, [], ◌∷◌, keep, Bool, not, Text, Option, none, some, Bool-cases, inl, inr,
  int_eq, ◌==◌, if◌then◌else◌,
}
use portwatch.Action.{
  Action, PortActions, ActionError, no_config, is_skipped, fire, fire_actions, run,
}

-- Whether an action is for this state.
abbrev pub is_for : Text → Action → Bool
is_for state a = not (is_skipped state a)

-- The actions of the first entry of the port, if there is one.
abbrev pub actions_of : ℤ → List PortActions → Option (List Action)
actions_of port [] = none
actions_of port (pc ∷ rest) =
    let later = actions_of port rest in if pc.port == port then some pc.actions else later

module _ {E W : Type 0} (webhook script : Action → ℤ → Text → W → Option E × W) where
  -- Every one of the actions is fired, in order, whatever the earlier ones report.
  unfoldable pub fire_each : ℤ → Text → List Action → W → W
  fire_each port state [] w = w
  fire_each port state (a ∷ rest) w =
      fire_each port state rest (fire webhook script a port state w).1

  abbrev run_for : ℤ → Text → Option (List Action) → W → Option (ActionError E) × W
  run_for port state none w = (some (no_config port), w)
  run_for port state (some actions) w = (none, fire_each port state (keep (is_for state) actions) w)

  fire_actions-keep :
      (port : ℤ) (state : Text) (actions : List Action) (w : W)
      → fire_actions webhook script port state actions w
        ≡ fire_each port state (keep (is_for state) actions) w
  unfolding fire_actions fire_each
  fire_actions-keep port state [] w = refl
  fire_actions-keep port state (a ∷ rest) w = elim (Bool-cases (is_skipped state a)) [
    | inl skipped ↦ rw (skipped, fire_actions-keep port state rest w) refl
    | inr mine ↦
        rw (mine, fire_actions-keep port state rest (fire webhook script a port state w).1) refl
  ]

  -- A run for a port and its new state fires the actions of the first entry with that port which are
  -- for that state or for any, each once and in order, whatever they report, and returns nil; without
  -- such an entry it touches nothing and reports the port.
  pub run-actions_of :
      (cfg : List PortActions) (port : ℤ) (state : Text) (w : W)
      → run webhook script cfg port state w ≡ run_for port state (actions_of port cfg) w
  unfolding run
  run-actions_of [] port state w = refl
  run-actions_of (pc ∷ rest) port state w = elim (Bool-cases (pc.port == port)) [
    | inl here ↦ rw (here, fire_actions-keep port state pc.actions w) refl
    | inr elsewhere ↦ rw (elsewhere, run-actions_of rest port state w) refl
  ]
