-- ===== src/Action.antt =====
-- internal/action: which actions run when the state of a port changes. The request of a webhook and
-- the command of a script are arguments, over the state `W` of all that they can touch and with the
-- errors `E` they report. What is only logged is left out.
pub mod Selection
pub mod Webhook
pub mod Effects
use portwatch.Base.{
  ℤ, List, [], ◌∷◌, Bool, ◌&&◌, not, Text, text, text_eq, int_eq, ◌==◌, Option, none, some,
  if◌then◌else◌,
}

-- The fields that the executor reads of `config.Action` and `config.PortConfig`.
pub record Action : Type 0 where
  pub kind : Text
  pub on : Text
  pub url : Text
  pub path : Text

pub record PortActions : Type 0 where
  pub port : ℤ
  pub actions : List Action

pub data ActionError (E : Type 0) : Type 0 where
  failed : E → ActionError E
  missing_path : ActionError E
  unknown_type : Text → ActionError E
  no_config : ℤ → ActionError E

-- `a.On != state && a.On != "any"`
abbrev pub is_skipped : Text → Action → Bool
is_skipped state a = not (a.on == state) && not (a.on == text "any")

module _ {E W : Type 0} (webhook script : Action → ℤ → Text → W → Option E × W) where
  abbrev pub reported : Option E × W → Option (ActionError E) × W
  reported (none, w) = (none, w)
  reported (some e, w) = (some (failed e), w)

  -- `fireScript`, whose command is `script`.
  unfoldable pub fire_script : Action → ℤ → Text → W → Option (ActionError E) × W
  fire_script a port state w =
      if a.path == [] then (some missing_path, w) else reported (script a port state w)

  -- The switch on the type of the action.
  unfoldable pub fire : Action → ℤ → Text → W → Option (ActionError E) × W
  fire a port state w =
      if a.kind == text "webhook"
      then reported (webhook a port state w)
      else if a.kind == text "script"
      then fire_script a port state w
      else (some (unknown_type a.kind), w)

  -- The loop over the actions of one port.
  unfoldable pub fire_actions : ℤ → Text → List Action → W → W
  fire_actions port state [] w = w
  fire_actions port state (a ∷ rest) w =
      let skipped = fire_actions port state rest w in
      let fired = fire_actions port state rest (fire a port state w).1 in
      if is_skipped state a then skipped else fired

  -- `Run`
  unfoldable pub run : List PortActions → ℤ → Text → W → Option (ActionError E) × W
  run [] port state w = (some (no_config port), w)
  run (pc ∷ rest) port state w =
      let later = run rest port state w in
      if not (pc.port == port) then later else (none, fire_actions port state pc.actions w)
