-- ===== src/Daemon/Changes.antt =====
-- The actions that a tick fires.
use portwatch.Base.{
  ℤ, ◌≡◌, refl, List, [], ◌∷◌, keep, Text, Option, none, some, Bool-cases, Option-cases,
  if◌then◌else◌, inl, inr,
}
use portwatch.Action.{Action, PortActions, run}
use portwatch.Action.Selection.{is_for, actions_of, fire_each, run-actions_of}
use portwatch.Daemon.{Polled, Verdict, handle_results, tick}

abbrev and_change : Verdict → ℤ → List (ℤ × Text) → List (ℤ × Text)
and_change v port rest = if v.changed then (port, v.current) ∷ rest else rest

module _ {T : Type 0} (update : Text → ℤ → Text → T → Verdict × T) where
  -- The changes that the tracker sees in these results, each a port and its new state.
  abbrev pub changes_in : List Polled → T → List (ℤ × Text)
  changes_in [] t = []
  changes_in (r ∷ rest) t =
      let (v, t') = update r.host r.port r.state t in and_change v r.port (changes_in rest t')

  -- The tracker after them.
  abbrev pub updated : List Polled → T → T
  updated [] t = t
  updated (r ∷ rest) t = updated rest (update r.host r.port r.state t).1

abbrev pub chosen : Text → Option (List Action) → List Action
chosen state none = []
chosen state (some actions) = keep (is_for state) actions

-- The actions that the configuration has for a change.
abbrev pub actions_for : List PortActions → ℤ × Text → List Action
actions_for cfg c = chosen c.1 (actions_of c.0 cfg)

module _ {E W T : Type 0} (webhook script : Action → ℤ → Text → W → Option E × W)
    (update : Text → ℤ → Text → T → Verdict × T) (cfg : List PortActions) where
  abbrev pub fire_changes : List (ℤ × Text) → W → W
  fire_changes [] w = w
  fire_changes (c ∷ cs) w = fire_changes cs (fire_each webhook script c.0 c.1 (actions_for cfg c) w)

  run-actions_for :
      (port : ℤ) (state : Text) (w : W)
      → (run webhook script cfg port state w).1
        ≡ fire_each webhook script port state (actions_for cfg (port, state)) w
  unfolding fire_each
  run-actions_for port state w = elim (Option-cases (actions_of port cfg)) [
    | inl missing ↦ rw (run-actions_of webhook script cfg port state w, missing) refl
    | inr (actions, found) ↦ rw (run-actions_of webhook script cfg port state w, found) refl
  ]

  handle_results_lem :
      (results : List Polled) (t : T) (w : W)
      → handle_results webhook script update cfg results t w
        ≡ (updated update results t, fire_changes (changes_in update results t) w)
  unfolding handle_results
  handle_results_lem [] t w = refl
  handle_results_lem (r ∷ rest) t w =
      let (v, t') = update r.host r.port r.state t in
      elim (Bool-cases v.changed) [
        | inl changed ↦
            rw
              (
                changed,
                handle_results_lem rest t' (run webhook script cfg r.port v.current w).1,
                run-actions_for r.port v.current w,
              )
              refl
        | inr same ↦ rw (same, handle_results_lem rest t' w) refl
      ]

  -- A tick hands every result of the poll to the tracker, in order, and for each change that the
  -- tracker sees, and for nothing else, fires the actions that the first entry of that port has for
  -- the new state or for any, in order and whatever they report; a port without an entry fires none.
  pub tick-changes_in :
      (poll_all : W → List Polled × W) (t : T) (w : W)
      → let (results, w') = poll_all w in
        tick webhook script update cfg poll_all t w
        ≡ (updated update results t, fire_changes (changes_in update results t) w')
  unfolding tick
  tick-changes_in poll_all t w = handle_results_lem (poll_all w).0 t (poll_all w).1
