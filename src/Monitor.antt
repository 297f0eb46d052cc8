-- ===== src/Monitor.antt =====
-- internal/monitor/monitor.go. What the tracker's checker finds, whatever it is, is an argument of
-- `poll`; `check` is the checker by TCP.
pub mod Changes
use portwatch.Base.{
  ℤ, ◌++◌, ◌∷◌, List, [], Text, text, text_eq, format_int, Map, lookup, insert, Option, none, some,
  Bool, true, false, if◌then◌else◌,
}

pub data State : Type 0 where
  state_unknown : State
  state_open : State
  state_closed : State

-- `String`
pub name_of : State → Text
name_of state_open = text "open"
name_of state_closed = text "closed"
name_of state_unknown = text "unknown"

abbrev pub same_state : State → State → Bool
same_state state_unknown state_unknown = true
same_state state_open state_open = true
same_state state_closed state_closed = true
same_state s t = false

pub record StateChange : Type 0 where
  pub host : Text
  pub port : ℤ
  pub previous : State
  pub current : State

pub record Tracker : Type 0 where
  pub states : Map Text State
  pub timeout : ℤ

pub new_tracker : ℤ → Tracker
new_tracker timeout = record { states = []; timeout = timeout }

abbrev pub host_key : Text → ℤ → Text
host_key host port = host ++ (b':' ∷ format_int port)

abbrev state_after : {E : Type 0} → Option E → State
state_after none = state_open
state_after (some e) = state_closed

-- `(*TCPChecker).Check`; `dial` is `net.DialTimeout` with the closing of what it opens.
unfoldable pub check : {E W : Type 0} → (Text → ℤ → W → Option E × W) → Text → ℤ → ℤ → W → State × W
check dial host port timeout w =
    let (e, w') = dial (host_key host port) timeout w in (state_after e, w')

abbrev pub change_from : Text → ℤ → State → Option State → Option StateChange
change_from host port current none = none
change_from host port current (some previous) =
    if same_state previous current
    then none
    else some (record { host = host; port = port; previous = previous; current = current })

-- `Poll`, whose checker found `current`.
unfoldable pub poll : Tracker → Text → ℤ → State → Tracker × Option StateChange
poll t host port current = (
  record t { states = insert (host_key host port) current t.states },
  change_from host port current (lookup (host_key host port) t.states),
)
