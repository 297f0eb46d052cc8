-- ===== src/Alert/Escalation.antt =====
-- internal/alert/escalation.go and escalation_dispatcher.go. `now` is what the clock reads under the
-- mutex.
pub mod Laws
use portwatch.Base.{
  ℕ, ◌+◌, ℤ, pos, leb_ℤ, time_sub, Text, text, text_eq, ◌==◌, Map, lookup, insert, delete, List, [],
  ◌∷◌, Bool, true, false, ◌&&◌, if◌then◌else◌, Option, none, some,
}
use portwatch.Alert.Notification.{Notification, Error, Dispatcher, Clock}
use portwatch.Alert.Key.{escalation_key}

pub record EscalationPolicy : Type 0 where
  pub threshold : ℤ
  pub min_duration : ℤ

abbrev default_escalation_policy : EscalationPolicy
default_escalation_policy = record { threshold = pos 3; min_duration = pos 300_000_000_000 }

pub record EscalationState : Type 0 where
  pub count : ℕ
  pub first_seen : ℤ

pub record Escalator : Type 0 where
  pub policy : EscalationPolicy
  pub state : Map Text EscalationState

pub new_escalator : EscalationPolicy → Escalator
new_escalator policy = record { policy = policy; state = [] }

-- The entry that `Record` leaves, and its answer, given the one that it found.
abbrev pub count_failure : EscalationPolicy → ℤ → Option EscalationState → EscalationState × Bool
count_failure p now none = (record { count = 1; first_seen = now }, false)
count_failure p now (some s) = (
  record s { count = s.count + 1 },
  leb_ℤ p.threshold (pos (s.count + 1)) && leb_ℤ p.min_duration (time_sub now s.first_seen),
)

-- `Record`
unfoldable pub record_failure : Escalator → ℤ → Text → Escalator × Bool
record_failure e now key =
    let (s, reached) = count_failure e.policy now (lookup key e.state) in
    (record e { state = insert key s e.state }, reached)

unfoldable pub reset : Escalator → Text → Escalator
reset e key = record e { state = delete key e.state }

abbrev count_of : Option EscalationState → ℕ
count_of none = 0
count_of (some s) = s.count

unfoldable pub count : Escalator → Text → ℕ
count e key = count_of (lookup key e.state)

module _ {W : Type 0} (clock : Clock W) (primary escalation : Dispatcher W) where
  -- `Send` after the primary has accepted.
  unfoldable pub escalate : Dispatcher (Escalator × W)
  escalate n (e, w) =
      let (now, w') = clock w in
      let (e', reached) = record_failure e now (escalation_key n) in
      let (ignored, w'') = escalation n w' in
      if n.state == text "closed"
      then (none, (e', if reached then w'' else w'))
      else (none, (reset e (escalation_key n), w))

  abbrev pub unless_failed :
      Notification → Escalator → Option Error × W → Option Error × (Escalator × W)
  unless_failed n e (some err, w) = (some err, (e, w))
  unless_failed n e (none, w) = escalate n (e, w)

  unfoldable pub send : Dispatcher (Escalator × W)
  send n (e, w) = unless_failed n e (primary n w)

-- `NewEscalationDispatcher`, with the escalator that it makes.
new_escalation_dispatcher :
    {W : Type 0}
    → Clock W
    → Dispatcher W
    → Dispatcher W
    → EscalationPolicy
    → Dispatcher (Escalator × W) × Escalator
new_escalation_dispatcher clock primary escalation policy =
    (send clock primary escalation, new_escalator policy)
