-- ===== src/Alert/Checkpoint/Laws.antt =====
-- What can be looked up after any records.
use portwatch.Base.{
  ◌≡◌, refl, ℤ, Text, text_eq, int_eq, lookup, lookup-insert, List, [], ◌∷◌, Bool-cases, inl, inr,
  if◌then◌else◌, Option, none, some,
}
use portwatch.Alert.Notification.{Notification}
use portwatch.Alert.Key.{throttle_key, is_about, same_key}
use portwatch.Alert.Checkpoint.{
  CheckpointPolicy, CheckpointEntry, Checkpointer, new_checkpointer, record_notification,
  unless_expired, latest,
}

pub record_all : Checkpointer → List (ℤ × Notification) → Checkpointer
record_all c [] = c
record_all c (x ∷ calls) = record_all (record_notification c x.0 x.1) calls

-- The last of the records about the port and the state, with its time.
abbrev pub newest :
    ℤ → Text → Option CheckpointEntry → List (ℤ × Notification) → Option CheckpointEntry
newest port state last [] = last
newest port state last (x ∷ calls) =
    let hit = newest port state (some (record { notification = x.1; at = x.0 })) calls in
    let miss = newest port state last calls in if is_about port state x.1 then hit else miss

lookup-record_all :
    (c : Checkpointer) (port : ℤ) (state : Text) (calls : List (ℤ × Notification))
    → lookup (throttle_key port state) (record_all c calls).store
      ≡ newest port state (lookup (throttle_key port state) c.store) calls
unfolding record_all record_notification
lookup-record_all c port state [] = refl
lookup-record_all c port state (x ∷ calls) = elim (Bool-cases (is_about port state x.1)) [
  | inl hit ↦
      rw
        (
          lookup-record_all (record_notification c x.0 x.1) port state calls,
          lookup-insert,
          same_key,
          hit,
        )
        refl
  | inr miss ↦
      rw
        (
          lookup-record_all (record_notification c x.0 x.1) port state calls,
          lookup-insert,
          same_key,
          miss,
        )
        refl
]

policy-record_all :
    (c : Checkpointer) (calls : List (ℤ × Notification)) → (record_all c calls).policy ≡ c.policy
unfolding record_all record_notification
policy-record_all c [] = refl
policy-record_all c (x ∷ calls) = policy-record_all (record_notification c x.0 x.1) calls

-- After any records from a new checkpointer on, `Latest` finds the last notification recorded with
-- the port and the state asked for, and none if there is none or, for a policy with a maximal age,
-- if it was recorded longer ago than that.
latest-record_all :
    (p : CheckpointPolicy) (calls : List (ℤ × Notification)) (now port : ℤ) (state : Text)
    → latest (record_all (new_checkpointer p) calls) now port state
      ≡ unless_expired p now (newest port state none calls)
unfolding latest new_checkpointer lookup
latest-record_all p calls now port state =
    rw
      (
        policy-record_all (new_checkpointer p) calls,
        lookup-record_all (new_checkpointer p) port state calls,
      )
      refl
