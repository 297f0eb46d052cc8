-- ===== src/Alert/Audit.antt =====
-- internal/alert/audit.go and audit_dispatcher.go. `err.Error()` is the argument `describe`.
pub mod Laws
use portwatch.Base.{
  ℤ, pos, pos_part, List, [], Text, push_bounded, Option, none, some, Bool, true, false,
}
use portwatch.Alert.Notification.{Notification, Error, Dispatcher, Clock, wrap}
use portwatch.Alert.BoundedLog.{positive_or}

pub record AuditEntry : Type 0 where
  pub timestamp : ℤ
  pub port : ℤ
  pub state : Text
  pub channel : Text
  pub success : Bool
  pub failure : Text

-- `cap` is spelled `capacity`.
pub record AuditLog : Type 0 where
  pub entries : List AuditEntry
  pub capacity : ℤ

abbrev default_audit_capacity : ℤ
default_audit_capacity = pos 256

pub new_audit_log : ℤ → AuditLog
new_audit_log c = record { entries = []; capacity = positive_or c default_audit_capacity }

pub record_entry : AuditLog → AuditEntry → AuditLog
record_entry a e = record a { entries = push_bounded (pos_part a.capacity) a.entries e }

pub snapshot : AuditLog → List AuditEntry
snapshot a = a.entries

-- `(*AuditDispatcher).Send`
module _ {W : Type 0} (describe : Error → Text) (clock : Clock W) (channel : Text)
    (next : Dispatcher W) where
  pub outcome : Notification → ℤ → Option Error → AuditEntry
  outcome n now none = record {
    timestamp = now;
    port = n.port;
    state = n.state;
    channel = channel;
    success = true;
    failure = [];
  }
  outcome n now (some e) = record {
    timestamp = now;
    port = n.port;
    state = n.state;
    channel = channel;
    success = false;
    failure = describe e;
  }

  pub send : Dispatcher (AuditLog × W)
  unfolding outcome
  send n (a, w) =
      let (e, w') = next n w in
      let (now, w'') = clock w' in (e, (record_entry a (outcome n now e), w''))

-- `NewAuditDispatcher`
new_audit_dispatcher :
    {W : Type 0}
    → (Error → Text)
    → Clock W
    → Text
    → Option (Dispatcher W)
    → Option AuditLog
    → Option (Dispatcher (AuditLog × W) × AuditLog)
new_audit_dispatcher describe clock channel = wrap (send describe clock channel)
