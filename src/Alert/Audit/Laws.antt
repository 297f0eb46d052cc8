-- ===== src/Alert/Audit/Laws.antt =====
-- The audit log has one entry for each send, and is transparent but for its readings of the clock.
use portwatch.Base.{
  ◌≡◌, refl, ap, ◌∙◌, ℤ, pos, pos_part, List, [], ◌∷◌, Text, last_n, Option, none, some, arith,
  true, false,
}
use portwatch.Alert.Notification.{Notification, Error, Dispatcher, Clock, send_all}
use portwatch.Alert.BoundedLog.{BoundedLog, push_all, push_all-empty, positive_or-pos}
use portwatch.Alert.Audit.{
  AuditLog, AuditEntry, new_audit_log, record_entry, snapshot, outcome, send,
}

audit_log : BoundedLog AuditLog AuditEntry
unfolding snapshot record_entry
audit_log = record {
  push = record_entry;
  entries = snapshot;
  room = λ a. pos_part a.capacity;
  entries-push = λ a e. refl;
  room-push = λ a e. refl;
}

-- An entry tells of one notification and of what its send returned.
pub record Tells (describe : Error → Text) (channel : Text) (n : Notification) (e : Option Error)
    (x : AuditEntry) : Type 0 where
  pub port : x.port ≡ n.port
  pub state : x.state ≡ n.state
  via : x.channel ≡ channel
  pub success : x.success ≡ elim e [ none ↦ true | some _ ↦ false ]
  pub failure : x.failure ≡ elim e [ none ↦ [] | some y ↦ describe y ]

-- An entry for each notification with its result, in order.
pub data TellsAll (describe : Error → Text) (channel : Text)
    : List Notification → List (Option Error) → List AuditEntry → Type 0 where
  nothing : TellsAll describe channel [] [] []
  entry :
      {n : Notification} {e : Option Error} {x : AuditEntry} {ns : List Notification}
      {es : List (Option Error)} {xs : List AuditEntry}
      → Tells describe channel n e x
      → TellsAll describe channel ns es xs
      → TellsAll describe channel (n ∷ ns) (e ∷ es) (x ∷ xs)

module _ {W : Type 0} (describe : Error → Text) (clock : Clock W) (channel : Text)
    (next : Dispatcher W) where
  outcome-Tells :
      (n : Notification) (now : ℤ) (e : Option Error)
      → Tells describe channel n e (outcome describe clock channel next n now e)
  unfolding outcome
  outcome-Tells n now none = record {
    port = refl;
    state = refl;
    via = refl;
    success = refl;
    failure = refl;
  }
  outcome-Tells n now (some e) = record {
    port = refl;
    state = refl;
    via = refl;
    success = refl;
    failure = refl;
  }

  send_all-pushes :
      (a : AuditLog) (ns : List Notification) (w : W)
      → let (es, (a', w')) = send_all (send describe clock channel next) ns (a, w) in
        (xs : List AuditEntry) × TellsAll describe channel ns es xs × (a' ≡ push_all audit_log a xs)
  unfolding send_all send push_all audit_log
  send_all-pushes a [] w = ([], nothing, refl)
  send_all-pushes a (n ∷ ns) w =
      let r = next n w in
      let c = clock r.1 in
      let x = outcome describe clock channel next n c.0 r.0 in
      let (xs, tells, e) = send_all-pushes (record_entry a x) ns c.1 in
      (x ∷ xs, entry (outcome-Tells n c.0 r.0) tells, e)

  -- After any sends through a new audit log, its entries are the newest, as many as its capacity
  -- allows, of a list with one entry for each send, in order: the entry has the port, the state and
  -- the channel, says whether the send succeeded as its caller was told, and has the text of the
  -- error if not.
  send_all-new_audit_log :
      (capacity : ℤ) (ns : List Notification) (w : W)
      → let a = new_audit_log capacity in
        let (es, (a', w')) = send_all (send describe clock channel next) ns (a, w) in
        (xs : List AuditEntry) × TellsAll describe channel ns es xs
        × (snapshot a' ≡ last_n (pos_part a.capacity) xs)
  unfolding new_audit_log snapshot audit_log
  send_all-new_audit_log capacity ns w =
      let (xs, tells, e) = send_all-pushes (new_audit_log capacity) ns w in
      (
        xs,
        tells,
        ap snapshot e
            ∙ push_all-empty audit_log (new_audit_log capacity) xs
                (positive_or-pos capacity (pos 256) (omega arith)) refl,
      )
