-- ===== src/Alert/Tap/Laws.antt =====
-- The tap is transparent, and holds what passed last.
use portwatch.Base.{◌≡◌, refl, pos, pos_part, List, [], ◌∷◌, last_n, Option, arith}
use portwatch.Alert.Notification.{Notification, Dispatcher, send_all}
use portwatch.Alert.BoundedLog.{BoundedLog, push_all, push_all-empty, positive_or-pos}
use portwatch.Alert.Tap.{Tap, TapPolicy, new_tap, given, record_notification, snapshot, send}

tap_log : BoundedLog Tap Notification
unfolding snapshot record_notification
tap_log = record {
  push = record_notification;
  entries = snapshot;
  room = λ t. pos_part t.policy.max_capacity;
  entries-push = λ t n. refl;
  room-push = λ t n. refl;
}

module _ {W : Type 0} (next : Dispatcher W) where
  send_all-tap :
      (t : Tap) (ns : List Notification) (w : W)
      → send_all (send next) ns (t, w)
        ≡ ((send_all next ns w).0, (push_all tap_log t ns, (send_all next ns w).1))
  unfolding send_all send push_all tap_log
  send_all-tap t [] w = refl
  send_all-tap t (n ∷ ns) w = rw (send_all-tap (record_notification t n) ns (next n w).1)

  -- Sending through a new tap returns and does what sending to the downstream does, and leaves in
  -- the tap the newest of the notifications, sent or failed, as many as its capacity allows.
  send_all-new_tap :
      (policy : Option TapPolicy) (ns : List Notification) (w : W)
      → let t = new_tap policy in
        let (es, (t', w')) = send_all (send next) ns (t, w) in
        ((es, w') ≡ send_all next ns w) × (snapshot t' ≡ last_n (pos_part t.policy.max_capacity) ns)
  unfolding new_tap snapshot tap_log
  send_all-new_tap policy ns w = rw (send_all-tap (new_tap policy) ns w) (
    refl,
    push_all-empty tap_log (new_tap policy) ns
        (positive_or-pos (given policy).max_capacity (pos 256) (omega arith)) refl,
  )
