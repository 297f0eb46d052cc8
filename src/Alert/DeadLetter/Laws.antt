-- ===== src/Alert/DeadLetter/Laws.antt =====
-- The queue holds the sends that failed last.
use portwatch.Base.{
  ◌≡◌, refl, ap, ◌∙◌, pos, pos_part, List, [], ◌∷◌, last_n, Option, none, some, arith,
}
use portwatch.Alert.Notification.{Notification, Error, Dispatcher, Clock, send_all}
use portwatch.Alert.BoundedLog.{BoundedLog, push_all, push_all-empty, positive_or-pos}
use portwatch.Alert.DeadLetter.{
  DeadLetterQueue, DeadLetterPolicy, DeadLetterEntry, new_dead_letter_queue, record_failure,
  snapshot, settle, send,
}

push_entry : DeadLetterQueue → DeadLetterEntry → DeadLetterQueue
push_entry q x = record_failure q x.notification x.err x.failed_at

dead_letter_log : BoundedLog DeadLetterQueue DeadLetterEntry
unfolding snapshot record_failure push_entry
dead_letter_log = record {
  push = push_entry;
  entries = snapshot;
  room = λ q. pos_part q.capacity;
  entries-push = λ q x. refl;
  room-push = λ q x. refl;
}

-- The notifications whose send failed, each with its error, in order.
abbrev pub failures : List Notification → List (Option Error) → List (Notification × Error)
failures [] es = []
failures (n ∷ ns) [] = []
failures (n ∷ ns) (none ∷ es) = failures ns es
failures (n ∷ ns) (some e ∷ es) = (n, e) ∷ failures ns es

abbrev letters : List DeadLetterEntry → List (Notification × Error)
letters [] = []
letters (x ∷ xs) = (x.notification, x.err) ∷ letters xs

module _ {W : Type 0} (clock : Clock W) (next : Dispatcher W) where
  -- What sends leave in the queue, against what they return.
  abbrev Pushes :
      DeadLetterQueue → List Notification → List (Option Error) × (DeadLetterQueue × W) → Type 0
  Pushes q ns r =
      (xs : List DeadLetterEntry) × (letters xs ≡ failures ns r.0)
      × (r.1.0 ≡ push_all dead_letter_log q xs)

  push_step :
      (q : DeadLetterQueue) (n : Notification) (ns : List Notification) (r : Option Error × W)
      → ((q' : DeadLetterQueue) (w' : W) → Pushes q' ns (send_all (send clock next) ns (q', w')))
      → let s = settle clock next q n r in
        let t = send_all (send clock next) ns s.1 in Pushes q (n ∷ ns) (s.0 ∷ t.0, t.1)
  unfolding settle push_all dead_letter_log push_entry
  push_step q n ns (none, w) ih = ih q w
  push_step q n ns (some e, w) ih =
      let x : DeadLetterEntry = record { notification = n; err = e; failed_at = (clock w).0 } in
      let (xs, l, p) = ih (record_failure q n e (clock w).0) (clock w).1 in
      (x ∷ xs, ap (◌∷◌ (n, e)) l, p)

  send_all-Pushes :
      (q : DeadLetterQueue) (ns : List Notification) (w : W)
      → Pushes q ns (send_all (send clock next) ns (q, w))
  unfolding send_all push_all send
  send_all-Pushes q [] w = ([], refl, refl)
  send_all-Pushes q (n ∷ ns) w = push_step q n ns (next n w) (λ q' w'. send_all-Pushes q' ns w')

  -- After any sends through a new queue, it holds the newest, as many as its capacity allows, of a
  -- list with one entry for each send that failed, in order, with the notification and the error
  -- that its caller got, and none for a send that succeeded.
  send_all-new_dead_letter_queue :
      (p : DeadLetterPolicy) (ns : List Notification) (w : W)
      → let q = new_dead_letter_queue p in
        let (es, (q', w')) = send_all (send clock next) ns (q, w) in
        (xs : List DeadLetterEntry) × (letters xs ≡ failures ns es)
        × (snapshot q' ≡ last_n (pos_part q.capacity) xs)
  unfolding new_dead_letter_queue snapshot dead_letter_log
  send_all-new_dead_letter_queue p ns w =
      let (xs, l, e) = send_all-Pushes (new_dead_letter_queue p) ns w in
      (
        xs,
        l,
        ap snapshot e
            ∙ push_all-empty dead_letter_log (new_dead_letter_queue p) xs
                (positive_or-pos p.capacity (pos 100) (omega arith)) refl,
      )
