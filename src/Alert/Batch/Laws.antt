-- ===== src/Alert/Batch/Laws.antt =====
-- No notification is lost, repeated or reordered on its way into the batches.
use portwatch.Base.{
  ◌<◌, ◌≡◌, refl, ap, subst, sym, ◌∙◌, pos, ◌≤ℤ◌, ◌<ℤ◌, leb_ℤ, List, [], ◌∷◌, ◌++◌, append_assoc,
  append-nil, length, length-append, All, Bool, true, false, not, ◌&&◌, ◌||◌, ◌⊎◌, Bool-cases, inl,
  inr, arith,
}
use portwatch.Alert.Notification.{Notification}
use portwatch.Alert.BoundedLog.{positive_or-pos}
use portwatch.Alert.Batch.{
  BatchPolicy, Batcher, new_batcher, snap, flush, add, Event, adding, ticked, ctx_done, step,
}

-- Events in order: the batcher, whether `Run` still waits, and the batches.
pub run : Batcher → Bool → List Event → Batcher × Bool × List (List Notification)
run b waits [] = (b, waits, [])
run b waits (e ∷ events) =
    let (b', waits', out) = step b waits e in
    let (b'', waits'', more) = run b' waits' events in (b'', waits'', out ++ more)

abbrev added_by : Event → List Notification
added_by (adding n) = n ∷ []
added_by ticked = []
added_by ctx_done = []

abbrev pub added : List Event → List Notification
added [] = []
added (e ∷ events) = added_by e ++ added events

abbrev is_end : Event → Bool
is_end (adding n) = false
is_end ticked = false
is_end ctx_done = true

-- Whether the context ends among the events.
abbrev pub ends : List Event → Bool
ends [] = false
ends (e ∷ events) = is_end e || ends events

abbrev pub join : List (List Notification) → List Notification
join [] = []
join (ns ∷ batches) = ns ++ join batches

join-append : (xs ys : List (List Notification)) → join (xs ++ ys) ≡ join xs ++ join ys
join-append [] ys = refl
join-append (x ∷ xs) ys = rw (join-append xs ys, append_assoc) refl

join-snap : (ns : List Notification) → join (snap ns) ≡ ns
join-snap [] = refl
join-snap (n ∷ ns) = rw append-nil refl

-- A batch is not empty, and not longer than the policy allows.
abbrev pub Fits : BatchPolicy → List Notification → Type 0
Fits p ns = (0 < length ns) × (pos (length ns) ≤ℤ p.max_size)

-- What a call leaves and hands over.
record Ok (b : Batcher) (ns : List Notification) (r : Batcher × List (List Notification))
    : Type 0 where
  kept : join r.1 ++ r.0.buf ≡ b.buf ++ ns
  fits : All (Fits b.policy) r.1
  room : pos (length r.0.buf) <ℤ b.policy.max_size
  policy : r.0.policy ≡ b.policy

snap-Fits :
    (p : BatchPolicy) (ns : List Notification)
    → pos (length ns) ≤ℤ p.max_size
    → All (Fits p) (snap ns)
snap-Fits p [] h = tt
snap-Fits p (n ∷ ns) h = ((omega arith, h), tt)

All-append : {A : Type 0} (P : A → Type 0) (xs ys : List A) → All P xs → All P ys → All P (xs ++ ys)
All-append P [] ys h k = k
All-append P (x ∷ xs) ys h k = (h.0, All-append P xs ys h.1 k)

flush-Ok : (b : Batcher) → pos (length b.buf) <ℤ b.policy.max_size → Ok b [] (flush b)
unfolding flush
flush-Ok b room = record {
  kept = rw (append-nil, join-snap, append-nil) refl;
  fits = snap-Fits b.policy b.buf (omega arith);
  room = omega arith;
  policy = refl;
}

add-Ok :
    (b : Batcher) (n : Notification)
    → pos (length b.buf) <ℤ b.policy.max_size
    → Ok b (n ∷ []) (add b n)
unfolding add flush
add-Ok b n room = elim (Bool-cases (leb_ℤ b.policy.max_size (pos (length (b.buf ++ (n ∷ [])))))) [
  | inl full ↦ rw full (record {
    kept = rw (append-nil, join-snap) refl;
    fits =
        snap-Fits b.policy (b.buf ++ (n ∷ [])) (ground (arith, room, length-append b.buf (n ∷ [])));
    room = ground (arith, room);
    policy = refl;
  })
  | inr part ↦
      rw part (record { kept = refl; fits = tt; room = ground (arith, part); policy = refl })
]

Ok-then :
    (b : Batcher) (xs ys : List Notification) (r s : Batcher × List (List Notification))
    → Ok b xs r
    → Ok r.0 ys s
    → Ok b (xs ++ ys) (s.0, r.1 ++ s.1)
Ok-then b xs ys r s h k = record {
  kept =
      rw (join-append, append_assoc, k.kept)
        (sym (append_assoc (join r.1) r.0.buf ys)
          ∙ ap (λ z. z ++ ys) h.kept
          ∙ append_assoc b.buf xs ys);
  fits = All-append (Fits b.policy) r.1 s.1 h.fits (subst (λ p. All (Fits p) s.1) h.policy k.fits);
  room = ground (arith, k.room, h.policy);
  policy = k.policy ∙ h.policy;
}

idle-Ok : (b : Batcher) → pos (length b.buf) <ℤ b.policy.max_size → Ok b [] (b, [])
idle-Ok b room = record { kept = rw append-nil refl; fits = tt; room = room; policy = refl }

step-Ok :
    (b : Batcher) (waits : Bool) (e : Event)
    → pos (length b.buf) <ℤ b.policy.max_size
    → let (b', waits', out) = step b waits e in
      Ok b (added_by e) (b', out) × (waits' ≡ waits && not (is_end e))
unfolding step
step-Ok b true (adding n) room = (add-Ok b n room, refl)
step-Ok b false (adding n) room = (add-Ok b n room, refl)
step-Ok b true ticked room = (flush-Ok b room, refl)
step-Ok b true ctx_done room = (flush-Ok b room, refl)
step-Ok b false ticked room = (idle-Ok b room, refl)
step-Ok b false ctx_done room = (idle-Ok b room, refl)

run-Ok :
    (b : Batcher) (waits : Bool) (events : List Event)
    → pos (length b.buf) <ℤ b.policy.max_size
    → let (b', waits', out) = run b waits events in
      Ok b (added events) (b', out) × (waits' ≡ waits && not (ends events))
unfolding run
run-Ok b waits [] room = (idle-Ok b room, ground arith)
run-Ok b waits (e ∷ events) room =
    let (ok, w) = step-Ok b waits e room in
    let (b', waits', out) = step b waits e in
    let (ok', w') = run-Ok b' waits' events (ground (arith, ok.room, ok.policy)) in
    let (b'', waits'', more) = run b' waits' events in
    (Ok-then b (added_by e) (added events) (b', out) (b'', more) ok ok', ground (arith, w, w'))

-- After any calls of `Add`, ticks of `Run` and ends of its context, from a new batcher on, the
-- batches handed over, in order, and then the buffer hold exactly the notifications added, each once
-- and in order; no batch is empty or longer than the maximal size, and the buffer is shorter than
-- that. `Run` waits until the context ends; that end hands over what is left, so that the batches
-- hold everything added and the buffer is empty.
pub run-new_batcher :
    (p : BatchPolicy) (events : List Event)
    → let b = new_batcher p in
      let (b', waits, batches) = run b true events in
      let (b'', _, last) = step b' waits ctx_done in
      (join batches ++ b'.buf ≡ added events)
      × All (Fits b.policy) batches
      × (pos (length b'.buf) <ℤ b.policy.max_size)
      × (waits ≡ not (ends events))
      × ((waits ≡ false) ⊎ ((join (batches ++ last) ≡ added events) × (b''.buf ≡ [])))
unfolding new_batcher step flush
run-new_batcher p events =
    let (ok, w) =
      run-Ok (new_batcher p) true events (ground (arith, positive_or-pos p.max_size (pos 10))) in
    let (b', waits, batches) = run (new_batcher p) true events in
    (
      ok.kept,
      ok.fits,
      ok.room,
      w,
      elim (Bool-cases waits) [
        | inl on ↦ inr (rw (on, join-append, join-snap) ok.kept, rw on refl)
        | inr off ↦ inl off
      ],
    )
