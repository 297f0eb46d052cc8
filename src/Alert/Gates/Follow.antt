-- ===== src/Alert/Gates/Follow.antt =====
-- The gates follow the memory of the reference.
use portwatch.Base.{
  stored, ◌≡◌, refl, ◌∙◌, ℤ, ◌-ℤ◌, -ℤ_parts, ◌≤ℤ◌, List, [], ◌∷◌, ◌++◌, append-nil, Text, text_eq,
  text_beq_iff, ◌==◌, true, false, Option, none, some, Bool-cases, inl, inr, arith,
}
use portwatch.Alert.Notification.{Notification, Error, Dispatcher}
use portwatch.Alert.Key.{notification_key}
use portwatch.Alert.Cooldown.{CooldownGate, is_due}
use portwatch.Alert.Sliding.{
  SlidingGate, has_room, recent, Agrees, Agrees-later, next_kept, next-Agrees,
}
use portwatch.Alert.Gates.{Timed, Ordered, relay, run}

module _ {G H W : Type 0} (outer : CooldownGate G) (inner : SlidingGate H)
    (refusal : Notification → Error) (next : Dispatcher W) where
  -- The gates hold what matters of the memory from time `t` on.
  record Follows (window burst_window limit t : ℤ) (g : G) (h : H) (seen : Text → Option ℤ)
      (kept : Text → List ℤ) : Type 0 where
    same_window : outer.window g ≡ window
    same_burst_window : inner.window h ≡ burst_window
    same_limit : inner.limit h ≡ limit
    same_seen : (k : Text) → outer.seen k g ≡ seen k
    held_agrees : (k : Text) → Agrees (t -ℤ inner.window h) (inner.held k h) (kept k)

  seen-due :
      (g : G) (now : ℤ) (key j : Text) (seen : Text → Option ℤ)
      → outer.seen j g ≡ seen j
      → (outer.allow g now key).1 ≡ true
      → outer.seen j (outer.allow g now key).0 ≡ stored seen key (some now) j
  seen-due g now key j seen e due = ground (arith, e, due, outer.seen-allow g now key j)

  seen-dropped :
      (g : G) (now : ℤ) (key j : Text)
      → (outer.allow g now key).1 ≡ false
      → outer.seen j (outer.allow g now key).0 ≡ outer.seen j g
  seen-dropped g now key j early = ground (arith, early, outer.seen-allow g now key j)

  -- What one entry of the memory is after a call of the inner gate, with its answer.
  next_kept-stored :
      (h : H) (now : ℤ) (key j : Text) (kept : Text → List ℤ)
      → (inner.allow h now key).1 ≡ true
      → next_kept inner h j now key (kept j) ≡ stored kept key (kept key ++ now ∷ []) j
  next_kept-stored h now key j kept room = elim (Bool-cases (key == j)) [
    | inl same ↦ rw (room, same, (text_beq_iff key j).0 same) refl
    | inr other ↦ rw (room, other) (append-nil (kept j))
  ]

  next_kept-refused :
      (h : H) (now : ℤ) (key j : Text) (kept : Text → List ℤ)
      → (inner.allow h now key).1 ≡ false
      → next_kept inner h j now key (kept j) ≡ kept j
  next_kept-refused h now key j kept full = rw full (append-nil (kept j))

  module _ (window burst_window limit t asked passed : ℤ) (g : G) (h : H) (key : Text)
      (seen : Text → Option ℤ) (kept : Text → List ℤ) (later : t ≤ℤ passed)
      (f : Follows window burst_window limit t g h seen kept) where
    Follows-dropped :
        (outer.allow g asked key).1 ≡ false
        → Follows window burst_window limit passed (outer.allow g asked key).0 h seen kept
    Follows-dropped early = record {
      same_window = outer.window-allow g asked key ∙ f.same_window;
      same_burst_window = f.same_burst_window;
      same_limit = f.same_limit;
      same_seen = λ j. seen-dropped g asked key j early ∙ f.same_seen j;
      held_agrees = λ j.
          Agrees-later (t -ℤ inner.window h) (passed -ℤ inner.window h) (inner.held j h) (kept j)
            (omega (arith, later, -ℤ_parts t (inner.window h), -ℤ_parts passed (inner.window h)))
            (f.held_agrees j);
    }

    Follows-on :
        (kept' : Text → List ℤ)
        → (outer.allow g asked key).1 ≡ true
        → ((j : Text) → next_kept inner h j passed key (kept j) ≡ kept' j)
        → Follows window burst_window limit passed
            (outer.allow g asked key).0
            (inner.allow h passed key).0
            (stored seen key (some asked))
            kept'
    Follows-on kept' due e = record {
      same_window = outer.window-allow g asked key ∙ f.same_window;
      same_burst_window = inner.window-allow h passed key ∙ f.same_burst_window;
      same_limit = inner.limit-allow h passed key ∙ f.same_limit;
      same_seen = λ j. seen-due g asked key j seen (f.same_seen j) due;
      held_agrees = λ j.
          rw (inner.window-allow h passed key, ← e j)
            (next-Agrees inner h j t passed key (kept j) later (f.held_agrees j));
    }

    due_lem : (outer.allow g asked key).1 ≡ is_due window (seen key) asked
    due_lem = outer.allow_decides g asked key ∙ rw (f.same_window, f.same_seen key) refl

    room_lem : (inner.allow h passed key).1 ≡ has_room limit (recent burst_window passed (kept key))
    room_lem =
        rw
          (
            inner.allow_decides h passed key,
            f.held_agrees key (passed -ℤ inner.window h) (
                omega
                  (arith, later, -ℤ_parts t (inner.window h), -ℤ_parts passed (inner.window h))),
            f.same_burst_window,
            f.same_limit,
          )
          refl

  run-relay :
      (window burst_window limit t : ℤ) (sends : List Timed) (g : G) (h : H)
      → (seen : Text → Option ℤ) (kept : Text → List ℤ) (w : W) → Ordered t sends
      → Follows window burst_window limit t g h seen kept
      → run outer inner refusal next sends g h w
        ≡ relay window burst_window limit refusal next seen kept sends w
  unfolding run relay
  run-relay window burst_window limit t [] g h seen kept w o f = refl
  run-relay window burst_window limit t ((asked, (passed, n)) ∷ sends) g h seen kept w
        (first, (second, o)) f =
      let key = notification_key n in
      let later : t ≤ℤ passed = omega (arith, first, second) in
      let due = due_lem window burst_window limit t asked passed g h key seen kept later f in
      let room = room_lem window burst_window limit t asked passed g h key seen kept later f in
      let g' = (outer.allow g asked key).0 in
      let h' = (inner.allow h passed key).0 in
      let on = Follows-on window burst_window limit t asked passed g h key seen kept later f in
      elim (Bool-cases (outer.allow g asked key).1) [
        | inl yes_due ↦ elim (Bool-cases (inner.allow h passed key).1) [
          | inl free ↦
              let (e, w') = next n w in
              rw
                (
                  ← due,
                  yes_due,
                  ← room,
                  free,
                  run-relay window burst_window limit passed sends g' h'
                      (stored seen key (some asked)) (stored kept key (kept key ++ passed ∷ [])) w'
                      o
                      (on (stored kept key (kept key ++ passed ∷ [])) yes_due
                        (λ j. next_kept-stored h passed key j kept free)),
                )
                refl
          | inr full ↦
              rw
                (
                  ← due,
                  yes_due,
                  ← room,
                  full,
                  run-relay window burst_window limit passed sends g' h'
                      (stored seen key (some asked)) kept w o
                      (on kept yes_due (λ j. next_kept-refused h passed key j kept full)),
                )
                refl
        ]
        | inr early ↦
            rw
              (
                ← due,
                early,
                run-relay window burst_window limit passed sends g' h seen kept w o (
                    Follows-dropped window burst_window limit t asked passed g h key seen kept later
                      f early),
              )
              refl
      ]

  -- From gates on that have seen nothing.
  pub run-relay_new :
      (t : ℤ) (sends : List Timed) (g : G) (h : H) (w : W)
      → Ordered t sends
      → ((k : Text) → outer.seen k g ≡ none)
      → ((k : Text) → inner.held k h ≡ [])
      → run outer inner refusal next sends g h w
        ≡ relay
            (outer.window g)
            (inner.window h)
            (inner.limit h)
            refusal
            next
            (λ _. none)
            (λ _. [])
            sends
            w
  run-relay_new t sends g h w o fresh empty =
      run-relay (outer.window g) (inner.window h) (inner.limit h) t sends g h (λ _. none) (λ _. [])
        w o
        (record {
          same_window = refl;
          same_burst_window = refl;
          same_limit = refl;
          same_seen = fresh;
          held_agrees = λ j. rw (empty j) (λ c le. refl);
        })
