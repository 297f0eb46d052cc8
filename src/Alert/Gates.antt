-- ===== src/Alert/Gates.antt =====
-- A gate that drops in silence over one that refuses, as those of dedup_dispatcher.go and
-- throttle_dispatcher.go (internal/alert) may stand, against a memory that forgets nothing.
pub mod Follow
pub mod Stacked
use portwatch.Base.{
  stored, ◌≡◌, refl, ◌∙◌, ℤ, pos, ◌-ℤ◌, -ℤ_parts, ◌≤ℤ◌, List, [], ◌∷◌, ◌++◌, append-nil, keep, Text,
  text_eq, text_beq_iff, ◌==◌, Bool, true, false, not, Option, none, some, Bool-cases, inl, inr,
  if◌then◌else◌, arith,
}
use portwatch.Alert.Notification.{Notification, Error, Dispatcher}
use portwatch.Alert.Key.{notification_key}
use portwatch.Alert.Cooldown.{CooldownGate, is_due}
use portwatch.Alert.Sliding.{
  SlidingGate, has_room, recent, Agrees, Agrees-later, next_kept, next-Agrees,
}

-- A send, with what the outer gate reads from the clock and what the inner one reads after it.
abbrev pub Timed : Type 0
Timed = ℤ × (ℤ × Notification)

abbrev pub Ordered : ℤ → List Timed → Type 0
Ordered t [] = Unit {0}
Ordered t ((asked, (passed, n)) ∷ sends) = (t ≤ℤ asked) × ((asked ≤ℤ passed) × Ordered passed sends)

module _ {W : Type 0} (window burst_window limit : ℤ) (refusal : Notification → Error)
    (next : Dispatcher W) where
  -- The reference. A notification is dropped without an error if, when asked for, it is not due after
  -- the last one of its key that was not dropped, whatever became of that; it is refused if no room is
  -- left, at the second reading, among the ones of its key that went on; and any other goes on.
  unfoldable pub relay :
      (Text → Option ℤ) → (Text → List ℤ) → List Timed → W → List (Option Error) × W
  relay seen kept [] w = ([], w)
  relay seen kept ((asked, (passed, n)) ∷ sends) w =
      let key = notification_key n in
      let seen' = stored seen key (some asked) in
      let dropped = relay seen kept sends w in
      let refused = relay seen' kept sends w in
      let (e, w') = next n w in
      let sent = relay seen' (stored kept key (kept key ++ passed ∷ [])) sends w' in
      if not (is_due window (seen key) asked)
      then (none ∷ dropped.0, dropped.1)
      else if not (has_room limit (recent burst_window passed (kept key)))
      then (some (refusal n) ∷ refused.0, refused.1)
      else (e ∷ sent.0, sent.1)

module _ {G H W : Type 0} (outer : CooldownGate G) (inner : SlidingGate H)
    (refusal : Notification → Error) (next : Dispatcher W) where
  -- A send that the outer gate drops or that goes to the inner one, which refuses it or hands it on.
  abbrev inner_send : ℤ → Notification → H → W → Option Error × (H × W)
  inner_send now n h w =
      let (h', room) = inner.allow h now (notification_key n) in
      if room then (let (e, w') = next n w in (e, (h', w'))) else (some (refusal n), (h', w))

  abbrev pub gated : ℤ → ℤ → Dispatcher (G × (H × W))
  gated asked passed n (g, (h, w)) =
      let (g', due) = outer.allow g asked (notification_key n) in
      if due then (let (e, s) = inner_send passed n h w in (e, (g', s))) else (none, (g', (h, w)))

  unfoldable pub run : List Timed → G → H → W → List (Option Error) × W
  run [] g h w = ([], w)
  run ((asked, (passed, n)) ∷ sends) g h w =
      let (e, (g', (h', w'))) = gated asked passed n (g, (h, w)) in
      let (es, w'') = run sends g' h' w' in (e ∷ es, w'')
