-- ===== src/Alert/Shadow/Laws.antt =====
-- What a shadow leaves behind, in whatever order its goroutines end.
use mathlib.Core.List.{Permᴰ}
use portwatch.Base.{
  ℤ, ◌≡◌, refl, ◌⊎◌, inl, inr, Bool-cases, gathered, gathered-Permᴰ, List, [], ◌∷◌, ◌++◌,
  append_assoc, append-nil, true, false, if◌then◌else◌, Option, arith,
}
use portwatch.Alert.Notification.{Notification, Error}
use portwatch.Alert.Key.{notification_key}
use portwatch.Alert.Shadow.{
  ShadowPolicy, Divergence, Shadow, new_shadow, differ, settle, divergences,
}

-- A call of `Send` whose goroutine has ended: what both sides returned, and when.
pub record Call : Type 0 where
  pub notification : Notification
  pub primary : Option Error
  pub shadow : Option Error
  pub ended : ℤ

-- The goroutines end in this order.
unfoldable settle_all : List Call → Shadow → Shadow
settle_all [] s = s
settle_all (c ∷ cs) s = settle_all cs (settle s c.notification c.primary c.shadow c.ended)

-- What one call is worth.
abbrev divergence_of : Call → Divergence
divergence_of c = record {
  key = notification_key c.notification;
  primary = c.primary;
  shadow = c.shadow;
  recorded_at = c.ended;
}

abbrev pub recorded : Call → List Divergence
recorded c = if differ c.primary c.shadow then divergence_of c ∷ [] else []

settle_all-logs :
    (cs : List Call) (s : Shadow)
    → s.policy.log_divergence ≡ true
    → (settle_all cs s).divergences ≡ s.divergences ++ gathered recorded cs
unfolding settle_all settle
settle_all-logs [] s h = ground (arith, append-nil s.divergences)
settle_all-logs (c ∷ cs) s h = ground (
  arith,
  h,
  settle_all-logs cs (settle s c.notification c.primary c.shadow c.ended),
  append_assoc s.divergences (divergence_of c ∷ []) (gathered recorded cs),
)

settle_all-silent :
    (cs : List Call) (s : Shadow) → s.policy.log_divergence ≡ false → settle_all cs s ≡ s
unfolding settle_all settle
settle_all-silent [] s h = refl
settle_all-silent (c ∷ cs) s h = ground (arith, h, settle_all-silent cs s h)

-- In whatever order the goroutines of the calls end: a new dispatcher that logs has recorded a
-- divergence for each call in which exactly one side failed and for no other, in some order; one that
-- does not log has recorded none.
settle_all-new_shadow :
    (policy : ShadowPolicy) (calls received : List Call)
    → Permᴰ calls received
    → let found = divergences (settle_all received (new_shadow policy)) in
      ((policy.log_divergence ≡ true) × Permᴰ (gathered recorded calls) found)
      ⊎ ((policy.log_divergence ≡ false) × (found ≡ []))
unfolding divergences new_shadow
settle_all-new_shadow policy calls received d = elim (Bool-cases policy.log_divergence) [
  | inl logs ↦
      inl (logs, rw (settle_all-logs received (new_shadow policy) logs) (gathered-Permᴰ recorded d))
  | inr silent ↦ inr (silent, rw (settle_all-silent received (new_shadow policy) silent) refl)
]
