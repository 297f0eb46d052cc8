-- ===== src/Alert/Channel/Laws.antt =====
-- When a channel has delivered.
use portwatch.Base.{
  ◌≡◌, ◌≢◌, refl, Option-cases, ◌↔◌, ◌⊎◌, inl, inr, ℤ, pos, ◌≤ℤ◌, ◌<ℤ◌, List, [], Text, text_eq,
  text_beq_iff, Option, none, arith,
}
use portwatch.Base.Http.{Request, Reply, broken, status}
use portwatch.Alert.Notification.{Notification, Error}
use portwatch.Alert.Channel.{
  Channel, webhook, script, log, effective_timeout, webhook_request, environment, answered,
  post_body, fire_webhook, fire_script, send,
}

-- The answer of a server that takes the notification.
abbrev pub Took : Reply Error → Type 0
Took (broken e) = ⊥
Took (status code) = (pos 200 ≤ℤ code) × (code <ℤ pos 300)

module _ {W : Type 0} (marshal : Notification → Error ⊎ Text) (refuse : Text → Option Error)
    (post : ℤ → Request → W → Reply Error × W) (format_time : ℤ → Text)
    (command : Text → List Text → W → Option Error × W) where
  abbrev pub Delivers : Channel → Notification → W → Type 0
  Delivers (webhook target timeout) n w =
      (body : Text) × (marshal n ≡ inr body)
      × (refuse target ≡ none)
      × Took (post (effective_timeout timeout) (webhook_request target body) w).0
  Delivers (script path) n w =
      (path ≢ [])
      × ((command path (environment marshal refuse post format_time command n) w).0 ≡ none)
  Delivers log n w = Unit {0}

  answered-Took : (r : Reply Error × W) → ((answered marshal refuse post r).0 ≡ none) ↔ Took r.0
  answered-Took (broken e, w) = ground arith
  answered-Took (status code, w) = ground arith

  post_body-Took :
      (timeout : ℤ) (url : Text) (m : Error ⊎ Text) (w : W)
      → ((post_body marshal refuse post timeout url m w).0 ≡ none) ↔ (
          (body : Text) × (m ≡ inr body)
          × (refuse url ≡ none)
          × Took (post timeout (webhook_request url body) w).0)
  post_body-Took timeout url (inl e) w = (λ h. cc, λ d. let clash = d.1 in cc)
  post_body-Took timeout url (inr body) w = elim (Option-cases (refuse url)) [
    | inl built ↦
        let took = answered-Took (post timeout (webhook_request url body) w) in
        rw built (
          λ h. (body, refl, refl, took.0 h),
          λ d. let same : body ≡ d.0 = ground (arith, d.1) in took.1 (rw same d.3),
        )
    | inr (e, refused) ↦ rw refused (λ h. cc, λ d. let clash = d.2 in cc)
  ]

  -- A channel returns nil exactly in these cases: a webhook, if the notification is encoded, the
  -- request is built, and the one POST of it, under a timeout of five seconds where none is
  -- configured, is answered with a status of 200 to 299; a script, if it has a path and its command, with
  -- the port, the state and the time in its environment, succeeds; the log, always.
  pub send-Delivers :
      (c : Channel) (n : Notification) (w : W)
      → ((send marshal refuse post format_time command c n w).0 ≡ none) ↔ Delivers c n w
  unfolding send fire_webhook fire_script
  send-Delivers (webhook target timeout) n w =
      post_body-Took (effective_timeout timeout) target (marshal n) w
  send-Delivers (script path) n w = ground (arith, text_beq_iff path [])
  send-Delivers log n w = (λ h. tt, λ h. refl)
