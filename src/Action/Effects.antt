-- ===== src/Action/Effects.antt =====
-- What a run of the executor does outside.
use portwatch.Base.{
  ℤ, ◌≡◌, refl, ◌∙◌, List, [], ◌∷◌, ◌++◌, Text, text, text_eq, ◌==◌, format_int, Bool-cases, Option,
  none, some, ◌⊎◌, inl, inr, if◌then◌else◌,
}
use portwatch.Action.{Action, reported, fire, fire_script}
use portwatch.Action.Selection.{fire_each}
use portwatch.Base.Http.{Request, Reply, broken, status}
use portwatch.Action.Webhook.{
  FireError, json_request, answered, post_payload, ran, fire_webhook, run_command,
}

pub data Effect : Type 0 where
  sent : Request → Effect
  executed : Text → List Text → Effect

module _ {E : Type 0} (marshal : ℤ → Text → E ⊎ Text) (refuse : Text → Option E) where
  abbrev posted : Text → E ⊎ Text → Option E → List Effect
  posted url (inl e) r = []
  posted url (inr body) (some e) = []
  posted url (inr body) none = sent (json_request url body) ∷ []

  -- One request, if the URL and the payload permit it, or one command; nothing without a URL or a
  -- path, and nothing for any other type.
  abbrev pub effects_of : ℤ → Text → Action → List Effect
  effects_of port state a =
      if a.kind == text "webhook"
      then if a.url == [] then [] else posted a.url (marshal port state) (refuse a.url)
      else if a.kind == text "script"
      then if a.path == [] then [] else executed a.path (format_int port ∷ state ∷ []) ∷ []
      else []

  abbrev pub all_effects : ℤ → Text → List Action → List Effect
  all_effects port state [] = []
  all_effects port state (a ∷ rest) = effects_of port state a ++ all_effects port state rest

  module _ {W : Type 0} (post : Request → W → Reply E × W)
      (execute : Text → List Text → W → Option E × W) where
    unfoldable pub perform : List Effect → W → W
    perform [] w = w
    perform (sent r ∷ rest) w = perform rest (post r w).1
    perform (executed path args ∷ rest) w = perform rest (execute path args w).1

    pub perform-append :
        (xs ys : List Effect) (w : W) → perform (xs ++ ys) w ≡ perform ys (perform xs w)
    unfolding perform
    perform-append [] ys w = refl
    perform-append (sent r ∷ xs) ys w = perform-append xs ys (post r w).1
    perform-append (executed path args ∷ xs) ys w = perform-append xs ys (execute path args w).1

    abbrev pub webhook : Action → ℤ → Text → W → Option (FireError E) × W
    webhook = fire_webhook marshal refuse post

    abbrev pub script : Action → ℤ → Text → W → Option (FireError E) × W
    script = run_command execute

    answered-world : (r : Reply E × W) → (answered marshal refuse post r).1 ≡ r.1
    answered-world (broken e, w) = refl
    answered-world (status code, w) = refl

    ran-world : (path : Text) (r : Option E × W) → (ran execute path r).1 ≡ r.1
    ran-world path (none, w) = refl
    ran-world path (some e, w) = refl

    reported-world : (r : Option (FireError E) × W) → (reported webhook script r).1 ≡ r.1
    reported-world (none, w) = refl
    reported-world (some e, w) = refl

    post_payload-posted :
        (url : Text) (m : E ⊎ Text) (r : Option E) (w : W)
        → refuse url ≡ r
        → (post_payload marshal refuse post url m w).1 ≡ perform (posted url m r) w
    unfolding perform
    post_payload-posted url (inl e) r w h = refl
    post_payload-posted url (inr body) (some e) w h = rw h refl
    post_payload-posted url (inr body) none w h =
        rw h (answered-world (post (json_request url body) w))

    fire-effects_of :
        (a : Action) (port : ℤ) (state : Text) (w : W)
        → (fire webhook script a port state w).1 ≡ perform (effects_of port state a) w
    unfolding fire fire_script fire_webhook run_command perform
    fire-effects_of a port state w = elim (Bool-cases (a.kind == text "webhook")) [
      | inl is_webhook ↦ elim (Bool-cases (a.url == [])) [
        | inl empty ↦ rw (is_webhook, empty) refl
        | inr given ↦
            rw (is_webhook, given)
              (reported-world (post_payload marshal refuse post a.url (marshal port state) w)
                ∙ post_payload-posted a.url (marshal port state) (refuse a.url) w refl)
      ]
      | inr other ↦ elim (Bool-cases (a.kind == text "script")) [
        | inl is_script ↦ elim (Bool-cases (a.path == [])) [
          | inl empty ↦ rw (other, is_script, empty) refl
          | inr given ↦
              let done = execute a.path (format_int port ∷ state ∷ []) w in
              rw (other, is_script, given)
                (reported-world (ran execute a.path done) ∙ ran-world a.path done)
        ]
        | inr unknown ↦ rw (other, unknown) refl
      ]
    ]

    pub fire_each-all_effects :
        (port : ℤ) (state : Text) (actions : List Action) (w : W)
        → fire_each webhook script port state actions w ≡ perform (all_effects port state actions) w
    unfolding fire_each perform
    fire_each-all_effects port state [] w = refl
    fire_each-all_effects port state (a ∷ rest) w =
        fire_each-all_effects port state rest (fire webhook script a port state w).1
        ∙ rw (perform-append (effects_of port state a), fire-effects_of a port state w) refl
