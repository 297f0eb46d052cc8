-- ===== src/Api/Requests.antt =====
-- Which requests the handlers refuse, and what they select for the others.
use portwatch.Base.{
  ℤ, pos, ◌≤ℤ◌, ◌≡◌, ◌≢◌, ◌↔◌, ◌⊎◌, refl, List, [], Text, text, text_beq_iff, atoi, Option, none,
  some, Option-cases, Bool-cases, inl, inr, arith, text_eq, ◌==◌,
}
use portwatch.History.Ring.{Event, Ring, snapshot}
use portwatch.Api.{
  Request, Response, refused, served, write_json, json_type, read_port, read_since, HistoryQuery,
  handle_history,
}

-- What the parameter `port` asks for: no port, or one of 1 to 65535.
abbrev pub AsksPort : Text → ℤ → Type 0
AsksPort s p =
    ((s ≡ []) × (p ≡ pos 0)) ⊎ ((s ≢ []) × (atoi s ≡ some p) × (pos 1 ≤ℤ p) × (p ≤ℤ pos 65535))

read_port_iff : (s : Text) (p : ℤ) → (read_port s ≡ some p) ↔ AsksPort s p
unfolding read_port
read_port_iff s p = ground (arith, text_beq_iff s [])

read_port-none_iff : (s : Text) → (read_port s ≡ none) ↔ (¬ ((p : ℤ) × AsksPort s p))
read_port-none_iff s = elim (Option-cases (read_port s)) [
  | inl e ↦ (λ e' h. ground (arith, e, (read_port_iff s h.0).1 h.1), λ h. e)
  | inr (p, e) ↦
      (λ e'. absurd (ground (arith, e, e')), λ h. absurd (h (p, (read_port_iff s p).0 e)))
]

-- What the parameter `since` asks for: no time, or one that RFC 3339 gives.
abbrev pub AsksSince : (Text → Option ℤ) → Text → ℤ → Type 0
AsksSince parse_time s t = ((s ≡ []) × (t ≡ pos 0)) ⊎ ((s ≢ []) × (parse_time s ≡ some t))

read_since_iff :
    (parse_time : Text → Option ℤ) (s : Text) (t : ℤ)
    → (read_since parse_time s ≡ some t) ↔ AsksSince parse_time s t
unfolding read_since
read_since_iff parse_time s t = ground (arith, text_beq_iff s [])

read_since-none_iff :
    (parse_time : Text → Option ℤ) (s : Text)
    → (read_since parse_time s ≡ none) ↔ (¬ ((t : ℤ) × AsksSince parse_time s t))
read_since-none_iff parse_time s = elim (Option-cases (read_since parse_time s)) [
  | inl e ↦ (λ e' h. ground (arith, e, (read_since_iff parse_time s h.0).1 h.1), λ h. e)
  | inr (t, e) ↦ (
    λ e'. absurd (ground (arith, e, e')),
    λ h. absurd (h (t, (read_since_iff parse_time s t).0 e)),
  )
]

module _ {B : Type 0} (parse_time : Text → Option ℤ) (select : List Event → HistoryQuery → B) where
  -- What the history handler may answer over these events, a selection being sent as `body` makes it.
  abbrev pub Answered : {C : Type 0} → (B → C) → List Event → Request → Response C → Type 0
  Answered body events r answer =
      let port = r.parameter (text "port") in
      let since = r.parameter (text "since") in
      ((r.method ≢ text "GET") × (answer ≡ refused (pos 405) (text "method not allowed")))
      ⊎ ((r.method ≡ text "GET")
          × (¬ ((p : ℤ) × AsksPort port p))
          × (answer ≡ refused (pos 400) (text "invalid port")))
      ⊎ ((p : ℤ) × (r.method ≡ text "GET")
          × AsksPort port p
          × (¬ ((t : ℤ) × AsksSince parse_time since t))
          × (answer ≡ refused (pos 400) (text "invalid since: use RFC3339")))
      ⊎ ((p : ℤ) × (t : ℤ) × (r.method ≡ text "GET")
          × AsksPort port p
          × AsksSince parse_time since t
          × (answer
              ≡ served (pos 200) json_type (
                  body (
                    select events
                      (record { port = p; since = t; state = r.parameter (text "state") })))))

  -- The answers of the history handler: a method other than GET is refused with 405; a port that is
  -- neither missing nor a decimal of 1 to 65535 with 400; then a time that is neither missing nor
  -- RFC 3339 with 400; and every other request is served what is selected from the ring for exactly
  -- the port, time and state asked for, where a missing one is the zero value.
  pub handle_history_lem :
      (ring : Ring) (r : Request)
      → Answered (λ b. b) (snapshot ring) r (handle_history parse_time select ring r)
  unfolding handle_history write_json
  handle_history_lem ring r = elim (Bool-cases (r.method == text "GET")) [
    | inr other ↦ inl (ground (arith, other, text_beq_iff r.method (text "GET")), rw other refl)
    | inl get ↦
        let m : r.method ≡ text "GET" = (text_beq_iff r.method (text "GET")).0 get in
        elim (Option-cases (read_port (r.parameter (text "port")))) [
          | inl e ↦
              inr (inl (m, (read_port-none_iff (r.parameter (text "port"))).0 e, rw (get, e) refl))
          | inr (p, e) ↦
              let asks = (read_port_iff (r.parameter (text "port")) p).0 e in
              elim (Option-cases (read_since parse_time (r.parameter (text "since")))) [
                | inl e' ↦ inr (
                    inr (
                      inl (
                        p,
                        m,
                        asks,
                        (read_since-none_iff parse_time (r.parameter (text "since"))).0 e',
                        rw (get, e, e') refl,
                      )))
                | inr (t, e') ↦ inr (
                    inr (
                      inr (
                        p,
                        t,
                        m,
                        asks,
                        (read_since_iff parse_time (r.parameter (text "since")) t).0 e',
                        rw (get, e, e') refl,
                      )))
              ]
        ]
  ]
