-- ===== src/Api/Answers.antt =====
-- What the server answers, whatever the path, over the events recorded in its ring.
use portwatch.Base.{
  ℤ, pos, ◌≡◌, ◌≢◌, ◌⊎◌, refl, sym, List, [], ◌∷◌, last_n, Text, text, text_eq, text_beq_iff, ◌==◌,
  lookup, Option, none, some, Bool-cases, inl, inr, arith,
}
use portwatch.History.Ring.{Event, snapshot, new_ring, record_all, effective_capacity, stamps}
use portwatch.History.Ring.Refine.{snapshot-record_all}
use portwatch.Api.{
  Request, Response, moved, refused, served, json_type, status, history, healthz, routes,
  HistoryQuery, handle_status, handle_healthz, handle_history, write_json,
}
use portwatch.Api.Requests.{Answered, handle_history_lem}
use portwatch.Api.Server.{
  Server, new_server, Body, health, tracked, selected, as_body, handle, respond,
}

-- Where a path leads.
routes-cases :
    (path : Text)
    → ((lookup path routes ≡ none)
        × (path ≢ text "/status")
        × (path ≢ text "/history")
        × (path ≢ text "/healthz"))
      ⊎ ((lookup path routes ≡ some healthz) × (path ≡ text "/healthz"))
      ⊎ ((lookup path routes ≡ some status) × (path ≡ text "/status"))
      ⊎ ((lookup path routes ≡ some history) × (path ≡ text "/history"))
unfolding routes lookup
routes-cases path = elim (Bool-cases (text "/status" == path)) [
  | inl one ↦ inr (inr (inl (rw one refl, sym ((text_beq_iff (text "/status") path).0 one))))
  | inr not_one ↦ elim (Bool-cases (text "/history" == path)) [
    | inl two ↦
        inr (inr (inr (rw (not_one, two) refl, sym ((text_beq_iff (text "/history") path).0 two))))
    | inr not_two ↦ elim (Bool-cases (text "/healthz" == path)) [
      | inl three ↦ inr (
          inl (
            rw (not_one, not_two, three) refl,
            sym ((text_beq_iff (text "/healthz") path).0 three),
          ))
      | inr not_three ↦ inl (
        rw (not_one, not_two, not_three) refl,
        ground (arith, not_one, text_beq_iff (text "/status") path),
        ground (arith, not_two, text_beq_iff (text "/history") path),
        ground (arith, not_three, text_beq_iff (text "/healthz") path),
      )
    ]
  ]
]

abbrev pub as_events : {S B : Type 0} → B → Body S B
as_events b = selected b

module _ {S B : Type 0} (parse_time : Text → Option ℤ)
    (select : List Event → HistoryQuery → B) where
  as_body-Answered :
      (events : List Event) (r : Request) (answer : Response B)
      → Answered parse_time select (λ b. b) events r answer
      → Answered parse_time select (as_events {S = S}) events r (as_body (as_events {S = S}) answer)
  as_body-Answered events r answer (inl (m, e)) = inl (m, rw e refl)
  as_body-Answered events r answer (inr (inl (m, p, e))) = inr (inl (m, p, rw e refl))
  as_body-Answered events r answer (inr (inr (inl (p, m, a, t, e)))) =
      inr (inr (inl (p, m, a, t, rw e refl)))
  as_body-Answered events r answer (inr (inr (inr (p, t, m, a, b, e)))) =
      inr (inr (inr (p, t, m, a, b, rw e refl)))

  -- What a server over these events and states answers at a path that it does not redirect.
  pub AnsweredAt : List Event → S → Text → Request → Response (Body S B) → Type 0
  AnsweredAt kept states path r answer =
      ((path ≢ text "/status")
        × (path ≢ text "/history")
        × (path ≢ text "/healthz")
        × (answer ≡ refused (pos 404) (text "404 page not found")))
      ⊎ ((path ≡ text "/healthz")
          × (answer ≡ served (pos 200) json_type (health ((text "status", text "ok") ∷ []))))
      ⊎ ((path ≡ text "/status")
          × (((r.method ≡ text "GET") × (answer ≡ served (pos 200) json_type (tracked states)))
              ⊎ ((r.method ≢ text "GET")
                  × (answer ≡ refused (pos 405) (text "method not allowed")))))
      ⊎ ((path ≡ text "/history") × Answered parse_time select as_events kept r answer)

  abbrev looked_up : Server S → Text → Request → Response (Body S B)
  looked_up s path r = elim (lookup path routes) [
    | none ↦ refused (pos 404) (text "404 page not found")
    | some e ↦ handle parse_time select s e r
  ]

  looked_up-AnsweredAt :
      (capacity : ℤ) (calls : List (ℤ × Event)) (states : S) (path : Text) (r : Request)
      → AnsweredAt
          (last_n (effective_capacity capacity) (stamps calls))
          states
          path
          r
          (looked_up (new_server (record_all (new_ring capacity) calls) states) path r)
  unfolding AnsweredAt handle_status handle_healthz write_json
  looked_up-AnsweredAt capacity calls states path r =
      let ring = record_all (new_ring capacity) calls in
      elim (routes-cases path) [
        | inl (there, a, b, c) ↦ inl (a, b, c, rw (looked_up, there) refl)
        | inr (inl (there, same)) ↦ inr (inl (same, rw (looked_up, there) refl))
        | inr (inr (inl (there, same))) ↦ inr (
            inr (
              inl (
                same,
                elim (Bool-cases (r.method == text "GET")) [
                  | inl get ↦
                      inl (
                        (text_beq_iff r.method (text "GET")).0 get,
                        rw (looked_up, there, get) refl,
                      )
                  | inr other ↦ inr (
                    ground (arith, other, text_beq_iff r.method (text "GET")),
                    rw (looked_up, there, other) refl,
                  )
                ],
              )))
        | inr (inr (inr (there, same))) ↦ inr (
            inr (
              inr (
                same,
                rw (looked_up, there, ← (snapshot-record_all capacity calls).0)
                    (as_body-Answered (snapshot ring) r (handle_history parse_time select ring r)
                      (handle_history_lem parse_time select ring r)),
              )))
      ]

  module _ (clean : Text → Text) where
    -- After any calls of `Record` on a ring of any capacity, and whatever the cleaning of a path
    -- makes of it, a request whose target is a path without percent escapes is answered in one of
    -- two ways. If the method is not CONNECT and the path is not what its cleaning makes of it, the
    -- answer is a redirection with 301 to the cleaned path. Otherwise every path but three,
    -- `/export` included, is answered with 404 whatever the request; `/healthz` with `ok`;
    -- `/status` with the states of the tracker for GET and with 405 for any other method.
    -- `/history` then refuses a method other than GET with 405, a port that is neither missing nor
    -- a decimal of 1 to 65535 with 400, and then a time that is neither missing nor RFC 3339 with
    -- 400; every other request is served what is selected, for exactly the port, time and state
    -- asked for, from the newest events of the whole history, as many as the ring can hold and
    -- oldest first.
    pub respond-record_all :
        (capacity : ℤ) (calls : List (ℤ × Event)) (states : S) (path : Text) (r : Request)
        → let server = new_server (record_all (new_ring capacity) calls) states in
          let answer = respond parse_time select clean server path r in
          let kept = last_n (effective_capacity capacity) (stamps calls) in
          ((r.method ≢ text "CONNECT")
            × (clean path ≢ path)
            × (answer ≡ moved (pos 301) (clean path)))
          ⊎ (((r.method ≡ text "CONNECT") ⊎ (clean path ≡ path))
              × AnsweredAt kept states path r answer)
    unfolding respond
    respond-record_all capacity calls states path r =
        let found = looked_up-AnsweredAt capacity calls states path r in
        elim (Bool-cases (r.method == text "CONNECT")) [
          | inl connect ↦ inr (
            inl ((text_beq_iff r.method (text "CONNECT")).0 connect),
            rw (respond, connect) found,
          )
          | inr other ↦ elim (Bool-cases (clean path == path)) [
            | inl same ↦
                inr (inr ((text_beq_iff (clean path) path).0 same), rw (respond, other, same) found)
            | inr differs ↦ inl (
              ground (arith, other, text_beq_iff r.method (text "CONNECT")),
              ground (arith, differs, text_beq_iff (clean path) path),
              rw (respond, other, differs) refl,
            )
          ]
        ]
