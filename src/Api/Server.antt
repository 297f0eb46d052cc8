-- ===== src/Api/Server.antt =====
-- internal/api/server.go: what the server that `New` makes answers, and `Start`. The listening and the
-- shutdown are arguments.
use portwatch.Base.{
  Option, none, some, ℤ, pos, List, Text, text, text_eq, ◌==◌, ◌&&◌, not, if◌then◌else◌, lookup,
}
use portwatch.History.Ring.{Event, Ring}
use portwatch.Api.{
  Request, Response, moved, refused, served, Endpoint, status, history, healthz, routes,
  HistoryQuery, handle_healthz, handle_status, handle_history,
}
use portwatch.Alert.Notification.{Error}

-- `states` is what the tracker's `Snapshot` returns.
pub record Server (S : Type 0) : Type 0 where
  pub ring : Ring
  pub states : S

abbrev pub new_server : {S : Type 0} → Ring → S → Server S
new_server ring states = record { ring = ring; states = states }

-- What the three handlers encode.
pub data Body (S B : Type 0) : Type 0 where
  health : List (Text × Text) → Body S B
  tracked : S → Body S B
  selected : B → Body S B

abbrev pub as_body : {B C : Type 0} → (B → C) → Response B → Response C
as_body f (moved code path) = moved code path
as_body f (refused code reason) = refused code reason
as_body f (served code kind b) = served code kind (f b)

-- `http.ServeMux`, for a request whose target is a path without percent escapes: a path that its
-- cleaning changes is redirected, unless the method is CONNECT; a pattern without a slash at its
-- end is that path alone, and a path without a pattern is answered with 404.
module _ {S B : Type 0} (parse_time : Text → Option ℤ)
    (select : List Event → HistoryQuery → B) where
  abbrev pub handle : Server S → Endpoint → Request → Response (Body S B)
  handle s status r = as_body (λ x. tracked x) (handle_status s.states r)
  handle s history r = as_body (λ x. selected x) (handle_history parse_time select s.ring r)
  handle s healthz r = as_body (λ x. health x) (handle_healthz r)

  module _ (clean : Text → Text) where
    unfoldable pub respond : Server S → Text → Request → Response (Body S B)
    respond s path r =
        if not (r.method == text "CONNECT") && not (clean path == path)
        then moved (pos 301) (clean path)
        else elim (lookup path routes) [
          | none ↦ refused (pos 404) (text "404 page not found")
          | some e ↦ handle s e r
        ]

-- What `ListenAndServe` returns.
pub data Listening : Type 0 where
  no_error server_closed : Listening
  failing : Error → Listening

-- What `Start` receives from `errCh`: the error that the goroutine sends, or nil from the channel
-- that it has closed.
abbrev pub received : Listening → Option Error
received no_error = none
received server_closed = none
received (failing e) = some e

-- What the select wakes on; where both are ready, Go chooses.
pub data Wake : Type 0 where
  listened : Listening → Wake
  ctx_done : Wake

-- `shutdown` is `Shutdown` under its timeout of five seconds.
unfoldable pub start : {W : Type 0} → (W → Option Error × W) → Wake → W → Option Error × W
start shutdown (listened l) w = (received l, w)
start shutdown ctx_done w = shutdown w
