-- ===== src/Action/Webhook.antt =====
-- internal/action/webhook.go and the command of script.go: what an action does outside. The JSON
-- encoder, the checks of `http.NewRequest`, the exchange with the server and the running of a command
-- are arguments. One brace and a `return` after the encoding are lost from the text of `fireWebhook`.
use portwatch.Base.{
  ℤ, pos, leb_ℤ, List, [], ◌∷◌, Text, text, text_eq, ◌==◌, format_int, Option, none, some, ◌⊎◌, inl,
  inr, if◌then◌else◌,
}
use portwatch.Base.Http.{Request, Reply, broken, status}
use portwatch.Action.{Action}

pub data FireError (E : Type 0) : Type 0 where
  missing_url : FireError E
  marshalling : E → FireError E
  building : E → FireError E
  posting : E → FireError E
  bad_status : ℤ → FireError E
  script_failed : Text → E → FireError E

abbrev pub json_request : Text → Text → Request
json_request url body = record {
  method = text "POST";
  url = url;
  body = body;
  headers = (text "Content-Type", text "application/json") ∷ [];
}

-- `marshal` encodes the payload of a port and a state, and `refuse` is the error, if any, with which
-- a request for a URL is not built.
module _ {E W : Type 0} (marshal : ℤ → Text → E ⊎ Text) (refuse : Text → Option E)
    (post : Request → W → Reply E × W) where
  abbrev pub answered : Reply E × W → Option (FireError E) × W
  answered (broken e, w) = (some (posting e), w)
  answered (status code, w) = (if leb_ℤ (pos 300) code then some (bad_status code) else none, w)

  abbrev post_built : Option E → Request → W → Option (FireError E) × W
  post_built none r w = answered (post r w)
  post_built (some e) r w = (some (building e), w)

  abbrev pub post_payload : Text → E ⊎ Text → W → Option (FireError E) × W
  post_payload url (inl e) w = (some (marshalling e), w)
  post_payload url (inr body) w = post_built (refuse url) (json_request url body) w

  -- `fireWebhook`
  unfoldable pub fire_webhook : Action → ℤ → Text → W → Option (FireError E) × W
  fire_webhook a port state w =
      if a.url == [] then (some missing_url, w) else post_payload a.url (marshal port state) w

module _ {E W : Type 0} (execute : Text → List Text → W → Option E × W) where
  abbrev pub ran : Text → Option E × W → Option (FireError E) × W
  ran path (none, w) = (none, w)
  ran path (some e, w) = (some (script_failed path e), w)

  -- The command of `fireScript`, its path and its arguments.
  unfoldable pub run_command : Action → ℤ → Text → W → Option (FireError E) × W
  run_command a port state w = ran a.path (execute a.path (format_int port ∷ state ∷ []) w)
