-- ===== src/Alert/Channel.antt =====
-- internal/alert/channel.go and channel_adapters.go, and `BuildNotification` of notify.go. The JSON
-- encoder, the checks of `http.NewRequest`, the exchange with the server under a timeout, the running of
-- a command with what is added to its environment, and the text of a time are arguments; a line of the
-- log is left out. The text of `fireWebhookCtx` has lost the end of one statement, with its brace, and the
-- `return fmt.` of another.
pub mod Laws
use portwatch.Base.{
  ◌*◌, ℤ, pos, Text, text, text_eq, int_eq, ◌==◌, if◌then◌else◌, Option, none, some, List, [], ◌∷◌,
  ◌++◌, format_int, ltb_ℤ, leb_ℤ, ◌||◌, ◌⊎◌, inl, inr,
}
use portwatch.Alert.Notification.{
  Notification, Error, empty_path, marshalling, building, posting, non_2xx, Dispatcher,
}
use portwatch.Base.Http.{Request, Reply, broken, status}

-- `ChannelType` is the text itself.
pub record ChannelConfig : Type 0 where
  pub kind : Text
  pub target : Text
  pub timeout : ℤ

pub data Channel : Type 0 where
  webhook : Text → ℤ → Channel
  script : Text → Channel
  log : Channel

-- `NewChannel`; `none` is the error that names the type.
unfoldable new_channel : ChannelConfig → Option Channel
new_channel cfg =
    if cfg.kind == text "webhook"
    then some (webhook cfg.target cfg.timeout)
    else if cfg.kind == text "script"
    then some (script cfg.target)
    else if cfg.kind == text "log"
    then some log
    else none

abbrev effective_timeout : ℤ → ℤ
effective_timeout timeout = if timeout == pos 0 then pos (5 * 1000000000) else timeout

-- `now` is `time.Now().UTC()`; the action is not read.
build_notification : ℤ → Text → ℤ → Notification
build_notification port state now = record {
  port = port;
  state = state;
  timestamp = now;
  message = text "port " ++ format_int port ++ text " is now " ++ state;
}

abbrev pub webhook_request : Text → Text → Request
webhook_request url body = record {
  method = text "POST";
  url = url;
  body = body;
  headers =
      (text "Content-Type", text "application/json")
      ∷ (text "User-Agent", text "portwatch/1.0")
      ∷ [];
}

-- `refuse` is the error, if any, with which a request for a URL is not built.
module _ {W : Type 0} (marshal : Notification → Error ⊎ Text) (refuse : Text → Option Error)
    (post : ℤ → Request → W → Reply Error × W) where
  abbrev answered : Reply Error × W → Option Error × W
  answered (broken e, w) = (some (posting e), w)
  answered (status code, w) =
      (if ltb_ℤ code (pos 200) || leb_ℤ (pos 300) code then some (non_2xx code) else none, w)

  abbrev post_built : ℤ → Option Error → Request → W → Option Error × W
  post_built timeout none r w = answered (post timeout r w)
  post_built timeout (some e) r w = (some (building e), w)

  abbrev post_body : ℤ → Text → Error ⊎ Text → W → Option Error × W
  post_body timeout url (inl e) w = (some (marshalling e), w)
  post_body timeout url (inr body) w = post_built timeout (refuse url) (webhook_request url body) w

  -- `fireWebhookCtx`, under the timeout of its caller.
  unfoldable pub fire_webhook : ℤ → Text → Dispatcher W
  fire_webhook timeout url n w = post_body timeout url (marshal n) w

module _ {W : Type 0} (marshal : Notification → Error ⊎ Text) (refuse : Text → Option Error)
    (post : ℤ → Request → W → Reply Error × W) (format_time : ℤ → Text)
    (command : Text → List Text → W → Option Error × W) where
  -- What `fireScriptCtx` adds to the environment.
  abbrev environment : Notification → List Text
  environment n =
      (text "PW_PORT=" ++ format_int n.port)
      ∷ (text "PW_STATE=" ++ n.state)
      ∷ (text "PW_TIMESTAMP=" ++ format_time n.timestamp)
      ∷ []

  -- `fireScriptCtx`
  unfoldable pub fire_script : Text → Dispatcher W
  fire_script path n w = if path == [] then (some empty_path, w) else command path (environment n) w

  -- The three `Send` methods.
  unfoldable pub send : Channel → Dispatcher W
  send (webhook target timeout) n w =
      fire_webhook marshal refuse post (effective_timeout timeout) target n w
  send (script path) n w = fire_script path n w
  send log n w = (none, w)
