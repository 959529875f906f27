-- ===== src/DeviceBox/Client.antt =====
-- DeviceBox/Client.h and .cpp: the connection of a device box to the control server. The base class
-- NetworkCore::Client is not in the repository: what the client calls of it is counted or kept in
-- order, its callbacks are events, and its answer to `shuttingDown()` is an argument.
pub mod Strands
mod Examples
use ip_cam_box.Prelude.{
  ℕ, ◌+◌, String, Bool, true, false, not, Option, none, some, List, [], ◌∷◌, ◌++◌, Outcome, ok,
  ◌>>=◌, ◌>>◌, check, return_if, when_some, if◌then◌else◌,
}
use ip_cam_box.DeviceBox.Controller.{ClientConfig}
use ip_cam_box.Server.ControlServer.Protocol.{
  MessageType, client_greeting_message, server_greeting_message, client_config_request_message,
  client_config_reply_message, client_config_updated_message, client_ready_message,
  request_stream_message, stream_status_message, stop_stream_message,
}

-- What the constructor of the secure context calls on `asio::ssl::context`.
pub data ContextCall : Type 0 where
  set_options use_tmp_dh set_verify_mode set_default_verify_paths use_certificate use_private_key :
      ContextCall

-- `RequestStream` of Protocol/protocol.proto.
pub record StreamRequest : Type 0 where
  pub source_id : String
  pub destination : String

-- `ParseFromString` of the messages that the server sends; the greeting has no fields.
pub record ServerProtobuf : Type 0 where
  pub server_greeting : String → Bool
  pub client_config_reply : String → Option ClientConfig
  pub client_config_updated : String → Option ClientConfig
  pub request_stream : String → Option StreamRequest
  pub stop_stream : String → Option String

-- The messages that the client writes.
pub data DeviceMessage : Type 0 where
  client_greeting client_config_request client_ready : DeviceMessage
  stream_status : String → Bool → DeviceMessage

-- The methods of the client that it binds for the controller.
pub data Callback : Type 0 where
  schedule_reconnect send_ready : Callback
  send_stream_status : String → Bool → Callback

-- The calls of the controller that it posts.
pub data Task : Type 0 where
  reset_controller : Callback → Task
  load_config update_config : ClientConfig → Callback → Task
  stream_requested : StreamRequest → Callback → Callback → Task
  stop_stream_of : String → Task

-- `connecting` and `reading` are the calls of `connect` and `readMessageAsync` that have not been
-- answered, `waiting` says whether the timer has a wait, `expired` are the waits that have come to
-- their end and whose handlers have not run, `shutdowns` the callbacks given to the base's `shutdown`.
pub record Client : Type 0 where
  pub valid : Bool
  pub server : String
  pub port : ℕ
  pub connecting : ℕ
  pub reading : ℕ
  pub waiting : Bool
  pub expired : ℕ
  pub written : List (MessageType × DeviceMessage)
  pub tasks : List Task
  pub shutdowns : List ℕ

-- Each call of the constructor is followed by a test of its error.
unfoldable pub no_error : (ContextCall → Bool) → List ContextCall → Bool
no_error error [] = true
no_error error (call ∷ calls) = return_if (error call) false (no_error error calls)

unfoldable pub context_calls : Bool → List ContextCall
context_calls true =
    set_options ∷ use_tmp_dh ∷ set_verify_mode ∷ set_default_verify_paths ∷ use_certificate
    ∷ use_private_key ∷ []
context_calls false = set_options ∷ use_tmp_dh ∷ set_verify_mode ∷ []

-- `use_tls` is CONTROL_USE_TLS.
unfoldable pub construct : Bool → (ContextCall → Bool) → Client
construct use_tls error = record {
  valid = no_error error (context_calls use_tls);
  server = "";
  port = 0;
  connecting = 0;
  reading = 0;
  waiting = false;
  expired = 0;
  written = [];
  tasks = [];
  shutdowns = [];
}

abbrev pub post : Task → Client → Client
post task c = record c { tasks = c.tasks ++ (task ∷ []) }

abbrev pub read_message : Client → Client
read_message c = record c { reading = c.reading + 1 }

unfoldable pub send_message : MessageType → DeviceMessage → Client → Client
send_message type message c = record c { written = c.written ++ ((type, message) ∷ []) }

unfoldable pub on_error : Client → Client
on_error = post (reset_controller schedule_reconnect)

unfoldable pub on_write_fail : Client → Client
unfolding on_error
on_write_fail = on_error

unfoldable pub connect : Bool → Client → Client
connect shutting_down c =
    return_if (not c.valid) c
      (return_if shutting_down c (record c { connecting = c.connecting + 1 }))

unfoldable pub connect_to : Bool → String → ℕ → Client → Client
connect_to shutting_down server port c =
    connect shutting_down (record c { server = server; port = port })

-- `expires_from_now` cancels the wait that the timer had, so that there is one.
unfoldable pub schedule_connect : Bool → Client → Client
schedule_connect shutting_down c = return_if shutting_down c (record c { waiting = true })

-- The handler of a wait.
unfoldable pub on_timer : Bool → Bool → Client → Client
on_timer shutting_down error c = return_if error c (connect shutting_down c)

unfoldable pub greet : Client → Client
greet = send_message client_greeting_message client_greeting

unfoldable pub on_connected : Bool → Client → Client
on_connected error c = return_if error (on_error c) (read_message (greet c))

unfoldable pub on_server_greeting : Client → Client
on_server_greeting = send_message client_config_request_message client_config_request

unfoldable pub on_config_reply : ClientConfig → Client → Client
on_config_reply config = post (load_config config send_ready)

unfoldable pub on_config_updated : ClientConfig → Client → Client
on_config_updated config = post (update_config config send_ready)

unfoldable pub on_request_stream : StreamRequest → Client → Client
on_request_stream request = post (
    stream_requested request (send_stream_status request.source_id true)
      (send_stream_status request.source_id false))

unfoldable pub on_stop_stream : String → Client → Client
on_stop_stream source = post (stop_stream_of source)

-- The message of a type that was parsed, and the handler of it; every handler answers true.
unfoldable pub handle_parsed {ℓ} :
    {M : Type ℓ} → Bool → Option M → (M → Client → Client) → Client → Outcome (Bool × Client)
handle_parsed ndebug parsed on_message c =
    when_some parsed (check ndebug false >> ok (false, c))
      (λ message. ok (true, on_message message c))

unfoldable pub parse_message :
    ServerProtobuf → Bool → MessageType → String → Client → Outcome (Bool × Client)
parse_message proto ndebug server_greeting_message body =
    let parsed : Option (Unit {0}) = if proto.server_greeting body then some tt else none in
    handle_parsed ndebug parsed (λ _. on_server_greeting)
parse_message proto ndebug client_config_reply_message body =
    handle_parsed ndebug (proto.client_config_reply body) on_config_reply
parse_message proto ndebug client_config_updated_message body =
    handle_parsed ndebug (proto.client_config_updated body) on_config_updated
parse_message proto ndebug request_stream_message body =
    handle_parsed ndebug (proto.request_stream body) on_request_stream
parse_message proto ndebug stop_stream_message body =
    handle_parsed ndebug (proto.stop_stream body) on_stop_stream
parse_message proto ndebug _ body = λ c. check ndebug false >> ok (false, c)

unfoldable pub on_message :
    ServerProtobuf → Bool → MessageType → String → Bool → Client → Outcome Client
on_message proto ndebug type body error c = return_if error (ok (on_error c)) (do
  (more, c') ← parse_message proto ndebug type body c
  ok (if more then read_message c' else c'))

-- What the controller calls, or the streamer of a source.
unfoldable pub call_back : Bool → Callback → Client → Client
call_back shutting_down schedule_reconnect = schedule_connect shutting_down
call_back shutting_down send_ready = send_message client_ready_message client_ready
call_back shutting_down (send_stream_status source success) =
    send_message stream_status_message (stream_status source success)

unfoldable pub shut_down : ℕ → Client → Client
shut_down finished c = record c { waiting = false; shutdowns = c.shutdowns ++ (finished ∷ []) }
