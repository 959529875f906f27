-- ===== src/DeviceBox/Client/Strands.antt =====
-- DeviceBox/Client.cpp: what the client waits for, whatever the network and the controller do.
use ip_cam_box.Prelude.{
  ℕ, zero, suc, ◌+◌, ◌-◌, ◌≤◌, ◌<◌, String, Bool, true, false, Option, none, some, List, [], ◌∷◌,
  ◌++◌, ◌≡◌, refl, Outcome, ok, fault, ◌>>=◌, Then, is_some, if◌then◌else◌, when_some, return_if,
  arith, Option-cases, inl, inr, if_keeps, when_some_keeps, ap,
}
use ip_cam_box.Server.ControlServer.Protocol.{
  MessageType, client_greeting_message, server_greeting_message, client_config_request_message,
  client_config_reply_message, client_config_updated_message, client_ready_message,
  request_stream_message, stream_status_message, stop_stream_message, empty_message,
}
use ip_cam_box.DeviceBox.Client.{
  Client, ServerProtobuf, Callback, schedule_reconnect, send_ready, send_stream_status, Task,
  reset_controller, load_config, update_config, stream_requested, stop_stream_of, on_connected,
  on_message, on_write_fail, on_timer, call_back, on_error, greet, send_message, connect,
  schedule_connect, parse_message, handle_parsed, on_server_greeting, on_config_reply,
  on_config_updated, on_request_stream, on_stop_stream,
}

-- What happens to a client that is not shut down.
pub data Event : Type 0 where
  connected : Bool → Event
  message : MessageType → String → Bool → Event
  write_failed timer_expires task_taken : Event
  wait_ended : Bool → Event
  called : ℕ → Event

-- `given` are the callbacks that the controller or a streamer has and has not called.
pub record Run : Type 0 where
  pub client : Client
  pub given : List Callback

abbrev callbacks_of : Task → List Callback
callbacks_of (reset_controller f) = f ∷ []
callbacks_of (load_config config f) = f ∷ []
callbacks_of (update_config config f) = f ∷ []
callbacks_of (stream_requested request streaming failed) = streaming ∷ failed ∷ []
callbacks_of (stop_stream_of source) = []

-- The first task of the client runs.
abbrev take_task : List Task → Run → Run
take_task [] r = r
take_task (t ∷ ts) r = record {
  client = record r.client { tasks = ts };
  given = r.given ++ callbacks_of t;
}

abbrev take_out : ℕ → List Callback → Option (Callback × List Callback)
take_out n [] = none
take_out zero (f ∷ fs) = some (f, fs)
take_out (suc n) (f ∷ fs) = elim (take_out n fs) [ none ↦ none | some (g, gs) ↦ some (g, f ∷ gs) ]

unfoldable pub handle : ServerProtobuf → Bool → Event → Run → Outcome Run
handle proto ndebug (connected error) r = ok (record r {
  client = on_connected error (record r.client { connecting = r.client.connecting - 1 });
})
handle proto ndebug (message type body error) r = do
  c ← on_message proto ndebug type body error (record r.client { reading = r.client.reading - 1 })
  ok (record r { client = c })
handle proto ndebug write_failed r = ok (record r { client = on_write_fail r.client })
handle proto ndebug timer_expires r = ok (
    if r.client.waiting
    then record r { client = record r.client { waiting = false; expired = r.client.expired + 1 } }
    else r)
handle proto ndebug task_taken r = ok (take_task r.client.tasks r)
handle proto ndebug (wait_ended true) r = ok (record r { client = on_timer false true r.client })
handle proto ndebug (wait_ended false) r = ok (record r {
  client = on_timer false false (record r.client { expired = r.client.expired - 1 });
})
handle proto ndebug (called n) r = ok (
    when_some (take_out n r.given) r
      (λ (f, rest). record { client = call_back false f r.client; given = rest }))

unfoldable pub run : ServerProtobuf → Bool → List Event → Run → Outcome Run
run proto ndebug [] r = ok r
run proto ndebug (e ∷ es) r = handle proto ndebug e r >>= run proto ndebug es

abbrev pub IsWellFormed : ServerProtobuf → MessageType → String → Type 0
IsWellFormed proto server_greeting_message body = proto.server_greeting body ≡ true
IsWellFormed proto client_config_reply_message body =
    is_some (proto.client_config_reply body) ≡ true
IsWellFormed proto client_config_updated_message body =
    is_some (proto.client_config_updated body) ≡ true
IsWellFormed proto request_stream_message body = is_some (proto.request_stream body) ≡ true
IsWellFormed proto stop_stream_message body = is_some (proto.stop_stream body) ≡ true
IsWellFormed proto _ body = ⊥

-- An answer comes to a call that waits for one, and the messages can be read.
abbrev pub IsAllowed : ServerProtobuf → Event → Run → Type 0
IsAllowed proto (connected error) r = 0 < r.client.connecting
IsAllowed proto (message type body error) r =
    (0 < r.client.reading) × (error ≡ false → IsWellFormed proto type body)
IsAllowed proto (wait_ended error) r = error ≡ false → 0 < r.client.expired
IsAllowed proto _ r = Unit

abbrev pub AllAllowed : ServerProtobuf → Bool → List Event → Run → Type 0
AllAllowed proto ndebug [] r = Unit
AllAllowed proto ndebug (e ∷ es) r =
    IsAllowed proto e r × Then (AllAllowed proto ndebug es) (handle proto ndebug e r)

abbrev pub write_failures : List Event → ℕ
write_failures [] = 0
write_failures (write_failed ∷ es) = write_failures es + 1
write_failures (_ ∷ es) = write_failures es

abbrev strand : Callback → ℕ
strand schedule_reconnect = 1
strand send_ready = 0
strand (send_stream_status source success) = 0

abbrev given_strands : List Callback → ℕ
given_strands [] = 0
given_strands (f ∷ fs) = strand f + given_strands fs

abbrev task_strands : List Task → ℕ
task_strands [] = 0
task_strands (t ∷ ts) = given_strands (callbacks_of t) + task_strands ts

-- How many things are under way of which each will make the client go on: an answer to `connect` or to
-- `readMessageAsync`, a wait, or a reset of the controller that ends with `scheduleConnect`.
abbrev pub strands : Run → ℕ
strands r =
    r.client.connecting
    + r.client.reading
    + (if r.client.waiting then 1 else 0)
    + r.client.expired
    + task_strands r.client.tasks
    + given_strands r.given

given_strands-append :
    (fs gs : List Callback) → given_strands (fs ++ gs) ≡ given_strands fs + given_strands gs
given_strands-append [] gs = omega arith
given_strands-append (f ∷ fs) gs = omega (arith, given_strands-append fs gs)

task_strands-append :
    (ts us : List Task) → task_strands (ts ++ us) ≡ task_strands ts + task_strands us
task_strands-append [] us = omega arith
task_strands-append (t ∷ ts) us = omega (arith, task_strands-append ts us)

take_out-strands :
    (n : ℕ) (fs : List Callback) (f : Callback) (gs : List Callback)
    → take_out n fs ≡ some (f, gs)
    → given_strands fs ≡ strand f + given_strands gs
take_out-strands n [] f gs h = ground arith
take_out-strands zero (g ∷ fs) f gs h = ground arith
take_out-strands (suc n) (g ∷ fs) f gs h = elim (Option-cases (take_out n fs)) [
  | inl missing ↦ ground (arith, missing)
  | inr ((k, ks), found) ↦ ground (arith, found, take_out-strands n fs k ks found)
]

-- One event: something stays under way, and only a failed write adds to it.
abbrev pub IsUnderWay : ℕ → ℕ → Outcome Run → Type 0
IsUnderWay n added (ok r) = (1 ≤ strands r) × (strands r ≤ n + added) × (r.client.valid ≡ true)
IsUnderWay n added (fault why) = ⊥

-- A handler of a message adds no strand and takes none.
record IsSame (c d : Client) : Type 0 where
  connecting : d.connecting ≡ c.connecting
  reading : d.reading ≡ c.reading
  waiting : d.waiting ≡ c.waiting
  expired : d.expired ≡ c.expired
  tasks : task_strands d.tasks ≡ task_strands c.tasks
  valid : d.valid ≡ c.valid

handle_parsed-IsSame {ℓ} :
    {M : Type ℓ} (ndebug : Bool) (parsed : Option M) (f : M → Client → Client) (c : Client)
    → is_some parsed ≡ true
    → ((m : M) → IsSame c (f m c))
    → (d : Client) × (handle_parsed ndebug parsed f c ≡ ok (true, d)) × IsSame c d
unfolding handle_parsed when_some
handle_parsed-IsSame ndebug none f c h same = cc
handle_parsed-IsSame ndebug (some m) f c h same = (f m c, refl, same m)

post-IsSame :
    (t : Task) (c : Client)
    → given_strands (callbacks_of t) ≡ 0
    → IsSame c (record c { tasks = c.tasks ++ (t ∷ []) })
post-IsSame t c free = ground (arith, task_strands-append c.tasks (t ∷ []))

parse_message-IsSame :
    (proto : ServerProtobuf) (ndebug : Bool) (type : MessageType) (body : String) (c : Client)
    → IsWellFormed proto type body
    → (d : Client) × (parse_message proto ndebug type body c ≡ ok (true, d)) × IsSame c d
unfolding parse_message on_server_greeting send_message on_config_reply on_config_updated
    on_request_stream on_stop_stream
parse_message-IsSame proto ndebug server_greeting_message body c h =
    let parsed : Option (Unit {0}) = if proto.server_greeting body then some tt else none in
    handle_parsed-IsSame ndebug parsed (λ _. on_server_greeting) c (ground arith)
      (λ m. ground arith)
parse_message-IsSame proto ndebug empty_message body c h = elim h [ ]
parse_message-IsSame proto ndebug client_greeting_message body c h = elim h [ ]
parse_message-IsSame proto ndebug client_config_request_message body c h = elim h [ ]
parse_message-IsSame proto ndebug client_ready_message body c h = elim h [ ]
parse_message-IsSame proto ndebug stream_status_message body c h = elim h [ ]
parse_message-IsSame proto ndebug client_config_reply_message body c h =
    handle_parsed-IsSame ndebug _ on_config_reply c h
      (λ m. post-IsSame (load_config m send_ready) c refl)
parse_message-IsSame proto ndebug client_config_updated_message body c h =
    handle_parsed-IsSame ndebug _ on_config_updated c h
      (λ m. post-IsSame (update_config m send_ready) c refl)
parse_message-IsSame proto ndebug request_stream_message body c h =
    handle_parsed-IsSame ndebug _ on_request_stream c h (λ m.
      post-IsSame
        (stream_requested m (send_stream_status m.source_id true)
          (send_stream_status m.source_id false))
        c refl)
parse_message-IsSame proto ndebug stop_stream_message body c h =
    handle_parsed-IsSame ndebug _ on_stop_stream c h (λ m. post-IsSame (stop_stream_of m) c refl)

on_message-IsUnderWay :
    (proto : ServerProtobuf) (ndebug : Bool) (type : MessageType) (body : String) (error : Bool)
    (r : Run)
    → r.client.valid ≡ true
    → IsAllowed proto (message type body error) r
    → IsUnderWay (strands r) 0 (handle proto ndebug (message type body error) r)
unfolding handle on_message on_error return_if
on_message-IsUnderWay proto ndebug type body true r valid allowed =
    ground (arith, task_strands-append r.client.tasks (reset_controller schedule_reconnect ∷ []))
on_message-IsUnderWay proto ndebug type body false r valid allowed =
    let before : Client = record r.client { reading = r.client.reading - 1 } in
    let (d, parsed, same) = parse_message-IsSame proto ndebug type body before (allowed.1 refl) in
    rw parsed (
      ground
        (arith, same.connecting, same.reading, same.waiting, same.expired, same.tasks, same.valid))

take_task-IsUnderWay :
    (ts : List Task) (r : Run)
    → r.client.valid ≡ true
    → 1 ≤ strands r
    → r.client.tasks ≡ ts
    → IsUnderWay (strands r) 0 (ok (take_task ts r))
take_task-IsUnderWay [] r valid live h = ground arith
take_task-IsUnderWay (t ∷ ts) r valid live h =
    ground (arith, given_strands-append r.given (callbacks_of t), ap task_strands h)

call_back-IsUnderWay :
    (f : Callback) (rest : List Callback) (r : Run)
    → r.client.valid ≡ true
    → 1 ≤ strands r
    → given_strands r.given ≡ strand f + given_strands rest
    → IsUnderWay (strands r) 0 (ok (record { client = call_back false f r.client; given = rest }))
unfolding call_back schedule_connect send_message return_if
call_back-IsUnderWay schedule_reconnect rest r valid live h = ground arith
call_back-IsUnderWay send_ready rest r valid live h = ground arith
call_back-IsUnderWay (send_stream_status source success) rest r valid live h = ground arith

handle-IsUnderWay :
    (proto : ServerProtobuf) (ndebug : Bool) (e : Event) (r : Run)
    → r.client.valid ≡ true
    → IsAllowed proto e r
    → 1 ≤ strands r
    → IsUnderWay (strands r) (write_failures (e ∷ [])) (handle proto ndebug e r)
unfolding handle on_connected on_error greet send_message on_write_fail on_timer connect return_if
handle-IsUnderWay proto ndebug (connected true) r valid allowed live =
    ground (arith, task_strands-append r.client.tasks (reset_controller schedule_reconnect ∷ []))
handle-IsUnderWay proto ndebug (connected false) r valid allowed live = ground arith
handle-IsUnderWay proto ndebug (message type body error) r valid allowed live =
    on_message-IsUnderWay proto ndebug type body error r valid allowed
handle-IsUnderWay proto ndebug write_failed r valid allowed live =
    ground (arith, task_strands-append r.client.tasks (reset_controller schedule_reconnect ∷ []))
handle-IsUnderWay proto ndebug timer_expires r valid allowed live =
    if_keeps (λ s. IsUnderWay (strands r) 0 (ok s)) r.client.waiting _ _
      (λ waits. ground (arith, waits)) (λ none. ground arith)
handle-IsUnderWay proto ndebug task_taken r valid allowed live =
    take_task-IsUnderWay r.client.tasks r valid live refl
handle-IsUnderWay proto ndebug (wait_ended true) r valid allowed live = ground arith
handle-IsUnderWay proto ndebug (wait_ended false) r valid allowed live =
    ground (arith, allowed refl)
handle-IsUnderWay proto ndebug (called n) r valid allowed live =
    when_some_keeps (λ s. IsUnderWay (strands r) 0 (ok s)) (take_out n r.given) r _ (ground arith)
      (λ (f, rest) found.
        call_back-IsUnderWay f rest r valid live (take_out-strands n r.given f rest found))

write_failures-cons :
    (e : Event) (es : List Event)
    → write_failures (e ∷ es) ≡ write_failures (e ∷ []) + write_failures es
write_failures-cons (connected error) es = omega arith
write_failures-cons (message type body error) es = omega arith
write_failures-cons write_failed es = omega arith
write_failures-cons timer_expires es = omega arith
write_failures-cons task_taken es = omega arith
write_failures-cons (wait_ended error) es = omega arith
write_failures-cons (called n) es = omega arith

IsUnderWay-le :
    (n m added more : ℕ) (o : Outcome Run)
    → m ≤ n + added
    → IsUnderWay m more o
    → IsUnderWay n (added + more) o
IsUnderWay-le n m added more (ok s) h g = (g.0, omega arith, g.2)
IsUnderWay-le n m added more (fault why) h g = g

bind-IsUnderWay :
    (n a b : ℕ) (o : Outcome Run) (next : Run → Outcome Run) (P : Run → Type 0)
    → IsUnderWay n a o
    → Then P o
    → ((s : Run) → s.client.valid ≡ true → P s → 1 ≤ strands s → IsUnderWay (strands s) b (next s))
    → IsUnderWay n (a + b) (o >>= next)
bind-IsUnderWay n a b (ok s) next P g h k =
    IsUnderWay-le n (strands s) a b (next s) g.1 (k s g.2 h g.0)
bind-IsUnderWay n a b (fault why) next P g h k = absurd g

-- A client with a valid context that is not shutting down, whatever the network, the timer and the
-- controller do: no assertion fails, the context stays valid, of the answers to `connect` and
-- `readMessageAsync`, the waits and the resets that end with `scheduleConnect` there is always at least one
-- under way, so that the client never stops to connect and to read, and there are no more than before and
-- one for each write that failed. The messages are those of the protocol that the server sends, the
-- network answers what waits for an answer, and the controller calls a callback once at most.
pub run-IsUnderWay :
    (proto : ServerProtobuf) (ndebug : Bool) (es : List Event) (r : Run)
    → r.client.valid ≡ true
    → AllAllowed proto ndebug es r
    → 1 ≤ strands r
    → IsUnderWay (strands r) (write_failures es) (run proto ndebug es r)
unfolding run
run-IsUnderWay proto ndebug [] r valid allowed live = ground arith
run-IsUnderWay proto ndebug (e ∷ es) r valid allowed live = rw (write_failures-cons e es) (
    bind-IsUnderWay (strands r) (write_failures (e ∷ [])) (write_failures es)
      (handle proto ndebug e r) (run proto ndebug es) (AllAllowed proto ndebug es)
      (handle-IsUnderWay proto ndebug e r valid allowed.0 live) allowed.1
      (run-IsUnderWay proto ndebug es))

handle_parsed_missing {ℓ} :
    {M : Type ℓ} (parsed : Option M) (f : M → Client → Client) (c : Client)
    → ¬ (is_some parsed ≡ true)
    → handle_parsed true parsed f c ≡ ok (false, c)
unfolding handle_parsed when_some
handle_parsed_missing none f c bad = refl
handle_parsed_missing (some m) f c bad = absurd (bad refl)

parse_message_malformed :
    (proto : ServerProtobuf) (type : MessageType) (body : String) (c : Client)
    → ¬ (IsWellFormed proto type body)
    → parse_message proto true type body c ≡ ok (false, c)
unfolding parse_message
parse_message_malformed proto server_greeting_message body c bad =
    let parsed : Option (Unit {0}) = if proto.server_greeting body then some tt else none in
    handle_parsed_missing parsed (λ _. on_server_greeting) c (λ read. bad (ground arith))
parse_message_malformed proto client_config_reply_message body c bad =
    handle_parsed_missing _ on_config_reply c bad
parse_message_malformed proto client_config_updated_message body c bad =
    handle_parsed_missing _ on_config_updated c bad
parse_message_malformed proto request_stream_message body c bad =
    handle_parsed_missing _ on_request_stream c bad
parse_message_malformed proto stop_stream_message body c bad =
    handle_parsed_missing _ on_stop_stream c bad
parse_message_malformed proto empty_message body c bad = refl
parse_message_malformed proto client_greeting_message body c bad = refl
parse_message_malformed proto client_config_request_message body c bad = refl
parse_message_malformed proto client_ready_message body c bad = refl
parse_message_malformed proto stream_status_message body c bad = refl

-- A release build of the client that reads a message of a type it does not know, or that it cannot
-- parse, stops for good: where that read was all that it waited for, nothing is under way any more.
pub malformed-stops :
    (proto : ServerProtobuf) (type : MessageType) (body : String) (r : Run)
    → ¬ (IsWellFormed proto type body)
    → 0 < r.client.reading
    → strands r ≡ 1
    → (s : Run) × (handle proto true (message type body false) r ≡ ok s) × (strands s ≡ 0)
unfolding handle on_message return_if
malformed-stops proto type body r bad reading one =
    let before : Client = record r.client { reading = r.client.reading - 1 } in
    (
      record r { client = before },
      rw (parse_message_malformed proto type body before bad),
      omega arith,
    )
