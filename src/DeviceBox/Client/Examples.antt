-- ===== src/DeviceBox/Client/Examples.antt =====
-- DeviceBox/Client.cpp: a client whose context is valid.
use ip_cam_box.Prelude.{
  ◌<◌, string_eq, ◌==◌, true, false, none, some, List, [], ◌∷◌, ◌≡◌, refl, if◌then◌else◌, arith,
  return_if, when_some,
}
use ip_cam_box.Server.ControlServer.Protocol.{server_greeting_message, stop_stream_message}
use ip_cam_box.DeviceBox.Client.{
  ServerProtobuf, construct, connect_to, connect, no_error, context_calls, on_connected, on_message,
  parse_message, handle_parsed, on_server_greeting, on_stop_stream, on_write_fail, on_error, greet,
  send_message, call_back, schedule_connect, on_timer,
}
use ip_cam_box.DeviceBox.Client.Strands.{
  Run, Event, connected, message, write_failed, task_taken, called, timer_expires, wait_ended, run,
  handle, run-IsUnderWay, IsUnderWay,
}

-- The server's `StopStream` of the source "a", and its greeting.
abbrev proto : ServerProtobuf
proto = record {
  server_greeting = λ body. body == "";
  client_config_reply = λ body. none;
  client_config_updated = λ body. none;
  request_stream = λ body. none;
  stop_stream = λ body. if body == "a" then some "a" else none;
}

abbrev started : Run
started = record {
  client = connect_to false "server" 7 (construct true (λ call. false));
  given = [];
}

-- The client connects, is greeted, fails to write, and loses the connection; both errors reset the
-- controller, and the second wait takes the place of the first.
abbrev events : List Event
events =
    connected false
    ∷ message server_greeting_message "" false
    ∷ write_failed
    ∷ message stop_stream_message "a" false
    ∷ message stop_stream_message "a" true
    ∷ task_taken
    ∷ task_taken
    ∷ task_taken
    ∷ called 1
    ∷ called 0
    ∷ timer_expires
    ∷ wait_ended false
    ∷ []

run-IsUnderWay_example : IsUnderWay 1 1 (run proto false events started)
unfolding connect_to connect construct no_error context_calls run handle on_connected on_message
    parse_message handle_parsed on_server_greeting on_stop_stream on_write_fail on_error greet
    send_message call_back schedule_connect on_timer return_if when_some
run-IsUnderWay_example =
    run-IsUnderWay proto false events started refl
      (
        omega arith,
        (
          (omega arith, λ read. refl),
          (tt, ((omega arith, λ read. refl), ((omega arith, λ read. refl), waits))),
        ),
      )
      (omega arith)
  where
    waits :
        Unit {0}
        × (Unit {0}
            × (Unit {0}
                × (Unit {0} × (Unit {0} × (Unit {0} × ((false ≡ false → 0 < 1) × Unit {0}))))))
    waits = (tt, (tt, (tt, (tt, (tt, (tt, ((λ fine. omega arith), tt)))))))
