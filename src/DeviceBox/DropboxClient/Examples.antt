-- ===== src/DeviceBox/DropboxClient/Examples.antt =====
-- DeviceBox/Dropbox.cpp: runs of the client at concrete answers of libcurl.
use ip_cam_box.Prelude.{
  none, ℕ, ◌+◌, ◌≤◌, true, false, some, List, [], ◌∷◌, ◌++◌, ◌≡◌, ◌≢◌, ◌⊎◌, refl, ◌>>=◌, Then,
  nat_eq,
}
use ip_cam_box.Prelude.Assoc.{Assoc, IsMap}
use ip_cam_box.DeviceBox.DropboxClient.Actions.{
  Action, batch_body, upload_init, new_action, upload_action,
}
use ip_cam_box.DeviceBox.DropboxClient.{
  Internal, Event, Answers, Progress, negsuc, posts, runs, expires, returns, step, steps, perform,
  construct, upload, shutdown, recreate, report, run_task, start, max_uploads,
}
use ip_cam_box.Prelude.Assoc.{modify, find, erase}
use ip_cam_box.Prelude.{when_some}
use ip_cam_box.DeviceBox.DropboxClient.Actions.{write_entries}
use ip_cam_box.DeviceBox.DropboxClient.Batch.{pieces, read_objects}
use ip_cam_box.DeviceBox.DropboxClient.{
  progressed, collect_response, read_messages, handle_done, end_action, action_done,
  upload_finished, action_finished, schedule,
}
use ip_cam_box.DeviceBox.DropboxClient.Batch.{read_batch}
use ip_cam_box.DeviceBox.DropboxClient.Uploads.{uploads}
use ip_cam_box.DeviceBox.DropboxClient.Limit.{
  Reachable, started, stepped, uploads_limited, IsFreshEvent,
}
use ip_cam_box.DeviceBox.DropboxClient.Answered.{
  Trace, at_start, then_event, run-places, places, asked_by, in_posts, in_calls,
}
use ip_cam_box.DeviceBox.DropboxClient.Messages.{perform-reads, all_ended}
use ip_cam_box.DeviceBox.DropboxClient.Lifetime.{perform-never_ends, ends, is_turning}

-- One transfer runs, and libcurl has no time to wait for.
abbrev running : Progress
running = record {
  performed = true;
  running_count = 1;
  received = [];
  messages = [];
  removed = true;
  timed = true;
  milliseconds = negsuc 0;
}

abbrev first_answers : Answers
first_answers = record { easy = some 7; opened = true; progress = running }

-- The transfer is done with code 200.
abbrev done : Progress
done = record running {
  running_count = 0;
  received = (7, "{}") ∷ [];
  messages = (record { done = true; easy_handle = 7; response_code = 200 }) ∷ [];
}

abbrev request : Event
request = posts (upload "video.mp4" "/camera/video.mp4" 42)

waiting :
    Reachable false (record construct { tasks = upload "video.mp4" "/camera/video.mp4" 42 ∷ [] })
unfolding construct step IsFreshEvent
waiting = stepped request construct started tt refl

abbrev no_actions : Assoc ℕ Action
no_actions = []

uploads_limited_example :
    (construct.upload_count ≡ uploads no_actions)
    × (uploads no_actions ≤ max_uploads)
    × IsMap no_actions
    × (run_task false first_answers
          (upload "a" "b" 1)
          (record construct { tasks = upload "video.mp4" "/camera/video.mp4" 42 ∷ [] })
        ≡ start false running
            (new_action (upload_action "b" "a") false 1)
            (upload_init (some 7) true "" "b" "a")
            (record construct {
              tasks = upload "video.mp4" "/camera/video.mp4" 42 ∷ [];
              upload_count = 1;
            }))
unfolding construct
uploads_limited_example = uploads_limited first_answers "a" "b" 1 waiting

one_request-Trace :
    Trace false
      (request ∷ [])
      (record construct { tasks = upload "video.mp4" "/camera/video.mp4" 42 ∷ [] })
unfolding construct step IsFreshEvent
one_request-Trace = then_event request [] construct at_start tt refl

run-places_example :
    (places 42 (record construct { tasks = upload "video.mp4" "/camera/video.mp4" 42 ∷ [] })
      ≡ asked_by 42 (request ∷ []))
    × (in_posts 42 [] + in_calls 42 [] ≤ asked_by 42 (request ∷ []))
unfolding construct
run-places_example = run-places 42 one_request-Trace

-- The upload of above with libcurl.
abbrev busy : Internal
busy = record construct {
  running_count = 1;
  upload_count = 1;
  actions = (7, record (new_action (upload_action "b" "a") false 42) { response = "[" }) ∷ [];
}

-- A transfer that ends while another starts: the number of the running ones is the same.
abbrev replaced : Progress
replaced = record done { running_count = 1 }

perform-reads_example :
    Then
      (λ t.
        ((busy.running_count ≢ replaced.running_count)
          × (t.messages ≡ [])
          × (all_ended (busy.messages ++ replaced.messages) t.actions ≡ true))
        ⊎ ((busy.running_count ≡ replaced.running_count)
            × (t.messages ≡ busy.messages ++ replaced.messages)
            × (t.posted ≡ busy.posted)
            × (t.called ≡ busy.called)))
      (perform false replaced busy)
perform-reads_example = perform-reads false replaced busy

-- The response of the upload is what libcurl gave in parts, and its report is posted.
reported :
    Then
      (λ t.
        t.posted ≡ report (record { finished = 42; response_code = 200; response = "[{}" }) ∷ [])
      (perform false done busy)
unfolding perform construct new_action progressed collect_response read_messages handle_done
    end_action action_done upload_finished action_finished schedule modify find erase when_some
reported = refl

-- A shutdown is asked for, and all that can run runs.
abbrev after : List Event
after =
    posts (shutdown (recreate 1)) ∷ runs first_answers ∷ expires ∷ runs first_answers ∷ returns ∷ []

perform-never_ends_example :
    Then
      (λ t. (t.ended ≡ false) × (ends t.posted ≡ 0) × (is_turning t ≡ true))
      (perform false done busy >>= steps false after)
unfolding construct
perform-never_ends_example = perform-never_ends false done after busy refl refl

-- A quote in a path makes the body another text.
quoted : read_batch (batch_body ("/a\"b" ∷ [])) ≡ none
unfolding read_batch batch_body write_entries pieces read_objects
quoted = refl

-- The reader wants the commas and the end.
unseparated :
    (read_batch "{\"entries\":[{\"path\":\"/a\"}{\"path\":\"/b\"}]}" ≡ none)
    × (read_batch "{\"entries\":[{\"path\":\"/a\"}" ≡ none)
unfolding read_batch pieces read_objects
unseparated = (refl, refl)
