-- ===== src/DeviceBox/DropboxClient/Answered.antt =====
-- DeviceBox/Dropbox.cpp: where the callback of a request is, until it is called or posted.
use ip_cam_box.Prelude.{
  ℕ, nat_eq, nat_beq_iff, ◌+◌, ◌%◌, ◌^◌, ◌≤◌, ◌==◌, String, concat, Bool, true, false, not, ◌&&◌,
  Option, none, some, Option-cases, Bool-cases, List, [], ◌∷◌, ◌++◌, ◌≡◌, refl, sym, ap, ◌∙◌, subst,
  inl, inr, ok, Then, is_nil, is_some, if◌then◌else◌, if_keeps, ltb, when_some, when_some_keeps,
  arith,
}
use ip_cam_box.Prelude.Assoc.{
  Assoc, IsMap, find, erase, emplace, modify, erase-IsMap, emplace-IsMap, erase_absent,
}
use ip_cam_box.DeviceBox.DropboxClient.Actions.{
  Action, Transfer, new_action, list_folder_init, continue_list_folder_init,
  latest_folder_cursor_init, delete_path_init, delete_batch_init,
}
use ip_cam_box.DeviceBox.DropboxClient.{report_of}
use ip_cam_box.DeviceBox.DropboxClient.{
  Internal, Task, Event, Answers, Progress, Message, Report, ℤ, posts, runs, expires, returns, step,
  schedule, perform, upload, list_folder, latest_folder_cursor, continue_list_folder, delete_path,
  delete_batch, shutdown, curl_perform, waited, Post, pos, negsuc, report, thread_ended, run_first,
  run_task, start, start_upload, max_uploads, action_done, end_action, progressed, collect_response,
  upload_finished, action_finished, construct,
}
use ip_cam_box.DeviceBox.DropboxClient.Runs.{action_done_lem, schedule_lem, perform-Then, on_thread}
use ip_cam_box.DeviceBox.DropboxClient.Handles.{json_started, upload_started}
use ip_cam_box.DeviceBox.DropboxClient.Uploads.{collect-IsMap}
use ip_cam_box.DeviceBox.DropboxClient.Limit.{
  IsFresh, IsFreshEvent, Reachable, started, stepped, reachable-IsBounded,
}
use ip_cam_box.DeviceBox.DropboxClient.Uploads.{IsBounded}

-- The number of a callback in a request, an action or a report.
abbrev here : ℕ → ℕ → ℕ
here f finished = if finished == f then 1 else 0

abbrev pub in_task : ℕ → Task → ℕ
in_task f (upload src dst finished) = here f finished
in_task f (list_folder path recursive finished internal) = here f finished
in_task f (latest_folder_cursor path recursive finished internal) = here f finished
in_task f (continue_list_folder cursor finished internal) = here f finished
in_task f (delete_path path finished internal) = here f finished
in_task f (delete_batch list finished internal) = here f finished
in_task f _ = 0

abbrev pub in_tasks : ℕ → List Task → ℕ
in_tasks f [] = 0
in_tasks f (task ∷ tasks) = in_task f task + in_tasks f tasks

abbrev pub in_actions : ℕ → Assoc ℕ Action → ℕ
in_actions f [] = 0
in_actions f ((curl, a) ∷ actions) = here f a.finished + in_actions f actions

abbrev pub in_posts : ℕ → List Post → ℕ
in_posts f [] = 0
in_posts f (report r ∷ ps) = here f r.finished + in_posts f ps
in_posts f (thread_ended ∷ ps) = in_posts f ps

abbrev pub in_calls : ℕ → List Report → ℕ
in_calls f [] = 0
in_calls f (r ∷ calls) = here f r.finished + in_calls f calls

-- How often a callback is waiting to be tried, with libcurl, posted or called.
abbrev pub places : ℕ → Internal → ℕ
places f s =
    in_tasks f s.tasks + in_actions f s.actions + (in_posts f s.posted + in_calls f s.called)

module _ (f : ℕ) where
  tasks-append : (ts us : List Task) → in_tasks f (ts ++ us) ≡ in_tasks f ts + in_tasks f us
  tasks-append [] us = omega arith
  tasks-append (t ∷ ts) us = omega (arith, tasks-append ts us)

  posts-append : (ps qs : List Post) → in_posts f (ps ++ qs) ≡ in_posts f ps + in_posts f qs
  posts-append [] qs = omega arith
  posts-append (report r ∷ ps) qs = omega (arith, posts-append ps qs)
  posts-append (thread_ended ∷ ps) qs = posts-append ps qs

  calls-append : (rs qs : List Report) → in_calls f (rs ++ qs) ≡ in_calls f rs + in_calls f qs
  calls-append [] qs = omega arith
  calls-append (r ∷ rs) qs = omega (arith, calls-append rs qs)

  actions-emplace :
      (curl : ℕ) (a : Action) (actions : Assoc ℕ Action)
      → find curl actions ≡ none
      → in_actions f (emplace curl a actions) ≡ in_actions f actions + here f a.finished
  unfolding emplace find
  actions-emplace curl a [] h = omega arith
  actions-emplace curl a ((j, b) ∷ actions) h = ground (arith, actions-emplace curl a actions)

  actions-erase :
      (curl : ℕ) (a : Action) (actions : Assoc ℕ Action)
      → IsMap actions
      → find curl actions ≡ some a
      → in_actions f (erase curl actions) + here f a.finished ≡ in_actions f actions
  unfolding erase find
  actions-erase curl a [] h p = ground arith
  actions-erase curl a ((j, b) ∷ actions) h p =
      ground
        (arith, nat_beq_iff j curl, erase_absent curl actions, actions-erase curl a actions h.1)

  actions-modify :
      (curl : ℕ) (text : String) (actions : Assoc ℕ Action)
      → in_actions f (modify curl (λ a. record a { response = concat a.response text }) actions)
        ≡ in_actions f actions
  unfolding modify
  actions-modify curl text [] = refl
  actions-modify curl text ((j, b) ∷ actions) = ground (arith, actions-modify curl text actions)

  actions-collect :
      (received : List (ℕ × String)) (actions : Assoc ℕ Action)
      → in_actions f (collect_response received actions) ≡ in_actions f actions
  unfolding collect_response
  actions-collect [] actions = refl
  actions-collect ((curl, text) ∷ received) actions =
      actions-collect received _ ∙ actions-modify curl text actions

  -- The callback is in `n` places.
  Keeps : ℕ → Internal → Type 0
  Keeps n s = (places f s ≡ n) × IsMap s.actions

  done-places :
      (c : ℕ) (a : Action) (s : Internal) (actions : Assoc ℕ Action)
      → in_actions f actions + here f a.finished ≡ in_actions f s.actions
      → places f (record (action_done c a s) { actions = actions }) ≡ places f s
  done-places c a s actions h =
      subst (λ t. places f (record t { actions = actions }) ≡ places f s)
        (sym (action_done_lem c a s))
        (elim (Bool-cases (on_thread a)) [
          | inl called ↦ ground (arith, h, called, calls-append s.called (report_of c a ∷ []))
          | inr posted ↦
              ground (arith, h, posted, posts-append s.posted (report (report_of c a) ∷ []))
        ])

  end-Keeps :
      (n : ℕ) (m : Message) (a : Action) (s : Internal)
      → find m.easy_handle s.actions ≡ some a
      → Keeps n s
      → Keeps n (end_action m a s)
  unfolding Keeps end_action
  end-Keeps n m a s found h =
      let same : (action_done m.response_code a s).actions ≡ s.actions =
        ap (λ t. t.actions) (action_done_lem m.response_code a s) in
      let left : Assoc ℕ Action = erase m.easy_handle (action_done m.response_code a s).actions in
      (
        done-places m.response_code a s left (
              subst
                (λ kept.
                  in_actions f (erase m.easy_handle kept) + here f a.finished
                  ≡ in_actions f s.actions)
                (sym same) (actions-erase m.easy_handle a s.actions h.1 found))
            ∙ h.0,
        subst (λ kept. IsMap (erase m.easy_handle kept)) (sym same)
            (erase-IsMap m.easy_handle s.actions h.1),
      )

  schedule-tasks : (m : ℤ) (s : Internal) → in_tasks f (schedule m s).tasks ≡ in_tasks f s.tasks
  unfolding schedule
  schedule-tasks (pos n) s = elim (Bool-cases (n == 0)) [
    | inl now ↦ elim (Option-cases s.timer) [
      | inl idle ↦ ground (arith, now, idle, tasks-append s.tasks (curl_perform ∷ []))
      | inr (t, armed) ↦ ground (
        arith,
        now,
        armed,
        tasks-append s.tasks (waited true ∷ []),
        tasks-append (s.tasks ++ (waited true ∷ [])) (curl_perform ∷ []),
      )
    ]
    | inr later ↦ elim (Option-cases s.timer) [
      | inl idle ↦ ground (arith, later, idle)
      | inr (t, armed) ↦ ground (arith, later, armed, tasks-append s.tasks (waited true ∷ []))
    ]
  ]
  schedule-tasks (negsuc n) s = elim (Option-cases s.timer) [
    | inl idle ↦ ground (arith, idle)
    | inr (t, armed) ↦ ground (arith, armed, tasks-append s.tasks (waited true ∷ []))
  ]

  perform-Keeps :
      (n : ℕ) (ndebug : Bool) (p : Progress) (s : Internal)
      → Keeps n s
      → Then (Keeps n) (perform ndebug p s)
  unfolding Keeps progressed
  perform-Keeps n ndebug p s h =
      perform-Then (Keeps n) (Keeps n) (λ t ms k. k) (end-Keeps n)
        (λ q t k. (
          ground (arith, k.0, actions-collect q.received t.actions),
          collect-IsMap q.received t.actions k.1,
        ))
        (λ m t k.
          subst (Keeps n) (sym (schedule_lem m t)) (ground (arith, k.0, schedule-tasks m t), k.1))
        ndebug p s h

  start-Keeps :
      (n : ℕ) (ndebug : Bool) (p : Progress) (a : Action) (o : Option Transfer) (s : Internal)
      → places f s + here f a.finished ≡ n
      → IsMap s.actions
      → ((t : Transfer) → o ≡ some t → find t.curl s.actions ≡ none)
      → Then (Keeps n) (start ndebug p a o s)
  unfolding start Keeps
  start-Keeps n ndebug p a none s h map fresh =
      subst (λ t. (places f t ≡ n) × IsMap t.actions) (sym (action_done_lem 0 a s))
        (elim (Bool-cases (on_thread a)) [
          | inl called ↦
              (ground (arith, h, called, calls-append s.called (report_of 0 a ∷ [])), map)
          | inr posted ↦
              (ground (arith, h, posted, posts-append s.posted (report (report_of 0 a) ∷ [])), map)
        ])
  start-Keeps n ndebug p a (some t) s h map fresh =
      perform-Keeps n ndebug p (record s { actions = emplace t.curl a s.actions })
        (
          ground (arith, h, actions-emplace t.curl a s.actions (fresh t refl)),
          emplace-IsMap t.curl a s.actions map,
        )

  run_task-Keeps :
      (ndebug : Bool) (answers : Answers) (task : Task) (s : Internal)
      → IsMap s.actions
      → IsFresh answers s
      → Then (Keeps (in_task f task + places f s)) (run_task ndebug answers task s)
  unfolding run_task start_upload Keeps IsFresh upload_finished action_finished list_folder_init
      continue_list_folder_init latest_folder_cursor_init delete_path_init delete_batch_init
      new_action
  run_task-Keeps ndebug answers (upload src dst finished) s map fresh =
      if_keeps (Then (Keeps _)) (ltb max_uploads ((s.upload_count + 1) % 2 ^ 32)) _ _
        (λ skipped.
          let r : Report = record { finished = finished; response_code = 0; response = "" } in
          (ground (arith, posts-append s.posted (report r ∷ [])), map))
        (λ room. start-Keeps _ ndebug _ _ _ _ (omega arith) map (λ t made.
          fresh t.curl (upload_started answers.easy answers.opened s.token dst src t made)))
  run_task-Keeps ndebug answers (list_folder path recursive finished internal) s map fresh =
      start-Keeps _ ndebug _ _ _ s (omega arith) map
        (λ t made. fresh t.curl (json_started answers.easy s.token _ _ t made))
  run_task-Keeps ndebug answers (latest_folder_cursor path recursive finished internal) s map
        fresh =
      start-Keeps _ ndebug _ _ _ s (omega arith) map
        (λ t made. fresh t.curl (json_started answers.easy s.token _ _ t made))
  run_task-Keeps ndebug answers (continue_list_folder cursor finished internal) s map fresh =
      start-Keeps _ ndebug _ _ _ s (omega arith) map
        (λ t made. fresh t.curl (json_started answers.easy s.token _ _ t made))
  run_task-Keeps ndebug answers (delete_path path finished internal) s map fresh =
      start-Keeps _ ndebug _ _ _ s (omega arith) map
        (λ t made. fresh t.curl (json_started answers.easy s.token _ _ t made))
  run_task-Keeps ndebug answers (delete_batch list finished internal) s map fresh =
      start-Keeps _ ndebug _ _ _ s (omega arith) map
        (λ t made. fresh t.curl (json_started answers.easy s.token _ _ t made))
  run_task-Keeps ndebug answers (shutdown finished) s map fresh = (omega arith, map)
  run_task-Keeps ndebug answers curl_perform s map fresh =
      perform-Keeps _ ndebug _ s (omega arith, map)
  run_task-Keeps ndebug answers (waited error) s map fresh =
      if_keeps (Then (Keeps _)) error _ _ (λ aborted. (omega arith, map))
        (λ over. perform-Keeps _ ndebug _ s (omega arith, map))

  -- What an event adds: a posted request.
  abbrev asked : Event → ℕ
  asked (posts task) = in_task f task
  asked _ = 0

  run_first-Keeps :
      (ndebug : Bool) (answers : Answers) (tasks : List Task) (s : Internal)
      → tasks ≡ s.tasks
      → IsMap s.actions
      → IsFresh answers s
      → Then (Keeps (places f s)) (run_first ndebug answers tasks s)
  unfolding run_first Keeps IsFresh
  run_first-Keeps ndebug answers [] s same map fresh = (refl, map)
  run_first-Keeps ndebug answers (task ∷ rest) s same map fresh =
      if_keeps (Then (Keeps (places f s))) s.ended (ok s) _ (λ ended. (refl, map))
        (λ running.
          let popped : Internal = record s { tasks = rest } in
          let moved : in_task f task + places f popped ≡ places f s =
            ground (arith, ap (λ ts. in_tasks f ts) same) in
          subst (λ n. Then (Keeps n) (run_task ndebug answers task popped)) moved
            (run_task-Keeps ndebug answers task popped map fresh))

  step-Keeps :
      (ndebug : Bool) (event : Event) (s : Internal)
      → IsMap s.actions
      → IsFreshEvent event s
      → Then (Keeps (asked event + places f s)) (step ndebug event s)
  unfolding step Keeps IsFreshEvent when_some
  step-Keeps ndebug (posts task) s map fresh =
      (ground (arith, tasks-append s.tasks (task ∷ [])), map)
  step-Keeps ndebug (runs answers) s map fresh =
      let none_asked : places f s ≡ 0 + places f s = omega arith in
      subst (λ n. Then (Keeps n) (run_first ndebug answers s.tasks s)) none_asked
        (run_first-Keeps ndebug answers s.tasks s refl map fresh)
  step-Keeps ndebug expires s map fresh =
      when_some_keeps (Then (Keeps (0 + places f s))) s.timer (ok s) _ (omega arith, map)
        (λ t armed. (ground (arith, tasks-append s.tasks (waited false ∷ [])), map))
  step-Keeps ndebug returns s map fresh =
      if_keeps (Then (Keeps (0 + places f s)))
        (is_nil s.tasks && not (is_some s.timer) && not s.working && not s.ended) _ (ok s)
        (λ idle. (ground (arith, posts-append s.posted (thread_ended ∷ [])), map))
        (λ busy. (omega arith, map))

  abbrev pub asked_by : List Event → ℕ
  asked_by [] = 0
  asked_by (event ∷ events) = asked event + asked_by events

-- A run of the thread from its construction, with the events in their order.
pub data Trace (ndebug : Bool) : List Event → Internal → Type 0 where
  at_start : Trace ndebug [] construct
  then_event :
      (event : Event) (events : List Event) (s : Internal) {t : Internal}
      → Trace ndebug events s
      → IsFreshEvent event s
      → step ndebug event s ≡ ok t
      → Trace ndebug (event ∷ events) t

trace-Reachable :
    {ndebug : Bool} {events : List Event} {s : Internal}
    → Trace ndebug events s
    → Reachable ndebug s
trace-Reachable at_start = started
trace-Reachable (then_event event events s run fresh same) =
    stepped event s (trace-Reachable run) fresh same

-- A callback is neither lost nor called more often than it was given: after any run of the thread,
-- whatever libcurl answers, it is called, posted, with libcurl or waiting as a task as often altogether
-- as the run gave it with a request, so that it is called and posted no more often than that. A
-- handle that `curl_easy_init` gives is assumed not to be that of a running transfer.
pub run-places :
    {ndebug : Bool} {events : List Event} {s : Internal} (f : ℕ)
    → Trace ndebug events s
    → (places f s ≡ asked_by f events)
      × (in_posts f s.posted + in_calls f s.called ≤ asked_by f events)
unfolding construct Keeps IsBounded
run-places f at_start = (refl, omega arith)
run-places {ndebug} f (then_event event events s {t} run fresh same) =
    let (before, bound) = run-places f run in
    let (counted, bounded, map) = reachable-IsBounded (trace-Reachable run) in
    let (after, kept) =
      subst (Then (Keeps f (asked f event + places f s))) same
        (step-Keeps f ndebug event s map fresh) in
    (ground (arith, after, before), ground (arith, after, before))
