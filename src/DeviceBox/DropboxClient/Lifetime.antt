-- ===== src/DeviceBox/DropboxClient/Lifetime.antt =====
-- DeviceBox/Dropbox.cpp: how long the thread of the client runs.
use ip_cam_box.Prelude.{
  ℕ, nat_eq, Bool, true, false, ◌||◌, not, Option, none, some, Option-cases, List, [], ◌∷◌, ◌++◌,
  ◌≡◌, refl, ap, sym, ◌∙◌, subst, inl, inr, ok, ◌>>=◌, Then, bind-Then, if_keeps, ltb, ◌+◌,
  when_some, when_some_keeps, ◌%◌, ◌^◌, is_some, is_nil, ◌&&◌, arith, List-cases,
}
use ip_cam_box.DeviceBox.DropboxClient.Actions.{Action, Transfer}
use ip_cam_box.DeviceBox.DropboxClient.{report_of}
use ip_cam_box.DeviceBox.DropboxClient.{
  Internal, Task, Event, Answers, Progress, Report, posts, runs, expires, returns, step, steps,
  schedule, perform, ℤ, pos, negsuc, upload, list_folder, latest_folder_cursor,
  continue_list_folder, delete_path, delete_batch, shutdown, curl_perform, waited, Post, report,
  thread_ended, end_action, progressed, run_first, run_task, start, max_uploads, start_upload,
  action_done, action_finished, upload_finished,
}
use ip_cam_box.DeviceBox.DropboxClient.Runs.{schedule_lem, action_done_lem, perform-Then}

-- A task that goes on with `curlPerform`.
abbrev pub turns : Task → Bool
turns curl_perform = true
turns (waited error) = not error
turns _ = false

abbrev pub any_turns : List Task → Bool
any_turns [] = false
any_turns (task ∷ tasks) = turns task || any_turns tasks

-- Another `curlPerform` is to come: a wait is running, or a task is there.
abbrev pub is_turning : Internal → Bool
is_turning s = is_some s.timer || any_turns s.tasks

any_turns-append :
    (tasks more : List Task) → any_turns (tasks ++ more) ≡ (any_turns tasks || any_turns more)
any_turns-append [] more = refl
any_turns-append (task ∷ tasks) more = ground (arith, any_turns-append tasks more)

schedule_turns : (m : ℤ) (s : Internal) → is_turning (schedule m s) ≡ true
unfolding schedule
schedule_turns (pos n) s = elim (Option-cases s.timer) [
  | inl idle ↦ ground (arith, idle, any_turns-append s.tasks (curl_perform ∷ []))
  | inr (t, armed) ↦
      ground (arith, armed, any_turns-append (s.tasks ++ (waited true ∷ [])) (curl_perform ∷ []))
]
schedule_turns (negsuc n) s = ground arith

abbrev pub ends : List Post → ℕ
ends [] = 0
ends (report r ∷ ps) = ends ps
ends (thread_ended ∷ ps) = ends ps + 1

ends-append : (ps qs : List Post) → ends (ps ++ qs) ≡ ends ps + ends qs
ends-append [] qs = omega arith
ends-append (report r ∷ ps) qs = ends-append ps qs
ends-append (thread_ended ∷ ps) qs = omega (arith, ends-append ps qs)

-- `_curlIoService.run()` has not returned, and the end of the thread has not been posted.
IsRunning : Internal → Type 0
IsRunning s = (s.ended ≡ false) × (ends s.posted ≡ 0)

-- In addition, another `curlPerform` is to come.
pub IsTurning : Internal → Type 0
unfolding IsRunning
IsTurning s = (s.ended ≡ false) × (ends s.posted ≡ 0) × (is_turning s ≡ true)

done-ends : (c : ℕ) (a : Action) (s : Internal) → ends (action_done c a s).posted ≡ ends s.posted
done-ends c a s =
    subst (λ t. ends t.posted ≡ ends s.posted) (sym (action_done_lem c a s))
      (ground (arith, ends-append s.posted (report (report_of c a) ∷ [])))

done-ended : (c : ℕ) (a : Action) (s : Internal) → (action_done c a s).ended ≡ s.ended
done-ended c a s = ap (λ t. t.ended) (action_done_lem c a s)

done-turning : (c : ℕ) (a : Action) (s : Internal) → is_turning (action_done c a s) ≡ is_turning s
done-turning c a s = ap (λ t. is_turning t) (action_done_lem c a s)

perform-IsTurning :
    (ndebug : Bool) (p : Progress) (s : Internal)
    → IsRunning s
    → Then IsTurning (perform ndebug p s)
unfolding IsRunning IsTurning progressed end_action
perform-IsTurning ndebug p s h =
    perform-Then IsRunning IsTurning (λ t ms k. k)
      (λ m a t found k. (done-ended m.response_code a t ∙ k.0, done-ends m.response_code a t ∙ k.1))
      (λ q t k. k)
      (λ m t k. (
        ap (λ u. u.ended) (schedule_lem m t) ∙ k.0,
        ap (λ u. ends u.posted) (schedule_lem m t) ∙ k.1,
        schedule_turns m t,
      ))
      ndebug p s h

start-IsTurning :
    (ndebug : Bool) (p : Progress) (a : Action) (o : Option Transfer) (s : Internal)
    → IsTurning s
    → Then IsTurning (start ndebug p a o s)
unfolding start IsTurning IsRunning
start-IsTurning ndebug p a none s h =
    (done-ended 0 a s ∙ h.0, done-ends 0 a s ∙ h.1, done-turning 0 a s ∙ h.2)
start-IsTurning ndebug p a (some transfer) s h = perform-IsTurning ndebug p _ (h.0, h.1)

run_task-IsTurning :
    (ndebug : Bool) (answers : Answers) (task : Task) (s : Internal)
    → IsRunning s
    → (turns task || is_turning s) ≡ true
    → Then IsTurning (run_task ndebug answers task s)
unfolding run_task start_upload IsTurning IsRunning upload_finished action_finished
run_task-IsTurning ndebug answers (upload src dst finished) s h k =
    if_keeps (Then IsTurning) (ltb max_uploads ((s.upload_count + 1) % 2 ^ 32)) _ _
      (λ skipped.
        let r : Report = record { finished = finished; response_code = 0; response = "" } in
        (h.0, ground (arith, h.1, ends-append s.posted (report r ∷ [])), k))
      (λ room. start-IsTurning ndebug _ _ _ _ (h.0, h.1, k))
run_task-IsTurning ndebug answers (list_folder path recursive finished internal) s h k =
    start-IsTurning ndebug _ _ _ s (h.0, h.1, k)
run_task-IsTurning ndebug answers (continue_list_folder cursor finished internal) s h k =
    start-IsTurning ndebug _ _ _ s (h.0, h.1, k)
run_task-IsTurning ndebug answers (latest_folder_cursor path recursive finished internal) s h k =
    start-IsTurning ndebug _ _ _ s (h.0, h.1, k)
run_task-IsTurning ndebug answers (delete_path path finished internal) s h k =
    start-IsTurning ndebug _ _ _ s (h.0, h.1, k)
run_task-IsTurning ndebug answers (delete_batch list finished internal) s h k =
    start-IsTurning ndebug _ _ _ s (h.0, h.1, k)
run_task-IsTurning ndebug answers (shutdown finished) s h k = (h.0, h.1, k)
run_task-IsTurning ndebug answers curl_perform s h k = perform-IsTurning ndebug _ s h
run_task-IsTurning ndebug answers (waited error) s h k =
    if_keeps (Then IsTurning) error _ _ (λ aborted. (h.0, h.1, ground (arith, aborted, k)))
      (λ over. perform-IsTurning ndebug _ s h)

run_first-IsTurning :
    (ndebug : Bool) (answers : Answers) (tasks : List Task) (s : Internal)
    → IsRunning s
    → (is_some s.timer || any_turns tasks) ≡ true
    → tasks ≡ s.tasks
    → Then IsTurning (run_first ndebug answers tasks s)
unfolding run_first IsTurning IsRunning
run_first-IsTurning ndebug answers [] s h k same = (h.0, h.1, ground (arith, k, same))
run_first-IsTurning ndebug answers (task ∷ rest) s h k same =
    if_keeps (Then IsTurning) s.ended _ _ (λ ended. ground (arith, ended, h.0))
      (λ running.
        run_task-IsTurning ndebug answers task (record s { tasks = rest }) h (ground (arith, k)))

step-IsTurning :
    (ndebug : Bool) (event : Event) (s : Internal)
    → IsTurning s
    → Then IsTurning (step ndebug event s)
unfolding step IsTurning IsRunning when_some
step-IsTurning ndebug (posts task) s h =
    (h.0, h.1, ground (arith, h.2, any_turns-append s.tasks (task ∷ [])))
step-IsTurning ndebug (runs answers) s h =
    run_first-IsTurning ndebug answers s.tasks s (h.0, h.1) h.2 refl
step-IsTurning ndebug expires s h =
    when_some_keeps (Then IsTurning) s.timer _ _ h
      (λ t armed. (h.0, h.1, ground (arith, any_turns-append s.tasks (waited false ∷ []))))
step-IsTurning ndebug returns s h =
    if_keeps (Then IsTurning)
      (is_nil s.tasks && not (is_some s.timer) && not s.working && not s.ended) _ (ok s)
      (λ idle. ground (arith, idle, h.2, List-cases s.tasks)) (λ busy. h)

steps-IsTurning :
    (ndebug : Bool) (events : List Event) (s : Internal)
    → IsTurning s
    → Then IsTurning (steps ndebug events s)
unfolding steps
steps-IsTurning ndebug [] s h = h
steps-IsTurning ndebug (event ∷ events) s h =
    bind-Then IsTurning IsTurning (step ndebug event s) (steps ndebug events)
      (step-IsTurning ndebug event s h) (steps-IsTurning ndebug events)

-- Once the thread has been in `curlPerform`, which every request that reaches libcurl calls, nothing
-- ends it: if it was running and had not posted its end, then after `curlPerform` and any further
-- events, a posted `shutdown` and the expiry of waits among them, it still runs, its end, which alone
-- calls `_shutdowned`, is not posted, and another `curlPerform` is to come.
pub perform-never_ends :
    (ndebug : Bool) (p : Progress) (events : List Event) (s : Internal)
    → s.ended ≡ false
    → ends s.posted ≡ 0
    → Then
        (λ t. (t.ended ≡ false) × (ends t.posted ≡ 0) × (is_turning t ≡ true))
        (perform ndebug p s >>= steps ndebug events)
unfolding IsTurning IsRunning
perform-never_ends ndebug p events s running unposted =
    bind-Then IsTurning IsTurning (perform ndebug p s) (steps ndebug events)
      (perform-IsTurning ndebug p s (running, unposted)) (steps-IsTurning ndebug events)
