-- ===== src/DeviceBox/DropboxClient/Runs.antt =====
-- DeviceBox/Dropbox.cpp: what is kept by the messages of libcurl is kept by `curlPerform`, and what
-- holds after `curlPerform` and without it holds after a task.
use ip_cam_box.Prelude.{
  ℕ, nat_eq, ◌+◌, ◌%◌, ◌^◌, ◌==◌, Bool, true, false, some, List, [], ◌∷◌, ◌++◌, ◌≡◌, refl, ◌-◌,
  arith, Bool-cases, Option-cases, inl, inr, ok, Then, bind-Then, check-Then, if◌then◌else◌,
  if_keeps, when_some_keeps,
}
use ip_cam_box.Prelude.Assoc.{find}
use ip_cam_box.DeviceBox.DropboxClient.Actions.{
  continue_list_folder_action, list_folder_action, latest_folder_cursor_action, delete_path_action,
  delete_batch_action, Action, Kind, upload_action,
}
use ip_cam_box.DeviceBox.DropboxClient.{
  Internal, Message, Progress, ℤ, pos, negsuc, end_action, handle_done, read_messages, progressed,
  perform, report, report_of, action_finished, schedule, action_done, upload_finished,
}

-- A property that the end of an action and the reading of messages keep.
module _ (P : Internal → Type 0)
    (keeps_messages : (s : Internal) (ms : List Message) → P s → P (record s { messages = ms }))
    (keeps_end : (m : Message) (a : Action) (s : Internal)
      → find m.easy_handle s.actions ≡ some a
      → P s
      → P (end_action m a s))
    (ndebug : Bool) where
  handle_done-Then :
      (removed : Bool) (m : Message) (s : Internal) → P s → Then P (handle_done ndebug removed m s)
  unfolding handle_done
  handle_done-Then removed m s h = check-Then P ndebug removed _ (
      when_some_keeps (Then P) (find m.easy_handle s.actions) _ _
        (check-Then P ndebug false (ok s) h) (λ a found. keeps_end m a s found h))

  pub read_messages-Then :
      (removed : Bool) (ms : List Message) (s : Internal)
      → P s
      → Then P (read_messages ndebug removed ms s)
  unfolding read_messages
  read_messages-Then removed [] s h = keeps_messages s [] h
  read_messages-Then removed (m ∷ ms) s h =
      bind-Then P P (if m.done then handle_done ndebug removed m s else ok s)
        (read_messages ndebug removed ms)
        (if_keeps (Then P) m.done _ _ (λ done. handle_done-Then removed m s h) (λ other. h))
        (read_messages-Then removed ms)

-- In addition, one that holds at the end of `curlPerform` once the first does before.
module _ (P Q : Internal → Type 0)
    (keeps_messages : (s : Internal) (ms : List Message) → P s → P (record s { messages = ms }))
    (keeps_end : (m : Message) (a : Action) (s : Internal)
      → find m.easy_handle s.actions ≡ some a
      → P s
      → P (end_action m a s))
    (keeps_progress : (p : Progress) (s : Internal) → P s → P (progressed p s))
    (scheduled : (m : ℤ) (s : Internal) → P s → Q (schedule m s)) (ndebug : Bool) where
  pub perform-Then : (p : Progress) (s : Internal) → P s → Then Q (perform ndebug p s)
  unfolding perform
  perform-Then p s h =
      let after : P (progressed p s) = keeps_progress p s h in
      check-Then Q ndebug p.performed _ (
        bind-Then P Q _ _
          (if_keeps (Then P) (s.running_count == p.running_count) (ok (progressed p s)) _
            (λ same. after)
            (λ changed.
              read_messages-Then P keeps_messages keeps_end ndebug p.removed
                (progressed p s).messages (progressed p s) after))
          (λ t k. check-Then Q ndebug p.timed _ (scheduled p.milliseconds t k)))

abbrev pub is_upload_kind : Kind → Bool
is_upload_kind (upload_action dst src) = true
is_upload_kind _ = false

abbrev pub is_upload : Action → Bool
is_upload a = is_upload_kind a.kind

-- The callback is called on the thread itself.
abbrev pub on_thread : Action → Bool
on_thread a = if is_upload a then false else a.internal

done_kind :
    (k : Kind) (c : ℕ) (a : Action) (s : Internal)
    → a.kind ≡ k
    → action_done c a s ≡ record s {
      upload_count =
          if is_upload_kind k then (s.upload_count + 2 ^ 32 - 1) % 2 ^ 32 else s.upload_count;
      posted =
          if (if is_upload_kind k then false else a.internal)
          then s.posted
          else s.posted ++ (report (report_of c a) ∷ []);
      called =
          if (if is_upload_kind k then false else a.internal)
          then s.called ++ (report_of c a ∷ [])
          else s.called;
    }
unfolding action_done upload_finished action_finished
done_kind (upload_action dst src) c a s h = ground (arith, h)
done_kind (list_folder_action path) c a s h = ground (arith, h)
done_kind continue_list_folder_action c a s h = ground (arith, h)
done_kind latest_folder_cursor_action c a s h = ground (arith, h)
done_kind delete_path_action c a s h = ground (arith, h)
done_kind delete_batch_action c a s h = ground (arith, h)

-- What the end of an action changes.
pub action_done_lem :
    (c : ℕ) (a : Action) (s : Internal)
    → action_done c a s ≡ record s {
      upload_count = if is_upload a then (s.upload_count + 2 ^ 32 - 1) % 2 ^ 32 else s.upload_count;
      posted = if on_thread a then s.posted else s.posted ++ (report (report_of c a) ∷ []);
      called = if on_thread a then s.called ++ (report_of c a ∷ []) else s.called;
    }
action_done_lem c a s = done_kind a.kind c a s refl

-- The end of `curlPerform` changes the wait and the tasks only.
pub schedule_lem :
    (m : ℤ) (s : Internal)
    → schedule m s ≡ record s { tasks = (schedule m s).tasks; timer = (schedule m s).timer }
unfolding schedule
schedule_lem (pos n) s = elim (Bool-cases (n == 0)) [
  | inl now ↦ elim (Option-cases s.timer) [
    | inl idle ↦ ground (arith, now, idle)
    | inr (t, armed) ↦ ground (arith, now, armed)
  ]
  | inr later ↦ elim (Option-cases s.timer) [
    | inl idle ↦ ground (arith, later, idle)
    | inr (t, armed) ↦ ground (arith, later, armed)
  ]
]
schedule_lem (negsuc n) s = elim (Option-cases s.timer) [
  | inl idle ↦ ground (arith, idle)
  | inr (t, armed) ↦ ground (arith, armed)
]
