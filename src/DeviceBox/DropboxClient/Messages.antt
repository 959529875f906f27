-- ===== src/DeviceBox/DropboxClient/Messages.antt =====
-- DeviceBox/Dropbox.cpp: when `curlPerform` reads the messages of libcurl, and what is left after it.
use ip_cam_box.Prelude.{
  ℕ, nat_eq, nat_beq_iff, ◌==◌, Bool, true, false, not, ◌&&◌, none, some, Option-cases, Bool-cases,
  List, [], ◌∷◌, ◌++◌, ◌≡◌, refl, sym, ap, ◌∙◌, subst, inl, inr, ok, Then, bind-Then, is_some,
  if◌then◌else◌, if_keeps, when_some, arith,
}
use mathlib.Core.Bool.{true≢false}
use ip_cam_box.Prelude.Assoc.{Assoc, find, erase}
use ip_cam_box.DeviceBox.DropboxClient.Actions.{Action}
use ip_cam_box.DeviceBox.DropboxClient.{
  Internal, Progress, Message, perform, action_done, end_action, progressed,
}
use ip_cam_box.DeviceBox.DropboxClient.Runs.{action_done_lem, schedule_lem}
use ip_cam_box.Prelude.Assoc.{find-erase}
use ip_cam_box.DeviceBox.DropboxClient.Runs.{read_messages-Then}
use ip_cam_box.DeviceBox.DropboxClient.{handle_done, read_messages}
use ip_cam_box.Prelude.{check, ◌>>◌, ◌||◌, check-Then, imp-Then, and-Then, ◌≢◌, ◌⊎◌}

-- No message that says that a transfer is done names a handle that has an action.
abbrev pub all_ended : List Message → Assoc ℕ Action → Bool
all_ended [] actions = true
all_ended (m ∷ ms) actions =
    (not m.done || not (is_some (find m.easy_handle actions))) && all_ended ms actions

IsAbsent : ℕ → Internal → Type 0
IsAbsent curl s = find curl s.actions ≡ none

done-actions : (c : ℕ) (a : Action) (s : Internal) → (action_done c a s).actions ≡ s.actions
done-actions c a s = ap (λ t. t.actions) (action_done_lem c a s)

end-IsAbsent :
    (curl : ℕ) (m : Message) (a : Action) (s : Internal)
    → find m.easy_handle s.actions ≡ some a
    → IsAbsent curl s
    → IsAbsent curl (end_action m a s)
unfolding IsAbsent end_action
end-IsAbsent curl m a s found h =
    subst (λ kept. find curl (erase m.easy_handle kept) ≡ none)
      (sym (done-actions m.response_code a s))
      (ground (arith, h, find-erase m.easy_handle curl s.actions))

handle_done-IsAbsent :
    (ndebug removed : Bool) (m : Message) (s : Internal)
    → Then (IsAbsent m.easy_handle) (handle_done ndebug removed m s)
unfolding handle_done IsAbsent end_action when_some
handle_done-IsAbsent ndebug removed m s =
    check-Then (IsAbsent m.easy_handle) ndebug removed _
      (elim (Option-cases (find m.easy_handle s.actions)) [
        | inl absent ↦
            subst
              (λ o.
                Then (IsAbsent m.easy_handle)
                  (when_some o (check ndebug false >> ok s) (λ a. ok (end_action m a s))))
              (sym absent) (check-Then (IsAbsent m.easy_handle) ndebug false (ok s) absent)
        | inr (a, found) ↦
            subst
              (λ o.
                Then (IsAbsent m.easy_handle)
                  (when_some o (check ndebug false >> ok s) (λ b. ok (end_action m b s))))
              (sym found)
              (ground (
                arith,
                nat_beq_iff m.easy_handle m.easy_handle,
                find-erase m.easy_handle m.easy_handle (action_done m.response_code a s).actions,
              ))
      ])

read_messages-IsAbsent :
    (curl : ℕ) (ndebug removed : Bool) (ms : List Message) (s : Internal)
    → IsAbsent curl s
    → Then (IsAbsent curl) (read_messages ndebug removed ms s)
unfolding IsAbsent progressed
read_messages-IsAbsent curl ndebug removed ms s h =
    read_messages-Then (IsAbsent curl) (λ t ns k. k) (end-IsAbsent curl) ndebug removed ms s h

AllEnded : List Message → Internal → Type 0
AllEnded ms t = (all_ended ms t.actions ≡ true) × (t.messages ≡ [])

read_messages-AllEnded :
    (ndebug removed : Bool) (ms : List Message) (s : Internal)
    → Then (AllEnded ms) (read_messages ndebug removed ms s)
unfolding read_messages IsAbsent AllEnded
read_messages-AllEnded ndebug removed [] s = (refl, refl)
read_messages-AllEnded ndebug removed (m ∷ ms) s = elim (Bool-cases m.done) [
  | inl done ↦
      bind-Then (IsAbsent m.easy_handle) (AllEnded (m ∷ ms))
        (if m.done then handle_done ndebug removed m s else ok s) (read_messages ndebug removed ms)
        (if_keeps (Then (IsAbsent m.easy_handle)) m.done _ (ok s)
          (λ yes. handle_done-IsAbsent ndebug removed m s)
          (λ no. absurd (true≢false (sym done ∙ no))))
        (λ t absent.
          imp-Then _ (AllEnded (m ∷ ms)) (read_messages ndebug removed ms t)
            (and-Then (IsAbsent m.easy_handle) (AllEnded ms) (read_messages ndebug removed ms t)
              (read_messages-IsAbsent m.easy_handle ndebug removed ms t absent)
              (read_messages-AllEnded ndebug removed ms t))
            (λ u h. (ground (arith, h.0, h.1.0), h.1.1)))
  | inr other ↦
      bind-Then (λ t. m.done ≡ false) (AllEnded (m ∷ ms))
        (if m.done then handle_done ndebug removed m s else ok s) (read_messages ndebug removed ms)
        (if_keeps (Then (λ t. m.done ≡ false)) m.done _ (ok s)
          (λ yes. absurd (true≢false (sym yes ∙ other))) (λ no. no))
        (λ t h.
          imp-Then (AllEnded ms) (AllEnded (m ∷ ms)) (read_messages ndebug removed ms t)
            (read_messages-AllEnded ndebug removed ms t) (λ u k. (ground (arith, other, k.0), k.1)))
]

Reads : Progress → Internal → Internal → Type 0
Reads p s t =
    ((s.running_count ≢ p.running_count)
      × (t.messages ≡ [])
      × (all_ended (s.messages ++ p.messages) t.actions ≡ true))
    ⊎ ((s.running_count ≡ p.running_count)
        × (t.messages ≡ s.messages ++ p.messages)
        × (t.posted ≡ s.posted)
        × (t.called ≡ s.called))

-- `curlPerform` reads the messages of libcurl exactly if the number of running transfers has changed.
-- If it has, then at the end libcurl holds no message, and no transfer that a message called done has
-- an action any more; if it has not, all messages are left to libcurl and no callback is posted or
-- called, so that the end of a transfer waits if another starts at once.
pub perform-reads :
    (ndebug : Bool) (p : Progress) (s : Internal)
    → Then
        (λ t.
          ((s.running_count ≢ p.running_count)
            × (t.messages ≡ [])
            × (all_ended (s.messages ++ p.messages) t.actions ≡ true))
          ⊎ ((s.running_count ≡ p.running_count)
              × (t.messages ≡ s.messages ++ p.messages)
              × (t.posted ≡ s.posted)
              × (t.called ≡ s.called)))
        (perform ndebug p s)
unfolding perform progressed AllEnded Reads
perform-reads ndebug p s =
    let same_iff = nat_beq_iff s.running_count p.running_count in
    check-Then (Reads p s) ndebug p.performed _ (
      bind-Then (Reads p s) (Reads p s) _ _
        (if_keeps (Then (Reads p s)) (s.running_count == p.running_count) (ok (progressed p s)) _
          (λ same. inr (same_iff.0 same, refl, refl, refl))
          (λ changed.
            imp-Then (AllEnded (s.messages ++ p.messages)) (Reads p s) _
              (read_messages-AllEnded ndebug p.removed (s.messages ++ p.messages) (progressed p s))
              (λ t h. inl ((λ eq. true≢false (sym (same_iff.1 eq) ∙ changed)), h.1, h.0))))
        (λ t k.
          check-Then (Reads p s) ndebug p.timed _
            (subst (Reads p s) (sym (schedule_lem p.milliseconds t)) k)))
