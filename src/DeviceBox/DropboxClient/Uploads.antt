-- ===== src/DeviceBox/DropboxClient/Uploads.antt =====
-- DeviceBox/Dropbox.cpp: the limit of simultaneous uploads, `_uploadCount` and `MAX_UPLOADS`.
use ip_cam_box.Prelude.{
  ℕ, nat_eq, nat_beq_iff, ◌+◌, ◌≤◌, String, concat, Bool, Option, none, some, List, [], ◌∷◌, ◌≡◌,
  refl, sym, ◌∙◌, subst, Then, if◌then◌else◌, arith,
}
use ip_cam_box.Prelude.Assoc.{
  Assoc, IsMap, find, erase, emplace, modify, erase-IsMap, emplace-IsMap, modify-IsMap,
  erase_absent,
}
use ip_cam_box.DeviceBox.DropboxClient.Actions.{Action, Transfer}
use ip_cam_box.DeviceBox.DropboxClient.{
  Internal, Progress, Message, perform, start, max_uploads, end_action, progressed,
  collect_response,
}
use ip_cam_box.DeviceBox.DropboxClient.Runs.{is_upload, action_done_lem, schedule_lem, perform-Then}

-- The uploads that libcurl has.
abbrev pub uploads : Assoc ℕ Action → ℕ
uploads [] = 0
uploads ((curl, a) ∷ actions) = uploads actions + (if is_upload a then 1 else 0)

pub uploads-emplace :
    (curl : ℕ) (a : Action) (actions : Assoc ℕ Action)
    → find curl actions ≡ none
    → uploads (emplace curl a actions) ≡ uploads actions + (if is_upload a then 1 else 0)
unfolding emplace find
uploads-emplace curl a [] h = refl
uploads-emplace curl a ((j, b) ∷ actions) h = ground (arith, uploads-emplace curl a actions)

pub uploads-erase :
    (curl : ℕ) (a : Action) (actions : Assoc ℕ Action)
    → IsMap actions
    → find curl actions ≡ some a
    → uploads (erase curl actions) + (if is_upload a then 1 else 0) ≡ uploads actions
unfolding erase find
uploads-erase curl a [] h p = ground arith
uploads-erase curl a ((j, b) ∷ actions) h p =
    ground (arith, nat_beq_iff j curl, erase_absent curl actions, uploads-erase curl a actions h.1)

uploads-modify :
    (curl : ℕ) (text : String) (actions : Assoc ℕ Action)
    → uploads (modify curl (λ a. record a { response = concat a.response text }) actions)
      ≡ uploads actions
unfolding modify
uploads-modify curl text [] = refl
uploads-modify curl text ((j, b) ∷ actions) = ground (arith, uploads-modify curl text actions)

pub uploads-collect :
    (received : List (ℕ × String)) (actions : Assoc ℕ Action)
    → uploads (collect_response received actions) ≡ uploads actions
unfolding collect_response
uploads-collect [] actions = refl
uploads-collect ((curl, text) ∷ received) actions =
    uploads-collect received _ ∙ uploads-modify curl text actions

pub collect-IsMap :
    (received : List (ℕ × String)) (actions : Assoc ℕ Action)
    → IsMap actions
    → IsMap (collect_response received actions)
unfolding collect_response
collect-IsMap [] actions h = h
collect-IsMap ((curl, text) ∷ received) actions h =
    collect-IsMap received _ (modify-IsMap curl _ actions h)

-- `_uploadCount` is the number of the uploads that libcurl has, which does not exceed the limit, and a
-- handle has one action.
unfoldable pub IsBounded : Internal → Type 0
IsBounded s =
    (s.upload_count ≡ uploads s.actions) × (uploads s.actions ≤ max_uploads) × IsMap s.actions

-- While an upload starts, it is counted and not in the map.
unfoldable pub IsStarting : Bool → Internal → Type 0
IsStarting counted s =
    (s.upload_count ≡ uploads s.actions + (if counted then 1 else 0))
    × (s.upload_count ≤ max_uploads)
    × IsMap s.actions

end-IsBounded :
    (m : Message) (a : Action) (s : Internal)
    → find m.easy_handle s.actions ≡ some a
    → IsBounded s
    → IsBounded (end_action m a s)
unfolding IsBounded end_action
end-IsBounded m a s found h =
    subst
      (λ t.
        (t.upload_count ≡ uploads (erase m.easy_handle t.actions))
        × (uploads (erase m.easy_handle t.actions) ≤ max_uploads)
        × IsMap (erase m.easy_handle t.actions))
      (sym (action_done_lem m.response_code a s))
      (
        ground (arith, h.0, h.1, uploads-erase m.easy_handle a s.actions h.2 found),
        ground (arith, h.1, uploads-erase m.easy_handle a s.actions h.2 found),
        erase-IsMap m.easy_handle s.actions h.2,
      )

pub perform-IsBounded :
    (ndebug : Bool) (p : Progress) (s : Internal)
    → IsBounded s
    → Then IsBounded (perform ndebug p s)
unfolding IsBounded progressed
perform-IsBounded ndebug p s h =
    perform-Then IsBounded IsBounded (λ t ms k. k) end-IsBounded
      (λ q t k. (
        k.0 ∙ sym (uploads-collect q.received t.actions),
        ground (arith, k.1, uploads-collect q.received t.actions),
        collect-IsMap q.received t.actions k.2,
      ))
      (λ m t k. subst IsBounded (sym (schedule_lem m t)) k) ndebug p s h

pub start-IsBounded :
    (ndebug : Bool) (p : Progress) (a : Action) (o : Option Transfer) (s : Internal)
    → IsStarting (is_upload a) s
    → ((t : Transfer) → o ≡ some t → find t.curl s.actions ≡ none)
    → Then IsBounded (start ndebug p a o s)
unfolding start IsBounded IsStarting
start-IsBounded ndebug p a none s h fresh =
    subst IsBounded (sym (action_done_lem 0 a s))
      (ground (arith, h.0, h.1), ground (arith, h.0, h.1), h.2)
start-IsBounded ndebug p a (some t) s h fresh =
    perform-IsBounded ndebug p (record s { actions = emplace t.curl a s.actions })
      (
        ground (arith, h.0, uploads-emplace t.curl a s.actions (fresh t refl)),
        ground (arith, h.0, h.1, uploads-emplace t.curl a s.actions (fresh t refl)),
        emplace-IsMap t.curl a s.actions h.2,
      )
