-- ===== src/DeviceBox/DeviceBoxMain/Quiet.antt =====
-- DeviceBox/DeviceBoxMain.cpp: stopping the sources makes no request to Dropbox.
use ip_cam_box.Prelude.{
  String, string_eq, Bool, true, false, not, ◌||◌, List, [], ◌∷◌, ◌++◌, ◌≡◌, refl, ok, fault,
  null_pointer, ◌>>◌, check, Then, bind-Then, arith, is_nil, Option-cases, inl, inr, subst, sym,
  when_some, if_keeps,
}
use ip_cam_box.Prelude.Assoc.{Assoc, find, erase}
use ip_cam_box.DeviceBox.Controller.{
  Ask, Controller, SourceHandlers, Stage, splitter, dropbox_folder, streamer, AfterStop,
  shutdown_stage, shutdown_splitters, stop_handle_sources, stage_done, next_stage, remove_source,
}
use ip_cam_box.DeviceBox.Controller.Shutdowns.{stages_done}
use ip_cam_box.DeviceBox.DeviceBoxMain.{is_request, has_request}

-- No request was made to the Dropbox client.
abbrev pub IsQuiet : Controller → Type 0
IsQuiet c = has_request c.asked ≡ false

pub has_request-append :
    (xs ys : List Ask) → has_request (xs ++ ys) ≡ (has_request xs || has_request ys)
has_request-append [] ys = refl
has_request-append (a ∷ xs) ys = ground (arith, has_request-append xs ys)

shutdown_splitters-quiet :
    (then_do : AfterStop) (handlers : Assoc String SourceHandlers)
    → has_request (shutdown_splitters then_do handlers).1 ≡ false
unfolding shutdown_splitters
shutdown_splitters-quiet then_do [] = refl
shutdown_splitters-quiet then_do ((source, h) ∷ rest) = shutdown_splitters-quiet then_do rest

pub stop_handle_sources-IsQuiet :
    (then_do : AfterStop) (c : Controller) → IsQuiet c → IsQuiet (stop_handle_sources then_do c)
unfolding stop_handle_sources
stop_handle_sources-IsQuiet then_do c h =
    if_keeps IsQuiet (is_nil c.handlers) _ _ (λ none. h)
      (λ more. ground (
        arith,
        h,
        has_request-append c.asked (shutdown_splitters then_do c.handlers).1,
        shutdown_splitters-quiet then_do c.handlers,
      ))

asks-quiet :
    (source : String) (stage : Stage) (asked : List Ask)
    → has_request asked ≡ false
    → has_request (asked ++ (shutdown_stage source stage ∷ [])) ≡ false
asks-quiet source stage asked h =
    ground (arith, h, has_request-append asked (shutdown_stage source stage ∷ []))

check-Then {ℓ} :
    {A : Type 0} (P : A → Type ℓ) (ndebug passes : Bool) (a : A)
    → P a
    → Then P (check ndebug passes >> ok a)
check-Then P true true a h = h
check-Then P true false a h = h
check-Then P false true a h = h
check-Then P false false a h = tt

remove_source-IsQuiet :
    (ndebug active : Bool) (source : String) (then_do : AfterStop) (c : Controller)
    → IsQuiet c
    → Then IsQuiet (remove_source ndebug active source then_do c)
unfolding remove_source when_some
remove_source-IsQuiet ndebug active source then_do c h =
    bind-Then IsQuiet IsQuiet _ _
      (elim (Option-cases (find source c.handlers)) [
        | inl gone ↦
            subst
              (λ o. Then IsQuiet (
                when_some o (check ndebug false >> ok c) (λ handlers.
                  check ndebug (not active)
                  >> ok (record c { handlers = erase source c.handlers }))))
              (sym gone) (check-Then IsQuiet ndebug false c h)
        | inr (k, found) ↦
            subst
              (λ o. Then IsQuiet (
                when_some o (check ndebug false >> ok c) (λ handlers.
                  check ndebug (not active)
                  >> ok (record c { handlers = erase source c.handlers }))))
              (sym found) (check-Then IsQuiet ndebug (not active) _ h)
      ])
      (λ d quiet. if_keeps IsQuiet (is_nil d.handlers) _ _ (λ none. quiet) (λ more. quiet))

next_stage-IsQuiet :
    (ndebug active : Bool) (source : String) (pending : List (Stage × AfterStop)) (c : Controller)
    → IsQuiet c
    → Then IsQuiet (next_stage ndebug active source pending c)
unfolding next_stage
next_stage-IsQuiet ndebug active source [] c h = h
next_stage-IsQuiet ndebug active source ((splitter, then_do) ∷ rest) c h =
    asks-quiet source dropbox_folder c.asked h
next_stage-IsQuiet ndebug active source ((dropbox_folder, then_do) ∷ rest) c h =
    asks-quiet source streamer c.asked h
next_stage-IsQuiet ndebug active source ((streamer, then_do) ∷ rest) c h =
    remove_source-IsQuiet ndebug active source then_do c h

stage_done-IsQuiet :
    (ndebug active : Bool) (source : String) (c : Controller)
    → IsQuiet c
    → Then IsQuiet (stage_done ndebug active source c)
unfolding stage_done when_some
stage_done-IsQuiet ndebug active source c h = elim (Option-cases (find source c.handlers)) [
  | inl gone ↦
      subst
        (λ o.
          Then IsQuiet
            (when_some o (fault null_pointer) (λ k. next_stage ndebug active source k.pending c)))
        (sym gone) tt
  | inr (k, found) ↦
      subst
        (λ o.
          Then IsQuiet
            (when_some o (fault null_pointer) (λ k. next_stage ndebug active source k.pending c)))
        (sym found) (next_stage-IsQuiet ndebug active source k.pending c h)
]

pub stages_done-IsQuiet :
    (ndebug : Bool) (order : List (Bool × String)) (c : Controller)
    → IsQuiet c
    → Then IsQuiet (stages_done ndebug order c)
stages_done-IsQuiet ndebug [] c h = h
stages_done-IsQuiet ndebug ((active, source) ∷ order) c h =
    bind-Then IsQuiet IsQuiet _ _ (stage_done-IsQuiet ndebug active source c h)
      (stages_done-IsQuiet ndebug order)

-- The controller at the end of the shutdowns.
pub stopped-IsQuiet :
    (then_do : AfterStop) (ndebug : Bool) (order : List (Bool × String)) (c d : Controller)
    → stages_done ndebug order (stop_handle_sources then_do c) ≡ ok d
    → IsQuiet c
    → IsQuiet d
stopped-IsQuiet then_do ndebug order c d done h = subst (Then IsQuiet) done (
    stages_done-IsQuiet ndebug order (stop_handle_sources then_do c)
      (stop_handle_sources-IsQuiet then_do c h))

-- The task that asks the Dropbox client for its reset or shutdown makes no request.
pub asked-quiet :
    (k : Controller) (a : Ask)
    → is_request a ≡ false
    → IsQuiet k
    → has_request (k.asked ++ (a ∷ [])) ≡ false
asked-quiet k a other h = ground (arith, other, h, has_request-append k.asked (a ∷ []))
