-- ===== src/DeviceBox/Controller/Completion.antt =====
-- DeviceBox/Controller.cpp: that the shutdown of all sources comes to its end.
use ip_cam_box.Prelude.{
  ℕ, zero, suc, ◌+◌, ◌*◌, ◌≤◌, String, string_eq, Bool, true, false, some, List, [], ◌∷◌, ◌++◌, ◌≡◌,
  refl, sym, ap, subst, ◌∙◌, inl, inr, ok, fault, null_pointer, ◌>>=◌, ◌>>◌, check, Then, is_nil,
  length, if◌then◌else◌, when_some, arith,
}
use ip_cam_box.Prelude.Assoc.{Assoc, IsMap, find, erase}
use ip_cam_box.DeviceBox.Controller.{
  Controller, SourceHandlers, AfterStop, Stage, splitter, dropbox_folder, streamer, Post,
  after_stop, stop_handle_sources, stage_done, next_stage, remove_source, post,
}
use ip_cam_box.DeviceBox.Controller.Stages.{stages_left, AllStopping, all-find}
use ip_cam_box.DeviceBox.Controller.Shutdowns.{
  IsStoppingAt, stages_done, stage_done-IsStoppingAt, AllIdle, stop_handle_sources-IsStoppingAt,
  stop-posts_once, left-bound,
}
use ip_cam_box.Prelude.{List-cases}

remove_source_goes :
    (ndebug : Bool) (source : String) (then_do : AfterStop) (h : SourceHandlers) (c : Controller)
    → find source c.handlers ≡ some h
    → (d : Controller) × (remove_source ndebug false source then_do c ≡ ok d)
unfolding remove_source when_some
remove_source_goes ndebug source then_do h c found =
    let removed : Controller = record c { handlers = erase source c.handlers } in
    let passes : (check ndebug true >> ok removed) ≡ ok removed = ground arith in
    (
      if is_nil removed.handlers then post (after_stop then_do) removed else removed,
      subst
          (λ o.
            (when_some o (check ndebug false >> ok c) (λ x. check ndebug true >> ok removed)
              >>= λ d. ok (if is_nil d.handlers then post (after_stop then_do) d else d))
            ≡ ok (if is_nil removed.handlers then post (after_stop then_do) removed else removed))
          (sym found)
          (ap (λ o. o >>= λ d. ok (if is_nil d.handlers then post (after_stop then_do) d else d))
            passes),
    )

-- With no member active, the stage that is to come goes on.
next_stage_goes :
    (ndebug : Bool) (source : String) (stage : Stage) (then_do : AfterStop) (h : SourceHandlers)
    (c : Controller)
    → find source c.handlers ≡ some h
    → (d : Controller) × (next_stage ndebug false source ((stage, then_do) ∷ []) c ≡ ok d)
unfolding next_stage
next_stage_goes ndebug source splitter then_do h c found = (_, refl)
next_stage_goes ndebug source dropbox_folder then_do h c found = (_, refl)
next_stage_goes ndebug source streamer then_do h c found =
    remove_source_goes ndebug source then_do h c found

stage_done_goes :
    (ndebug : Bool) (source : String) (then_do : AfterStop) (h : SourceHandlers) (c : Controller)
    → AllStopping then_do c.handlers
    → find source c.handlers ≡ some h
    → (d : Controller) × (stage_done ndebug false source c ≡ ok d)
unfolding stage_done when_some
stage_done_goes ndebug source then_do h c all found =
    let (stage, pending) = all-find then_do source h c.handlers all found in
    let (d, goes) = next_stage_goes ndebug source stage then_do h c found in
    (
      d,
      subst
          (λ o.
            when_some o (fault null_pointer) (λ x. next_stage ndebug false source x.pending c)
            ≡ ok d)
          (sym found) (subst (λ ps. next_stage ndebug false source ps c ≡ ok d) (sym pending) goes),
    )

find-first :
    (entry : String × SourceHandlers) (rest : Assoc String SourceHandlers)
    → find entry.0 (entry ∷ rest) ≡ some entry.1
unfolding find
find-first (source, h) rest = ground (arith, string_eq.beq_iff source source)

-- What is left comes to its end, one member after the other.
completes :
    (then_do : AfterStop) (before : List Post) (n : ℕ) (ndebug : Bool) (m k : ℕ) (c : Controller)
    → IsStoppingAt then_do before n k c
    → stages_left c.handlers ≤ m
    → (order : List (Bool × String)) × (d : Controller) × (stages_done ndebug order c ≡ ok d)
      × (d.handlers ≡ [])
unfolding IsStoppingAt
completes then_do before n ndebug zero k c h left = elim (List-cases c.handlers) [
  | inl empty ↦ ([], c, refl, empty)
  | inr (entry, rest, more) ↦
      absurd (ground (arith, left, left-bound then_do c.handlers h.1, ap length more))
]
completes then_do before n ndebug (suc m) k c h left = elim (List-cases c.handlers) [
  | inl empty ↦ ([], c, refl, empty)
  | inr (entry, rest, more) ↦
      let found : find entry.0 c.handlers ≡ some entry.1 =
        subst (λ hs. find entry.0 hs ≡ some entry.1) (sym more) (find-first entry rest) in
      let (d, goes) = stage_done_goes ndebug entry.0 then_do entry.1 c h.1 found in
      let after : IsStoppingAt then_do before n (k + 1) d =
        subst (Then (IsStoppingAt then_do before n (k + 1))) goes
          (stage_done-IsStoppingAt then_do before n ndebug false k entry.0 c h) in
      let (order, e, rest_done, empty) =
        completes then_do before n ndebug m (k + 1) d after (omega (arith, h.2, after.2, left)) in
      (
        (false, entry.0) ∷ order,
        e,
        ap (λ o. o >>= stages_done ndebug order) goes ∙ rest_done,
        empty,
      )
]

-- The shutdown of the sources comes to its end: from any state in which no source has a shutdown to
-- come, there is an order of three members for each source, none of them active afterwards, in which
-- every one finishes without a fault, and then no source is left and what is to follow is posted once.
pub stop-completes :
    (then_do : AfterStop) (ndebug : Bool) (c : Controller)
    → IsMap c.handlers
    → AllIdle c.handlers
    → (order : List (Bool × String)) × (d : Controller) × (stages_done ndebug order
          (stop_handle_sources then_do c)
        ≡ ok d)
      × (length order ≡ 3 * length c.handlers)
      × (d.handlers ≡ [])
      × (d.posted ≡ c.posted ++ (after_stop then_do ∷ []))
unfolding IsStoppingAt
stop-completes then_do ndebug c map idle =
    let (order, d, done, empty) =
      completes then_do c.posted (3 * length c.handlers) ndebug
        (stages_left (stop_handle_sources then_do c).handlers) 0 (stop_handle_sources then_do c)
        (stop_handle_sources-IsStoppingAt then_do c map idle) (omega arith) in
    let (left, bound, posted) =
      subst
        (Then (λ e.
          (stages_left e.handlers + length order ≡ 3 * length c.handlers)
          × (length e.handlers ≤ stages_left e.handlers)
          × (e.posted ≡ c.posted ++ (if is_nil e.handlers then after_stop then_do ∷ [] else []))))
        done (stop-posts_once then_do ndebug order c map idle) in
    (
      order,
      d,
      done,
      ground (arith, left, ap stages_left empty),
      empty,
      subst (λ hs. d.posted ≡ c.posted ++ (if is_nil hs then after_stop then_do ∷ [] else [])) empty
          posted,
    )

-- The controller when the last source has gone and nothing but what is to follow waits.
abbrev pub stopped_by : AfterStop → Controller → Controller
stopped_by then_do c = record c { handlers = []; posted = after_stop then_do ∷ [] }

-- So it is after any order of the shutdowns with which no source is left.
pub stop-alone :
    (then_do : AfterStop) (ndebug : Bool) (order : List (Bool × String)) (c d : Controller)
    → IsMap c.handlers
    → AllIdle c.handlers
    → c.posted ≡ []
    → stages_done ndebug order (stop_handle_sources then_do c) ≡ ok d
    → d.handlers ≡ []
    → d ≡ stopped_by then_do d
stop-alone then_do ndebug order c d map idle unposted done gone =
    let (left, bound, posted) =
      subst
        (Then (λ e.
          (stages_left e.handlers + length order ≡ 3 * length c.handlers)
          × (length e.handlers ≤ stages_left e.handlers)
          × (e.posted ≡ c.posted ++ (if is_nil e.handlers then after_stop then_do ∷ [] else []))))
        done (stop-posts_once then_do ndebug order c map idle) in
    let only : d.posted ≡ after_stop then_do ∷ [] =
      subst (λ hs. d.posted ≡ c.posted ++ (if is_nil hs then after_stop then_do ∷ [] else [])) gone
        posted
      ∙ ap (λ ps. ps ++ (after_stop then_do ∷ [])) unposted in
    subst (λ hs. d ≡ record d { handlers = hs; posted = after_stop then_do ∷ [] }) gone
      (subst (λ ps. d ≡ record d { posted = ps }) only refl)
