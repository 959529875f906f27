-- ===== src/DeviceBox/Controller/Shutdowns.antt =====
-- DeviceBox/Controller.cpp: the shutdowns of all members of all sources, in any order.
use mathlib.Core.Option.{none-ne-some}
use ip_cam_box.Prelude.{
  if_keeps, ℕ, suc, ◌+◌, ◌*◌, ◌≤◌, String, string_eq, Bool, true, false, not, none, some, List, [],
  ◌∷◌, ◌++◌, ◌≡◌, refl, sym, ap, subst, ◌∙◌, Outcome, ok, ◌>>=◌, ◌>>◌, check, Then, bind-Then,
  check-Then, imp-Then, is_nil, length, append_nil, if◌then◌else◌, when_some, when_some_keeps,
  arith,
}
use ip_cam_box.Prelude.Assoc.{Assoc, IsMap, find, erase, erase-IsMap, modify-IsMap}
use ip_cam_box.DeviceBox.Controller.{
  Controller, SourceHandlers, AfterStop, Stage, splitter, dropbox_folder, streamer, Post,
  after_stop, Ask, stop_handle_sources, shutdown_splitters, stage_done, next_stage, set_pending,
  remove_source, ask, post,
}
use ip_cam_box.DeviceBox.Controller.Stages.{
  steps_of, left_of, stages_left, AllStopping, all-find, all-erase, all-modify, left-modify,
  left-erase, modify-nil,
}

found-not_nil :
    (source : String) (h : SourceHandlers) (handlers : Assoc String SourceHandlers)
    → find source handlers ≡ some h
    → is_nil handlers ≡ false
unfolding find
found-not_nil source h [] found = absurd (none-ne-some h found)
found-not_nil source h (entry ∷ rest) found = refl

-- After `k` of `n` shutdowns of members, to the end of which the tasks were `before`.
unfoldable pub IsStoppingAt : AfterStop → List Post → ℕ → ℕ → Controller → Type 0
IsStoppingAt then_do before n k c =
    IsMap c.handlers
    × AllStopping then_do c.handlers
    × (stages_left c.handlers + k ≡ n)
    × (c.posted ≡ before ++ (if is_nil c.handlers then after_stop then_do ∷ [] else []))

module _ (then_do : AfterStop) (before : List Post) (n : ℕ) where
  set_pending-IsStoppingAt :
      (k : ℕ) (source : String) (stage next : Stage) (h : SourceHandlers) (a : Ask) (c : Controller)
      → find source c.handlers ≡ some h
      → h.pending ≡ (stage, then_do) ∷ []
      → steps_of stage ≡ steps_of next + 1
      → IsStoppingAt then_do before n k c
      → IsStoppingAt then_do before n (k + 1) (ask a (set_pending source ((next, then_do) ∷ []) c))
  unfolding IsStoppingAt
  set_pending-IsStoppingAt k source stage next h a c found pending less (map, all, left, posted) =
      let same : left_of h.pending ≡ steps_of stage = ap left_of pending in
      (
        modify-IsMap source _ c.handlers map,
        all-modify then_do source next c.handlers all,
        ground
            (arith, left, less, same, left-modify source ((next, then_do) ∷ []) h c.handlers found),
        subst (λ b. c.posted ≡ before ++ (if b then after_stop then_do ∷ [] else []))
            (sym (modify-nil source (λ x. record x { pending = (next, then_do) ∷ [] }) c.handlers))
            posted,
      )

  remove_source-IsStoppingAt :
      (ndebug active : Bool) (k : ℕ) (source : String) (h : SourceHandlers) (c : Controller)
      → find source c.handlers ≡ some h
      → h.pending ≡ (streamer, then_do) ∷ []
      → IsStoppingAt then_do before n k c
      → Then (IsStoppingAt then_do before n (k + 1)) (remove_source ndebug active source then_do c)
  unfolding remove_source when_some IsStoppingAt
  remove_source-IsStoppingAt ndebug active k source h c found pending (map, all, left, posted) =
      let removed : Controller = record c { handlers = erase source c.handlers } in
      let same : left_of h.pending ≡ 1 = ap left_of pending in
      let count : stages_left (erase source c.handlers) + (k + 1) ≡ n =
        ground (arith, left, same, left-erase source h c.handlers map found) in
      let none_yet : c.posted ≡ before ++ [] =
        subst (λ b. c.posted ≡ before ++ (if b then after_stop then_do ∷ [] else []))
          (found-not_nil source h c.handlers found) posted in
      let one : c.posted ++ (after_stop then_do ∷ []) ≡ before ++ (after_stop then_do ∷ []) =
        cc (none_yet, append_nil before) in
      let erased = erase-IsMap source c.handlers map in
      let others = all-erase then_do source c.handlers all in
      subst
        (λ o. Then (IsStoppingAt then_do before n (k + 1)) (
          when_some o (check ndebug false >> ok c) (λ x. check ndebug (not active) >> ok removed)
          >>= λ d. ok (if is_nil d.handlers then post (after_stop then_do) d else d)))
        (sym found)
        (bind-Then (λ d. d ≡ removed) (IsStoppingAt then_do before n (k + 1))
          (check ndebug (not active) >> ok removed)
          (λ d. ok (if is_nil d.handlers then post (after_stop then_do) d else d))
          (check-Then (λ d. d ≡ removed) ndebug (not active) (ok removed) refl)
          (λ d eq.
            subst
              (λ x.
                IsStoppingAt then_do before n (k + 1)
                  (if is_nil x.handlers then post (after_stop then_do) x else x))
              (sym eq)
              (if_keeps (IsStoppingAt then_do before n (k + 1)) (is_nil removed.handlers) _ removed
                (λ last. (
                  erased,
                  others,
                  count,
                  subst
                      (λ b.
                        c.posted ++ (after_stop then_do ∷ [])
                        ≡ before ++ (if b then after_stop then_do ∷ [] else []))
                      (sym last) one,
                ))
                (λ more. (
                  erased,
                  others,
                  count,
                  subst (λ b. c.posted ≡ before ++ (if b then after_stop then_do ∷ [] else []))
                      (sym more) none_yet,
                )))))

  next_stage-IsStoppingAt :
      (ndebug active : Bool) (k : ℕ) (source : String) (stage : Stage) (h : SourceHandlers)
      (c : Controller)
      → find source c.handlers ≡ some h
      → h.pending ≡ (stage, then_do) ∷ []
      → IsStoppingAt then_do before n k c
      → Then
          (IsStoppingAt then_do before n (k + 1))
          (next_stage ndebug active source ((stage, then_do) ∷ []) c)
  unfolding next_stage
  next_stage-IsStoppingAt ndebug active k source splitter h c found pending stopping =
      set_pending-IsStoppingAt k source splitter dropbox_folder h _ c found pending (omega arith)
        stopping
  next_stage-IsStoppingAt ndebug active k source dropbox_folder h c found pending stopping =
      set_pending-IsStoppingAt k source dropbox_folder streamer h _ c found pending (omega arith)
        stopping
  next_stage-IsStoppingAt ndebug active k source streamer h c found pending stopping =
      remove_source-IsStoppingAt ndebug active k source h c found pending stopping

  pub stage_done-IsStoppingAt :
      (ndebug active : Bool) (k : ℕ) (source : String) (c : Controller)
      → IsStoppingAt then_do before n k c
      → Then (IsStoppingAt then_do before n (k + 1)) (stage_done ndebug active source c)
  unfolding stage_done IsStoppingAt
  stage_done-IsStoppingAt ndebug active k source c stopping =
      when_some_keeps (Then (IsStoppingAt then_do before n (k + 1))) (find source c.handlers) _ _ tt
        (λ h found.
          let (stage, pending) = all-find then_do source h c.handlers stopping.1 found in
          subst
            (λ ps.
              Then (IsStoppingAt then_do before n (k + 1)) (next_stage ndebug active source ps c))
            (sym pending)
            (next_stage-IsStoppingAt ndebug active k source stage h c found pending stopping))

pub nil-empty : (handlers : Assoc String SourceHandlers) → is_nil handlers ≡ true → handlers ≡ []
nil-empty [] h = refl
nil-empty (entry ∷ rest) h = ground arith

-- The members finish in an order, each with whether a member of its source is still active.
abbrev pub stages_done : Bool → List (Bool × String) → Controller → Outcome Controller
stages_done ndebug [] c = ok c
stages_done ndebug ((active, source) ∷ rest) c =
    stage_done ndebug active source c >>= stages_done ndebug rest

stages_done-IsStoppingAt :
    (then_do : AfterStop) (before : List Post) (n : ℕ) (ndebug : Bool)
    (order : List (Bool × String)) (k : ℕ) (c : Controller)
    → IsStoppingAt then_do before n k c
    → Then (IsStoppingAt then_do before n (k + length order)) (stages_done ndebug order c)
stages_done-IsStoppingAt then_do before n ndebug [] k c h =
    subst (λ m. IsStoppingAt then_do before n m c) (omega arith) h
stages_done-IsStoppingAt then_do before n ndebug ((active, source) ∷ rest) k c h =
    let next : k + 1 + length rest ≡ k + suc (length rest) = omega arith in
    bind-Then (IsStoppingAt then_do before n (k + 1)) (IsStoppingAt then_do before n _)
      (stage_done ndebug active source c) (stages_done ndebug rest)
      (stage_done-IsStoppingAt then_do before n ndebug active k source c h)
      (λ d g.
        subst (λ m. Then (IsStoppingAt then_do before n m) (stages_done ndebug rest d)) next
          (stages_done-IsStoppingAt then_do before n ndebug rest (k + 1) d g))

-- No shutdown of a member is to come.
abbrev pub AllIdle : Assoc String SourceHandlers → Type 0
AllIdle [] = Unit
AllIdle ((source, h) ∷ rest) = (h.pending ≡ []) × AllIdle rest

called_handlers : AfterStop → Assoc String SourceHandlers → Assoc String SourceHandlers
called_handlers then_do handlers = (shutdown_splitters then_do handlers).0

called-find :
    (then_do : AfterStop) (source : String) (handlers : Assoc String SourceHandlers)
    → find source handlers ≡ none
    → find source (called_handlers then_do handlers) ≡ none
unfolding find shutdown_splitters called_handlers
called-find then_do source [] h = refl
called-find then_do source ((j, k) ∷ rest) h = ground (arith, called-find then_do source rest)

called-IsMap :
    (then_do : AfterStop) (handlers : Assoc String SourceHandlers)
    → IsMap handlers
    → IsMap (called_handlers then_do handlers)
unfolding shutdown_splitters called_handlers
called-IsMap then_do [] h = tt
called-IsMap then_do ((j, k) ∷ rest) h =
    (called-find then_do j rest h.0, called-IsMap then_do rest h.1)

called-AllStopping :
    (then_do : AfterStop) (handlers : Assoc String SourceHandlers)
    → AllIdle handlers
    → AllStopping then_do (called_handlers then_do handlers)
      × (stages_left (called_handlers then_do handlers) ≡ 3 * length handlers)
      × (is_nil (called_handlers then_do handlers) ≡ is_nil handlers)
unfolding shutdown_splitters called_handlers
called-AllStopping then_do [] h = (tt, refl, refl)
called-AllStopping then_do ((j, k) ∷ rest) h =
    let (all, left, nil) = called-AllStopping then_do rest h.1 in
    let idle : k.pending ++ ((splitter, then_do) ∷ []) ≡ (splitter, then_do) ∷ [] =
      ap (λ ps. ps ++ ((splitter, then_do) ∷ [])) h.0 in
    (((splitter, idle), all), ground (arith, left, ap left_of idle), refl)

pub stop_handle_sources-IsStoppingAt :
    (then_do : AfterStop) (c : Controller)
    → IsMap c.handlers
    → AllIdle c.handlers
    → IsStoppingAt then_do c.posted (3 * length c.handlers) 0 (stop_handle_sources then_do c)
unfolding stop_handle_sources IsStoppingAt called_handlers
stop_handle_sources-IsStoppingAt then_do c map idle =
    let (all, left, nil) = called-AllStopping then_do c.handlers idle in
    if_keeps (IsStoppingAt then_do c.posted (3 * length c.handlers) 0) (is_nil c.handlers) _ _
      (λ none.
        let empty : c.handlers ≡ [] = nil-empty c.handlers none in
        (
          map,
          subst (AllStopping then_do) (sym empty) tt,
          subst (λ hs. stages_left hs + 0 ≡ 3 * length hs) (sym empty) (omega arith),
          subst
              (λ b.
                c.posted ++ (after_stop then_do ∷ [])
                ≡ c.posted ++ (if b then after_stop then_do ∷ [] else []))
              (sym none) refl,
        ))
      (λ some_left. (
        called-IsMap then_do c.handlers map,
        all,
        ground (arith, left),
        subst (λ b. c.posted ≡ c.posted ++ (if b then after_stop then_do ∷ [] else []))
            (sym (nil ∙ some_left)) (sym (append_nil c.posted)),
      ))

pub left-bound :
    (then_do : AfterStop) (handlers : Assoc String SourceHandlers)
    → AllStopping then_do handlers
    → length handlers ≤ stages_left handlers
left-bound then_do [] all = omega arith
left-bound then_do ((source, h) ∷ rest) ((splitter, pending), all) =
    ground (arith, ap left_of pending, left-bound then_do rest all)
left-bound then_do ((source, h) ∷ rest) ((dropbox_folder, pending), all) =
    ground (arith, ap left_of pending, left-bound then_do rest all)
left-bound then_do ((source, h) ∷ rest) ((streamer, pending), all) =
    ground (arith, ap left_of pending, left-bound then_do rest all)

-- When the sources stop, the splitter, the folder and the streamer of each finish, in whatever order
-- the sources interleave: after each of them one fewer of three for each source is to come, and what is
-- to follow is posted exactly once, when no source is left, which is so after all of them, and at once
-- if there was none. Nothing else is posted. Before, no source may have a shutdown to come.
pub stop-posts_once :
    (then_do : AfterStop) (ndebug : Bool) (order : List (Bool × String)) (c : Controller)
    → IsMap c.handlers
    → AllIdle c.handlers
    → Then
        (λ d.
          (stages_left d.handlers + length order ≡ 3 * length c.handlers)
          × (length d.handlers ≤ stages_left d.handlers)
          × (d.posted ≡ c.posted ++ (if is_nil d.handlers then after_stop then_do ∷ [] else [])))
        (stages_done ndebug order (stop_handle_sources then_do c))
unfolding IsStoppingAt
stop-posts_once then_do ndebug order c map idle =
    imp-Then (IsStoppingAt then_do c.posted (3 * length c.handlers) (0 + length order)) _ _
      (stages_done-IsStoppingAt then_do c.posted (3 * length c.handlers) ndebug order 0 _
        (stop_handle_sources-IsStoppingAt then_do c map idle))
      (λ d h. (ground (arith, h.2), left-bound then_do d.handlers h.1, h.3))
