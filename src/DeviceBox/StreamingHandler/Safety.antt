-- ===== src/DeviceBox/StreamingHandler/Safety.antt =====
-- DeviceBox/StreamingHandler.cpp: the streamer is destroyed once it has stopped and nothing refers to it.
use ip_cam_box.Prelude.{
  ℕ, suc, ◌+◌, ◌<◌, Bool, true, false, not, ◌&&◌, Option, none, some, List, [], ◌∷◌, ◌++◌, ◌≡◌,
  refl, sym, subst, inl, inr, ◌⊎◌, Outcome, ok, fault, ◌>>=◌, ◌>>◌, check, nat_eq, nat_beq_iff,
  ◌==◌, is_some, if◌then◌else◌, if_keeps, arith,
}
use ip_cam_box.DeviceBox.StreamingHandler.{
  Handler, Streamer, Task, StateChange, change_success, change_failure, change_async,
  change_no_preroll, BusMessage, playing, eos, error, async, destroy_streaming, streaming,
  stream_failed, call, Event, streams, stops, shuts_down, says, runs, step, post, start_tasks,
  stream, stop_streamer, stop_stream, shutdown, bus_message, release, async_handler, destroy,
  call_shutted_down, run_task, run_first,
}

abbrev pub asyncs : List Task → ℕ
asyncs [] = 0
asyncs (async m ∷ tasks) = suc (asyncs tasks)
asyncs (_ ∷ tasks) = asyncs tasks

abbrev pub destroys : List Task → ℕ
destroys [] = 0
destroys (destroy_streaming ∷ tasks) = suc (destroys tasks)
destroys (_ ∷ tasks) = destroys tasks

asyncs-append : (ts us : List Task) → asyncs (ts ++ us) ≡ asyncs ts + asyncs us
asyncs-append [] us = omega arith
asyncs-append (async m ∷ ts) us = omega (arith, asyncs-append ts us)
asyncs-append (destroy_streaming ∷ ts) us = asyncs-append ts us
asyncs-append (streaming n ∷ ts) us = asyncs-append ts us
asyncs-append (stream_failed n ∷ ts) us = asyncs-append ts us
asyncs-append (call n ∷ ts) us = asyncs-append ts us

destroys-append : (ts us : List Task) → destroys (ts ++ us) ≡ destroys ts + destroys us
destroys-append [] us = omega arith
destroys-append (async m ∷ ts) us = destroys-append ts us
destroys-append (destroy_streaming ∷ ts) us = omega (arith, destroys-append ts us)
destroys-append (streaming n ∷ ts) us = destroys-append ts us
destroys-append (stream_failed n ∷ ts) us = destroys-append ts us
destroys-append (call n ∷ ts) us = destroys-append ts us

-- A streamer with a pipeline is not to be destroyed and its handler does not shut down; without a
-- pipeline, tasks refer to it, or none does and one is to destroy it. Its count is the number of the
-- tasks that refer to it.
abbrev pub IsGoodAt : Option Streamer → Option ℕ → ℕ → ℕ → Type 0
IsGoodAt none shutted_down a d = (a ≡ 0) × (shutted_down ≡ none)
IsGoodAt (some st) shutted_down a d =
    (a ≡ st.refs)
    × (((st.pipeline ≡ true) × (d ≡ 0) × (shutted_down ≡ none))
        ⊎ ((st.pipeline ≡ false) × (((a ≡ 0) × (0 < d)) ⊎ ((0 < a) × (d ≡ 0)))))

abbrev pub IsGood : Handler → Type 0
IsGood h = IsGoodAt h.streamer h.shutted_down (asyncs h.tasks) (destroys h.tasks)

-- The result is a good state: there is no fault.
abbrev pub Goes : Outcome Handler → Type 0
Goes (ok h) = IsGood h
Goes (fault why) = ⊥

-- A stream is not asked for while a task of an earlier one is to destroy it, and `shutdown` is called
-- once.
abbrev pub IsAllowed : Event → Handler → Type 0
IsAllowed (streams made change s f) h = (is_some h.streamer ≡ true) ⊎ (destroys h.tasks ≡ 0)
IsAllowed (shuts_down f) h = h.shutted_down ≡ none
IsAllowed _ h = Unit

start-counts :
    (change : StateChange) (s f : ℕ)
    → (asyncs (start_tasks change s f) ≡ 0) × (destroys (start_tasks change s f) ≡ 0)
unfolding start_tasks
start-counts change_failure s f = (refl, refl)
start-counts change_async s f = (refl, refl)
start-counts change_success s f = (refl, refl)
start-counts change_no_preroll s f = (refl, refl)

-- A handler by its members, and a streamer by its own.
abbrev pub at : Option Streamer → Option ℕ → List Task → List ℕ → Handler
at o sd ts cs = record { streamer = o; shutted_down = sd; tasks = ts; called = cs }

abbrev pub of : Bool → ℕ → ℕ → ℕ → Streamer
of p r n f = record { pipeline = p; refs = r; streaming = n; stream_failed = f }

streams-IsGood :
    (made : Bool) (change : StateChange) (s f : ℕ) (o : Option Streamer) (sd : Option ℕ)
    (ts : List Task) (cs : List ℕ)
    → IsGood (at o sd ts cs)
    → IsAllowed (streams made change s f) (at o sd ts cs)
    → IsGood (stream made change s f (at o sd ts cs))
unfolding stream
streams-IsGood made change s f (some st) sd ts cs good allowed = good
streams-IsGood false change s f none sd ts cs good allowed =
    (ground (arith, good, asyncs-append ts (call f ∷ [])), good.1)
streams-IsGood true change s f none sd ts cs good allowed =
    let (none_async, none_destroy) = start-counts change s f in
    (
      ground (arith, good, none_async, asyncs-append ts (start_tasks change s f)),
      inl (
        refl,
        ground (arith, allowed, none_destroy, destroys-append ts (start_tasks change s f)),
        good.1,
      ),
    )

stopped-IsGood :
    (r n f : ℕ) (sd : Option ℕ) (ts : List Task) (cs : List ℕ)
    → asyncs ts ≡ r
    → (destroys ts ≡ 0) ⊎ (asyncs ts ≡ 0)
    → IsGood (
        if r == 0
        then post destroy_streaming (at (some (of false r n f)) sd ts cs)
        else at (some (of false r n f)) sd ts cs)
stopped-IsGood r n f sd ts cs count good =
    if_keeps IsGood (r == 0) _ _
      (λ last. (
        ground (arith, count, asyncs-append ts (destroy_streaming ∷ [])),
        inr (
          refl,
          inl (
            ground (arith, count, last, nat_beq_iff r 0, asyncs-append ts (destroy_streaming ∷ [])),
            ground (arith, destroys-append ts (destroy_streaming ∷ [])),
          ),
        ),
      ))
      (λ more. (
        count,
        inr (
          refl,
          inr (
            ground (arith, more, count, nat_beq_iff r 0),
            ground (arith, more, good, count, nat_beq_iff r 0),
          ),
        ),
      ))

-- While the streamer is stopped, by the caller or by a task.
pub stop_streamer_lem :
    (ndebug p : Bool) (r n f : ℕ) (h : Handler)
    → stop_streamer ndebug change_success (of p r n f) h
      ≡ ok (
          if r == 0
          then post destroy_streaming (record h { streamer = some (of false r n f) })
          else record h { streamer = some (of false r n f) })
unfolding stop_streamer
stop_streamer_lem true true r n f h = refl
stop_streamer_lem false true r n f h = refl
stop_streamer_lem true false r n f h = refl
stop_streamer_lem false false r n f h = refl

stop-Goes :
    (ndebug p : Bool) (r n f : ℕ) (sd : Option ℕ) (ts : List Task) (cs : List ℕ) (h : Handler)
    → record h { streamer = some (of false r n f) } ≡ at (some (of false r n f)) sd ts cs
    → asyncs ts ≡ r
    → (destroys ts ≡ 0) ⊎ (asyncs ts ≡ 0)
    → Goes (stop_streamer ndebug change_success (of p r n f) h)
stop-Goes ndebug p r n f sd ts cs h same count good =
    subst Goes (sym (stop_streamer_lem ndebug p r n f h)) (
      subst (λ g. IsGood (if r == 0 then post destroy_streaming g else g)) (sym same)
        (stopped-IsGood r n f sd ts cs count good))

release-Goes :
    (p : Bool) (r n f : ℕ) (sd : Option ℕ) (ts : List Task) (cs : List ℕ)
    → suc (asyncs ts) ≡ r
    → destroys ts ≡ 0
    → ((p ≡ true) × (sd ≡ none)) ⊎ (p ≡ false)
    → Goes (release (some (of p r n f)) (at (some (of p r n f)) sd ts cs))
unfolding release
release-Goes true r n f sd ts cs count none_left good =
    if_keeps IsGood ((r == 1) && false) _ _ (λ no. ground (arith, no))
      (λ yes. (ground (arith, count), inl (refl, none_left, ground (arith, good))))
release-Goes false r n f sd ts cs count none_left good =
    if_keeps IsGood ((r == 1) && true) _ _
      (λ last. (
        ground (arith, count, asyncs-append ts (destroy_streaming ∷ [])),
        inr (
          refl,
          inl (
            ground (arith, count, last, nat_beq_iff r 1, asyncs-append ts (destroy_streaming ∷ [])),
            ground (arith, destroys-append ts (destroy_streaming ∷ [])),
          ),
        ),
      ))
      (λ more. (
        ground (arith, count),
        inr (refl, inr (ground (arith, more, count, nat_beq_iff r 1), none_left)),
      ))

failed-Goes :
    (ndebug : Bool) (st : Streamer) (sd : Option ℕ) (ts : List Task) (cs : List ℕ)
    → IsGoodAt (some st) sd (suc (asyncs ts)) (destroys ts)
    → Goes (
        stop_streamer ndebug change_success st
          (post (stream_failed st.stream_failed) (at (some st) sd ts cs))
        >>= λ h. release h.streamer h)
failed-Goes ndebug st sd ts cs good =
    let left : List Task = ts ++ (stream_failed st.stream_failed ∷ []) in
    let stopped : Handler = at (some (of false st.refs st.streaming st.stream_failed)) sd left cs in
    let held : (st.refs == 0) ≡ false = ground (arith, good, nat_beq_iff st.refs 0) in
    let stops : stop_streamer ndebug change_success st
          (post (stream_failed st.stream_failed) (at (some st) sd ts cs))
        ≡ ok stopped =
      subst
        (λ b.
          stop_streamer ndebug change_success st
            (post (stream_failed st.stream_failed) (at (some st) sd ts cs))
          ≡ ok (if b then post destroy_streaming stopped else stopped))
        held
        (stop_streamer_lem ndebug st.pipeline st.refs st.streaming st.stream_failed
          (post (stream_failed st.stream_failed) (at (some st) sd ts cs))) in
    subst (λ o. Goes (o >>= λ h. release h.streamer h)) (sym stops)
      (release-Goes false st.refs st.streaming st.stream_failed sd left cs
        (ground (arith, good, asyncs-append ts (stream_failed st.stream_failed ∷ [])))
        (ground (arith, good, destroys-append ts (stream_failed st.stream_failed ∷ []))) (inr refl))

-- A task that refers to the streamer runs: the streamer is there, and the reference goes.
async-Goes :
    (ndebug : Bool) (m : BusMessage) (o : Option Streamer) (sd : Option ℕ) (ts : List Task)
    (cs : List ℕ)
    → IsGoodAt o sd (suc (asyncs ts)) (destroys ts)
    → Goes (run_task ndebug change_success (async m) (at o sd ts cs))
unfolding run_task async_handler
async-Goes ndebug m none sd ts cs good = ground (arith, good)
async-Goes ndebug playing (some st) sd ts cs good =
    release-Goes st.pipeline st.refs st.streaming st.stream_failed sd
      (ts ++ (streaming st.streaming ∷ [])) cs
      (ground (arith, good, asyncs-append ts (streaming st.streaming ∷ [])))
      (ground (arith, good, destroys-append ts (streaming st.streaming ∷ [])))
      (ground (arith, good))
async-Goes ndebug error (some st) sd ts cs good = failed-Goes ndebug st sd ts cs good
async-Goes ndebug eos (some st) sd ts cs good = failed-Goes ndebug st sd ts cs good

pub released : (ndebug p : Bool) → p ≡ false → check ndebug (not p) ≡ ok tt
released true p h = refl
released false true h = ground (arith, h)
released false false h = refl

post_call-IsGood :
    (n : ℕ) (o : Option Streamer) (sd : Option ℕ) (ts : List Task) (cs : List ℕ)
    → IsGood (at o sd ts cs)
    → IsGood (at o sd (ts ++ (call n ∷ [])) cs)
post_call-IsGood n o sd ts cs good =
    let a : asyncs ts ≡ asyncs (ts ++ (call n ∷ [])) =
      ground (arith, asyncs-append ts (call n ∷ [])) in
    let d : destroys ts ≡ destroys (ts ++ (call n ∷ [])) =
      ground (arith, destroys-append ts (call n ∷ [])) in
    subst (λ k. IsGoodAt o sd k (destroys (ts ++ (call n ∷ [])))) a
      (subst (λ k. IsGoodAt o sd (asyncs ts) k) d good)

called-IsGood :
    (sd : Option ℕ) (ts : List Task) (cs : List ℕ)
    → asyncs ts ≡ 0
    → IsGood (call_shutted_down sd (at none sd ts cs))
called-IsGood none ts cs h = (h, refl)
called-IsGood (some f) ts cs h = (ground (arith, h, asyncs-append ts (call f ∷ [])), refl)

destroy-Goes :
    (ndebug : Bool) (o : Option Streamer) (sd : Option ℕ) (ts : List Task) (cs : List ℕ)
    → IsGoodAt o sd (asyncs ts) (suc (destroys ts))
    → Goes (destroy ndebug (at o sd ts cs))
unfolding destroy
destroy-Goes ndebug none sd ts cs good =
    subst (λ x. Goes (ok (call_shutted_down x (at none x ts cs)))) (sym good.1) (good.0, refl)
destroy-Goes ndebug (some st) sd ts cs good =
    subst (λ o. Goes (o >> ok (call_shutted_down sd (at none sd ts cs))))
      (sym (released ndebug st.pipeline (ground (arith, good))))
      (called-IsGood sd ts cs (ground (arith, good)))

run-Goes :
    (ndebug : Bool) (task : Task) (o : Option Streamer) (sd : Option ℕ) (ts : List Task)
    (cs : List ℕ)
    → IsGood (at o sd (task ∷ ts) cs)
    → Goes (run_task ndebug change_success task (at o sd ts cs))
unfolding run_task
run-Goes ndebug (async m) o sd ts cs good = async-Goes ndebug m o sd ts cs good
run-Goes ndebug destroy_streaming o sd ts cs good = destroy-Goes ndebug o sd ts cs good
run-Goes ndebug (streaming n) o sd ts cs good = post_call-IsGood n o sd ts cs good
run-Goes ndebug (stream_failed n) o sd ts cs good = post_call-IsGood n o sd ts cs good
run-Goes ndebug (call n) o sd ts cs good = good

pub run_first-Goes :
    (ndebug : Bool) (o : Option Streamer) (sd : Option ℕ) (ts : List Task) (cs : List ℕ)
    → IsGood (at o sd ts cs)
    → Goes (run_first ndebug change_success ts (at o sd ts cs))
unfolding run_first
run_first-Goes ndebug o sd [] cs good = good
run_first-Goes ndebug o sd (task ∷ ts) cs good = run-Goes ndebug task o sd ts cs good

says-IsGood :
    (m : BusMessage) (o : Option Streamer) (sd : Option ℕ) (ts : List Task) (cs : List ℕ)
    → IsGood (at o sd ts cs)
    → IsGood (bus_message m o (at o sd ts cs))
unfolding bus_message
says-IsGood m none sd ts cs good = good
says-IsGood m (some st) sd ts cs good =
    if_keeps IsGood st.pipeline _ _
      (λ runs. (
        ground (arith, good, asyncs-append ts (async m ∷ [])),
        inl (
          runs,
          ground (arith, good, runs, destroys-append ts (async m ∷ [])),
          ground (arith, good, runs),
        ),
      ))
      (λ stopped. good)

stops-Goes :
    (ndebug : Bool) (o : Option Streamer) (sd : Option ℕ) (ts : List Task) (cs : List ℕ)
    → IsGood (at o sd ts cs)
    → Goes (stop_stream ndebug change_success o (at o sd ts cs))
unfolding stop_stream
stops-Goes ndebug none sd ts cs good = good
stops-Goes ndebug (some st) sd ts cs good =
    stop-Goes ndebug st.pipeline st.refs st.streaming st.stream_failed sd ts cs _ refl good.0
      (ground (arith, good))

pub shuts_down-Goes :
    (ndebug : Bool) (f : ℕ) (o : Option Streamer) (sd : Option ℕ) (ts : List Task) (cs : List ℕ)
    → IsGood (at o sd ts cs)
    → sd ≡ none
    → Goes (shutdown ndebug change_success f o (at o sd ts cs))
unfolding shutdown
shuts_down-Goes ndebug f none sd ts cs good once = post_call-IsGood f none sd ts cs good
shuts_down-Goes ndebug f (some st) sd ts cs good once =
    subst (λ o. Goes (o >> stop_streamer ndebug change_success st (at (some st) (some f) ts cs)))
      (sym (released ndebug (is_some sd) (ground (arith, once))))
      (stop-Goes ndebug st.pipeline st.refs st.streaming st.stream_failed (some f) ts cs _ refl
        good.0 (ground (arith, good)))

-- Nothing that may happen to a streaming handler faults, and what holds of it stays: a streamer with a
-- pipeline, so a running one, has no task that would destroy it, a stopped one is referred to by tasks
-- or, as soon as none does, has a task that destroys it, its count is that of the tasks that refer to
-- it, and a `shutdown` waits only while a streamer stops. So the assertion in the streamer's destructor
-- holds, and no asynchronous handler runs on a streamer that is gone. It is assumed that no stream is
-- asked for while a task of an earlier one is to destroy it, and that `shutdown` is called once.
pub step-Goes :
    (ndebug : Bool) (event : Event) (h : Handler)
    → IsGood h
    → IsAllowed event h
    → Goes (step ndebug event h)
unfolding step
step-Goes ndebug (streams made change s f) h good allowed =
    streams-IsGood made change s f h.streamer h.shutted_down h.tasks h.called good allowed
step-Goes ndebug stops h good allowed =
    stops-Goes ndebug h.streamer h.shutted_down h.tasks h.called good
step-Goes ndebug (shuts_down f) h good allowed =
    shuts_down-Goes ndebug f h.streamer h.shutted_down h.tasks h.called good allowed
step-Goes ndebug (says m) h good allowed =
    says-IsGood m h.streamer h.shutted_down h.tasks h.called good
step-Goes ndebug runs h good allowed =
    run_first-Goes ndebug h.streamer h.shutted_down h.tasks h.called good
