-- ===== src/DeviceBox/StreamingHandler/Ending.antt =====
-- DeviceBox/StreamingHandler.cpp: a shutdown comes to its end.
use ip_cam_box.Prelude.{
  ℕ, zero, suc, ◌+◌, ◌≤◌, ◌<◌, Bool, true, false, ◌&&◌, Option, none, some, List-cases, List, [],
  ◌∷◌, ◌++◌, ◌≡◌, refl, sym, ap, ◌∙◌, subst, inl, inr, Outcome, ok, fault, ◌>>=◌, ◌>>◌, nat_eq,
  nat_beq_iff, ◌==◌, is_some, if◌then◌else◌, if_keeps, arith,
}
use ip_cam_box.DeviceBox.StreamingHandler.{
  Handler, Streamer, Task, change_success, BusMessage, playing, eos, error, async,
  destroy_streaming, streaming, stream_failed, call, shuts_down, runs, step, post, stop_streamer,
  shutdown, release, async_handler, destroy, call_shutted_down, run_task, run_first,
}
use ip_cam_box.DeviceBox.StreamingHandler.Safety.{
  asyncs, destroys, IsGoodAt, IsGood, Goes, at, of, run_first-Goes, released, stop_streamer_lem,
  shuts_down-Goes,
}

abbrev is_playing : Option Streamer → Bool
is_playing none = false
is_playing (some st) = st.pipeline

-- How many tasks can follow from the posted ones, and themselves.
abbrev weight : List Task → ℕ
weight [] = 0
weight (async m ∷ ts) = weight ts + 5
weight (destroy_streaming ∷ ts) = weight ts + 2
weight (streaming n ∷ ts) = weight ts + 2
weight (stream_failed n ∷ ts) = weight ts + 2
weight (call n ∷ ts) = weight ts + 1

abbrev here : ℕ → ℕ → ℕ
here f n = if n == f then 1 else 0

abbrev waiting : ℕ → Option ℕ → ℕ
waiting f none = 0
waiting f (some n) = here f n

abbrev calls : ℕ → List Task → ℕ
calls f [] = 0
calls f (call n ∷ ts) = here f n + calls f ts
calls f (_ ∷ ts) = calls f ts

abbrev pub times : ℕ → List ℕ → ℕ
times f [] = 0
times f (n ∷ cs) = here f n + times f cs

-- The callback is kept for a shutdown, is posted, or was called.
abbrev owed : ℕ → Option ℕ → List Task → List ℕ → ℕ
owed f sd ts cs = waiting f sd + calls f ts + times f cs

weight-append : (ts us : List Task) → weight (ts ++ us) ≡ weight ts + weight us
weight-append [] us = omega arith
weight-append (async m ∷ ts) us = omega (arith, weight-append ts us)
weight-append (destroy_streaming ∷ ts) us = omega (arith, weight-append ts us)
weight-append (streaming n ∷ ts) us = omega (arith, weight-append ts us)
weight-append (stream_failed n ∷ ts) us = omega (arith, weight-append ts us)
weight-append (call n ∷ ts) us = omega (arith, weight-append ts us)

calls-append : (f : ℕ) (ts us : List Task) → calls f (ts ++ us) ≡ calls f ts + calls f us
calls-append f [] us = omega arith
calls-append f (async m ∷ ts) us = calls-append f ts us
calls-append f (destroy_streaming ∷ ts) us = calls-append f ts us
calls-append f (streaming n ∷ ts) us = calls-append f ts us
calls-append f (stream_failed n ∷ ts) us = calls-append f ts us
calls-append f (call n ∷ ts) us = omega (arith, calls-append f ts us)

times-append : (f : ℕ) (cs ds : List ℕ) → times f (cs ++ ds) ≡ times f cs + times f ds
times-append f [] ds = omega arith
times-append f (n ∷ cs) ds = omega (arith, times-append f cs ds)

-- Nothing plays, less is to follow, and the callback is not lost.
abbrev IsLess : ℕ → ℕ → ℕ → Handler → Type 0
IsLess f w k h =
    (is_playing h.streamer ≡ false)
    × (weight h.tasks < w)
    × (k ≤ owed f h.shutted_down h.tasks h.called)

abbrev Falls : ℕ → ℕ → ℕ → Outcome Handler → Type 0
Falls f w k (ok h) = IsLess f w k h
Falls f w k (fault why) = ⊥

module _ (f : ℕ) where
  release-Falls :
      (w k r n g : ℕ) (sd : Option ℕ) (ts : List Task) (cs : List ℕ)
      → weight ts + 2 < w
      → k ≤ owed f sd ts cs
      → Falls f w k (release (some (of false r n g)) (at (some (of false r n g)) sd ts cs))
  unfolding release
  release-Falls w k r n g sd ts cs less kept =
      if_keeps (IsLess f w k) ((r == 1) && true) _ _
        (λ last. (
          refl,
          ground (arith, less, weight-append ts (destroy_streaming ∷ [])),
          ground (arith, kept, calls-append f ts (destroy_streaming ∷ [])),
        ))
        (λ more. (refl, ground (arith, less), kept))

  -- The streamer stops again while the task holds a reference.
  failed-Falls :
      (ndebug : Bool) (r n g : ℕ) (sd : Option ℕ) (ts : List Task) (cs : List ℕ)
      → (r == 0) ≡ false
      → Falls f (weight ts + 5) (owed f sd ts cs) (
          stop_streamer ndebug change_success
            (of false r n g)
            (post (stream_failed g) (at (some (of false r n g)) sd ts cs))
          >>= λ h. release h.streamer h)
  failed-Falls ndebug r n g sd ts cs held =
      let left : Handler = at (some (of false r n g)) sd (ts ++ (stream_failed g ∷ [])) cs in
      let stops : stop_streamer ndebug change_success (of false r n g) left ≡ ok left =
        subst
          (λ b.
            stop_streamer ndebug change_success (of false r n g) left
            ≡ ok (if b then post destroy_streaming left else left))
          held (stop_streamer_lem ndebug false r n g left) in
      subst (λ o. Falls f (weight ts + 5) (owed f sd ts cs) (o >>= λ h. release h.streamer h))
        (sym stops)
        (release-Falls _ _ r n g sd (ts ++ (stream_failed g ∷ [])) cs
          (ground (arith, weight-append ts (stream_failed g ∷ [])))
          (ground (arith, calls-append f ts (stream_failed g ∷ []))))

  async-Falls :
      (ndebug : Bool) (m : BusMessage) (r n g : ℕ) (sd : Option ℕ) (ts : List Task) (cs : List ℕ)
      → (r == 0) ≡ false
      → Falls f
          (weight ts + 5)
          (owed f sd ts cs)
          (run_task ndebug change_success (async m) (at (some (of false r n g)) sd ts cs))
  unfolding run_task async_handler
  async-Falls ndebug playing r n g sd ts cs held =
      release-Falls _ _ r n g sd (ts ++ (streaming n ∷ [])) cs
        (ground (arith, weight-append ts (streaming n ∷ [])))
        (ground (arith, calls-append f ts (streaming n ∷ [])))
  async-Falls ndebug error r n g sd ts cs held = failed-Falls ndebug r n g sd ts cs held
  async-Falls ndebug eos r n g sd ts cs held = failed-Falls ndebug r n g sd ts cs held

  call-Falls :
      (w n : ℕ) (o : Option Streamer) (sd : Option ℕ) (ts : List Task) (cs : List ℕ)
      → is_playing o ≡ false
      → weight ts + 1 < w
      → IsLess f w (owed f sd ts cs) (at o sd (ts ++ (call n ∷ [])) cs)
  call-Falls w n o sd ts cs stopped less = (
    stopped,
    ground (arith, less, weight-append ts (call n ∷ [])),
    ground (arith, calls-append f ts (call n ∷ [])),
  )

  destroyed-Falls :
      (sd : Option ℕ) (ts : List Task) (cs : List ℕ)
      → IsLess f (weight ts + 2) (owed f sd ts cs) (call_shutted_down sd (at none sd ts cs))
  destroyed-Falls none ts cs = (refl, omega arith, omega arith)
  destroyed-Falls (some n) ts cs = (
    refl,
    ground (arith, weight-append ts (call n ∷ [])),
    ground (arith, calls-append f ts (call n ∷ [])),
  )

  run_task-Falls :
      (ndebug : Bool) (t : Task) (o : Option Streamer) (sd : Option ℕ) (ts : List Task)
      (cs : List ℕ)
      → IsGood (at o sd (t ∷ ts) cs)
      → is_playing o ≡ false
      → Falls f
          (weight (t ∷ ts))
          (owed f sd (t ∷ ts) cs)
          (run_task ndebug change_success t (at o sd ts cs))
  unfolding run_task destroy
  run_task-Falls ndebug (async m) none sd ts cs good stopped = ground (arith, good)
  run_task-Falls ndebug (async m) (some st) sd ts cs good stopped =
      subst
        (λ p. Falls f (weight ts + 5) (owed f sd ts cs) (
          run_task ndebug change_success (async m)
            (at (some (of p st.refs st.streaming st.stream_failed)) sd ts cs)))
        (sym stopped)
        (async-Falls ndebug m st.refs st.streaming st.stream_failed sd ts cs
          (ground (arith, good, nat_beq_iff st.refs 0)))
  run_task-Falls ndebug destroy_streaming none sd ts cs good stopped = destroyed-Falls sd ts cs
  run_task-Falls ndebug destroy_streaming (some st) sd ts cs good stopped =
      subst
        (λ o.
          Falls f (weight ts + 2) (owed f sd ts cs)
            (o >> ok (call_shutted_down sd (at none sd ts cs))))
        (sym (released ndebug st.pipeline stopped)) (destroyed-Falls sd ts cs)
  run_task-Falls ndebug (streaming n) o sd ts cs good stopped =
      call-Falls _ n o sd ts cs stopped (omega arith)
  run_task-Falls ndebug (stream_failed n) o sd ts cs good stopped =
      call-Falls _ n o sd ts cs stopped (omega arith)
  run_task-Falls ndebug (call n) o sd ts cs good stopped =
      (stopped, omega arith, ground (arith, times-append f cs (n ∷ [])))

-- The io_service runs that many tasks, or as many as there are.
abbrev pub run_times : Bool → ℕ → Handler → Outcome Handler
run_times ndebug zero h = ok h
run_times ndebug (suc n) h = step ndebug runs h >>= run_times ndebug n

-- A stopped handler, from which it is to go on.
abbrev IsStopped : Handler → Type 0
IsStopped h = IsGood h × (is_playing h.streamer ≡ false)

ran :
    (f w k : ℕ) (o : Outcome Handler)
    → Goes o
    → Falls f w k o
    → (h : Handler) × (o ≡ ok h)
      × IsStopped h
      × (weight h.tasks < w)
      × (k ≤ owed f h.shutted_down h.tasks h.called)
ran f w k (ok h) good falls = (h, refl, (good, falls.0), falls.1, falls.2)
ran f w k (fault why) good falls = absurd falls

first-runs :
    (f : ℕ) (ndebug : Bool) (t : Task) (ts : List Task) (h : Handler)
    → IsStopped h
    → h.tasks ≡ t ∷ ts
    → (e : Handler) × (step ndebug runs h ≡ ok e)
      × IsStopped e
      × (weight e.tasks < weight (t ∷ ts))
      × (owed f h.shutted_down (t ∷ ts) h.called ≤ owed f e.shutted_down e.tasks e.called)
unfolding step run_first
first-runs f ndebug t ts h stopped more =
    let good : IsGood (at h.streamer h.shutted_down (t ∷ ts) h.called) =
      subst (λ us. IsGood (at h.streamer h.shutted_down us h.called)) more stopped.0 in
    let goes : Goes (step ndebug runs h) =
      run_first-Goes ndebug h.streamer h.shutted_down h.tasks h.called stopped.0 in
    let falls : Falls f (weight (t ∷ ts)) (owed f h.shutted_down (t ∷ ts) h.called)
        (step ndebug runs h) =
      subst
        (λ us.
          Falls f (weight (t ∷ ts)) (owed f h.shutted_down (t ∷ ts) h.called)
            (run_first ndebug change_success us (at h.streamer h.shutted_down us h.called)))
        (sym more)
        (run_task-Falls f ndebug t h.streamer h.shutted_down ts h.called good stopped.1) in
    ran f _ _ (step ndebug runs h) goes falls

weight-pos : (t : Task) (ts : List Task) → 0 < weight (t ∷ ts)
weight-pos (async m) ts = omega arith
weight-pos destroy_streaming ts = omega arith
weight-pos (streaming n) ts = omega arith
weight-pos (stream_failed n) ts = omega arith
weight-pos (call n) ts = omega arith

drains :
    (f : ℕ) (ndebug : Bool) (b : ℕ) (h : Handler)
    → IsStopped h
    → weight h.tasks ≤ b
    → (n : ℕ) × (e : Handler) × (run_times ndebug n h ≡ ok e)
      × IsStopped e
      × (e.tasks ≡ [])
      × (owed f h.shutted_down h.tasks h.called ≤ owed f e.shutted_down e.tasks e.called)
drains f ndebug zero h stopped bound = elim (List-cases h.tasks) [
  | inl none_left ↦ (0, h, refl, stopped, none_left, omega arith)
  | inr (t, ts, more) ↦ absurd (omega (arith, bound, ap weight more, weight-pos t ts))
]
drains f ndebug (suc b) h stopped bound = elim (List-cases h.tasks) [
  | inl none_left ↦ (0, h, refl, stopped, none_left, omega arith)
  | inr (t, ts, more) ↦
      let (g, goes, good, less, kept) = first-runs f ndebug t ts h stopped more in
      let (n, e, runs_on, ended, empty, kept_on) =
        drains f ndebug b g good (omega (arith, bound, ap weight more, less)) in
      let first : owed f h.shutted_down h.tasks h.called ≡ owed f h.shutted_down (t ∷ ts) h.called =
        ap (λ us. owed f h.shutted_down us h.called) more in
      (
        suc n,
        e,
        ap (λ o. o >>= run_times ndebug n) goes ∙ runs_on,
        ended,
        empty,
        omega (arith, kept, kept_on, first),
      )
]

shutdown-Falls :
    (ndebug : Bool) (f : ℕ) (o : Option Streamer) (sd : Option ℕ) (ts : List Task) (cs : List ℕ)
    → sd ≡ none
    → Falls f (weight ts + 4) (times f cs + 1) (shutdown ndebug change_success f o (at o sd ts cs))
unfolding shutdown
shutdown-Falls ndebug f none sd ts cs once = (
  refl,
  ground (arith, weight-append ts (call f ∷ [])),
  ground (arith, nat_beq_iff f f, calls-append f ts (call f ∷ [])),
)
shutdown-Falls ndebug f (some st) sd ts cs once =
    let next : Handler =
      at (some (of false st.refs st.streaming st.stream_failed)) (some f) ts cs in
    let kept : IsLess f (weight ts + 4) (times f cs + 1)
        (if st.refs == 0 then post destroy_streaming next else next) =
      if_keeps (IsLess f (weight ts + 4) (times f cs + 1)) (st.refs == 0) _ _
        (λ last. (
          refl,
          ground (arith, weight-append ts (destroy_streaming ∷ [])),
          ground (arith, nat_beq_iff f f),
        ))
        (λ more. (refl, omega arith, ground (arith, nat_beq_iff f f))) in
    subst
      (λ o.
        Falls f (weight ts + 4) (times f cs + 1)
          (o >> stop_streamer ndebug change_success st (at (some st) (some f) ts cs)))
      (sym (released ndebug (is_some sd) (ground (arith, once))))
      (subst (Falls f (weight ts + 4) (times f cs + 1))
        (sym (
          stop_streamer_lem ndebug st.pipeline st.refs st.streaming st.stream_failed
            (at (some st) (some f) ts cs)))
        kept)

drained :
    (f : ℕ) (h : Handler)
    → IsStopped h
    → h.tasks ≡ []
    → (h.streamer ≡ none)
      × (h.shutted_down ≡ none)
      × (owed f h.shutted_down h.tasks h.called ≡ times f h.called)
drained f h stopped empty =
    let good : IsGoodAt h.streamer h.shutted_down 0 0 =
      subst (λ ts. IsGoodAt h.streamer h.shutted_down (asyncs ts) (destroys ts)) empty stopped.0 in
    let gone = nothing_left h.streamer h.shutted_down good stopped.1 in
    (gone.0, gone.1, ground (arith, gone.1, empty))
  where
    nothing_left :
        (o : Option Streamer) (sd : Option ℕ)
        → IsGoodAt o sd 0 0
        → is_playing o ≡ false
        → (o ≡ none) × (sd ≡ none)
    nothing_left none sd good stopped = (refl, good.1)
    nothing_left (some st) sd good stopped = absurd (ground (arith, good, stopped))

-- A shutdown comes to its end: from any state that the steps keep and in which no shutdown waits, once
-- `shutdown` has been called with a callback, the io_service needs to run a certain number of tasks, after
-- which, without a fault, no task is left, the streamer is gone, no shutdown waits, and the
-- callback has been called more often than before.
pub shutdown-ends :
    (ndebug : Bool) (f : ℕ) (h : Handler)
    → IsGood h
    → h.shutted_down ≡ none
    → (n : ℕ) × (e : Handler) × ((step ndebug (shuts_down f) h >>= run_times ndebug n) ≡ ok e)
      × (e.tasks ≡ [])
      × (e.streamer ≡ none)
      × (e.shutted_down ≡ none)
      × (times f h.called < times f e.called)
unfolding step
shutdown-ends ndebug f h good once =
    let (g, goes, stopped, less, kept) =
      ran f _ _ (shutdown ndebug change_success f h.streamer h)
        (shuts_down-Goes ndebug f h.streamer h.shutted_down h.tasks h.called good once)
        (shutdown-Falls ndebug f h.streamer h.shutted_down h.tasks h.called once) in
    let (n, e, runs_on, ended, empty, kept_on) =
      drains f ndebug (weight g.tasks) g stopped (omega arith) in
    let (gone, none_waits, all_called) = drained f e ended empty in
    (
      n,
      e,
      ap (λ o. o >>= run_times ndebug n) goes ∙ runs_on,
      empty,
      gone,
      none_waits,
      omega (arith, kept, kept_on, all_called),
    )
