-- ===== src/Scheduler/Restart.antt =====
-- The async handle over starts and stops (wheel/scheduler/imp/uv_scheduler.cpp).
use lynne_social.Prelude.{
  ℕ, ◌≡◌, refl, ◌∙◌, Bool, true, false, not, ◌||◌, List, [], ◌∷◌, Text, nat_eq, text_eq_instance,
  lookup, arith, ◌==◌, Option-cases, Bool-cases, inl, inr,
}
use lynne_social.Scheduler.{
  Scheduler, scheduler, Call, starts, stops, posts, adds_job, removes_job, calls_after,
  runs_blocking, calls_after_elsewhere, start, stop, close_all, close_timer, post, remove_job,
  add_job, after, after_elsewhere, arm, run_blocking,
}
use lynne_social.Scheduler.Loop.{
  perform, perform_all, invoke, invoke_all, drain_post_queue, async_cb, async_closed, timer_cb,
  oneshot_timer_cb, retire, timer_close_cb, work_cb, after_work_cb,
}
use lynne_social.Scheduler.Reach.{
  Step, Reach, calls, wakes, ticks, fires, closes, ends_close, works, completes, here, next,
}

-- The handle is there exactly while the scheduler is started, and unless libuv's rules were broken
-- a started scheduler's handle is not being closed.
record IsPaired (s : Scheduler) : Type 0 where
  paired : s.async_inited ≡ s.started
  calm : (s.async_fault || (not s.started || not s.async_closing)) ≡ true

-- A change that leaves the async handle alone.
record Same (s t : Scheduler) : Type 0 where
  same_started : t.started ≡ s.started
  same_inited : t.async_inited ≡ s.async_inited
  same_closing : t.async_closing ≡ s.async_closing
  same_fault : t.async_fault ≡ s.async_fault

IsPaired-of_Same : (s t : Scheduler) → Same s t → IsPaired s → IsPaired t
IsPaired-of_Same s t e v = record {
  paired = rw (e.same_inited, e.same_started) v.paired;
  calm = rw (e.same_fault, e.same_started, e.same_closing) v.calm;
}

close_timer-Same : (p : ℕ) (s : Scheduler) → Same s (close_timer p s)
unfolding close_timer
close_timer-Same p s = record {
  same_started = ground arith;
  same_inited = ground arith;
  same_closing = ground arith;
  same_fault = ground arith;
}

close_all-Same : (ts : List (Text × ℕ)) (s : Scheduler) → Same s (close_all ts s)
unfolding close_all
close_all-Same [] s = record {
  same_started = refl;
  same_inited = refl;
  same_closing = refl;
  same_fault = refl;
}
close_all-Same ((n, p) ∷ ts) s =
    let one = close_timer-Same p s in
    let rest = close_all-Same ts (close_timer p s) in
    record {
      same_started = rest.same_started ∙ one.same_started;
      same_inited = rest.same_inited ∙ one.same_inited;
      same_closing = rest.same_closing ∙ one.same_closing;
      same_fault = rest.same_fault ∙ one.same_fault;
    }

remove_job-Same : (n : Text) (s : Scheduler) → Same s (remove_job n s)
unfolding remove_job close_timer
remove_job-Same n s = record {
  same_started = ground arith;
  same_inited = ground arith;
  same_closing = ground arith;
  same_fault = ground arith;
}

retire-Same : (p : ℕ) (s : Scheduler) → Same s (retire p s)
unfolding retire close_timer
retire-Same p s = record {
  same_started = ground arith;
  same_inited = ground arith;
  same_closing = ground arith;
  same_fault = ground arith;
}

-- A new timer under a name.
set-IsPaired :
    (n : Text) (callback : ℕ) (oneshot : Bool) (timeout repeat : ℕ) (s : Scheduler)
    → IsPaired s
    → IsPaired (arm n callback oneshot timeout repeat (remove_job n s))
unfolding arm
set-IsPaired n callback oneshot timeout repeat s v =
    let w = IsPaired-of_Same s (remove_job n s) (remove_job-Same n s) v in
    record { paired = w.paired; calm = w.calm }

module _ (label : ℕ → Text) where
  perform-IsPaired : (c : Call) (s : Scheduler) → IsPaired s → IsPaired (perform label c s)
  unfolding perform start stop post add_job after run_blocking after_elsewhere
  perform-IsPaired starts s v = record {
    paired = ground (arith, v.paired);
    calm = ground (arith, v.calm);
  }
  perform-IsPaired stops s v =
      let e = close_all-Same s.timers (record s { started = false }) in
      record {
        paired = ground (arith, v.paired, e.same_started);
        calm = ground (arith, v.calm, e.same_started);
      }
  perform-IsPaired (posts c) s v = record { paired = v.paired; calm = ground (arith, v.calm) }
  perform-IsPaired (adds_job n ms c) s v = set-IsPaired n c false ms ms s v
  perform-IsPaired (removes_job n) s v = IsPaired-of_Same s _ (remove_job-Same n s) v
  perform-IsPaired (calls_after ms c) s v =
      set-IsPaired _ c true ms 0 _ (record { paired = v.paired; calm = v.calm })
  perform-IsPaired (runs_blocking w d) s v = record { paired = v.paired; calm = v.calm }
  perform-IsPaired calls_after_elsewhere s v = record { paired = v.paired; calm = v.calm }

  perform_all-IsPaired :
      (cs : List Call) (s : Scheduler) → IsPaired s → IsPaired (perform_all label cs s)
  unfolding perform_all
  perform_all-IsPaired [] s v = v
  perform_all-IsPaired (c ∷ cs) s v =
      perform_all-IsPaired cs (perform label c s) (perform-IsPaired c s v)

module _ (label : ℕ → Text) (body : ℕ → List Call) where
  invoke-IsPaired : (c : ℕ) (s : Scheduler) → IsPaired s → IsPaired (invoke label body c s)
  unfolding invoke
  invoke-IsPaired c s v =
      perform_all-IsPaired label (body c) _ (record { paired = v.paired; calm = v.calm })

  invoke_all-IsPaired :
      (cs : List ℕ) (s : Scheduler) → IsPaired s → IsPaired (invoke_all label body cs s)
  unfolding invoke_all
  invoke_all-IsPaired [] s v = v
  invoke_all-IsPaired (c ∷ cs) s v =
      invoke_all-IsPaired cs (invoke label body c s) (invoke-IsPaired c s v)

  timer_cb-IsPaired : (p : ℕ) (s : Scheduler) → IsPaired s → IsPaired (timer_cb label body p s)
  unfolding timer_cb
  timer_cb-IsPaired p s v = elim (Option-cases (lookup p s.ctxs)) [
    | inl e ↦ rw (e, timer_cb) (record { paired = v.paired; calm = v.calm })
    | inr (c, e) ↦ rw (e, timer_cb) (invoke-IsPaired c.callback s v)
  ]

  work_cb-IsPaired : (q : ℕ) (s : Scheduler) → IsPaired s → IsPaired (work_cb label body q s)
  unfolding work_cb
  work_cb-IsPaired q s v = elim (Option-cases (lookup q s.works)) [
    | inl e ↦ rw (e, work_cb) (record { paired = v.paired; calm = v.calm })
    | inr (w, e) ↦ rw (e, work_cb) (invoke-IsPaired w.work s v)
  ]

  after_work_cb-IsPaired :
      (q status : ℕ) (s : Scheduler) → IsPaired s → IsPaired (after_work_cb label body q status s)
  unfolding after_work_cb
  after_work_cb-IsPaired q status s v = elim (Option-cases (lookup q s.works)) [
    | inl e ↦ rw (e, after_work_cb) (record { paired = v.paired; calm = v.calm })
    | inr (w, e) ↦
        let u = invoke-IsPaired w.on_done s v in
        elim (Bool-cases (status == 0)) [
          | inl z ↦ rw (e, after_work_cb, z) (record { paired = u.paired; calm = u.calm })
          | inr z ↦ rw (e, after_work_cb, z) (record { paired = v.paired; calm = v.calm })
        ]
  ]

  Step-IsPaired : {s t : Scheduler} → Step label body s t → IsPaired s → IsPaired t
  unfolding async_cb drain_post_queue oneshot_timer_cb timer_close_cb async_closed
  Step-IsPaired {s} (calls c) v = perform-IsPaired label c s v
  Step-IsPaired {s} wakes v =
      invoke_all-IsPaired s.post_queue _ (record { paired = v.paired; calm = v.calm })
  Step-IsPaired {s} (ticks p f) v = timer_cb-IsPaired p s v
  Step-IsPaired {s} (fires p f a) v =
      IsPaired-of_Same _ _ (retire-Same p (timer_cb label body p s)) (timer_cb-IsPaired p s v)
  Step-IsPaired {s} (closes p c e h) v = record { paired = v.paired; calm = v.calm }
  Step-IsPaired {s} (ends_close h) v = record { paired = v.paired; calm = ground (arith, v.calm) }
  Step-IsPaired {s} (works q w e) v = work_cb-IsPaired q s v
  Step-IsPaired {s} (completes q status w e) v = after_work_cb-IsPaired q status s v

  Reach-IsPaired : {t : Scheduler} → Reach label body scheduler t → IsPaired t
  unfolding scheduler
  Reach-IsPaired here = record { paired = refl; calm = refl }
  Reach-IsPaired (next r st) = Step-IsPaired st (Reach-IsPaired r)

  -- In a state that client calls and loop callbacks can reach from a new scheduler, in which it is
  -- started and the rules of libuv for its async handle were kept: a stop and a start break them,
  -- as the start inits a handle that is being closed, also with a further stop behind; if the loop
  -- ends the close in between, neither the start nor the further stop breaks them.
  pub restart_needs_turn :
      {s : Scheduler}
      → Reach label body scheduler s
      → s.started ≡ true
      → s.async_fault ≡ false
      → ((start (stop s)).async_fault ≡ true)
        × ((stop (start (stop s))).async_fault ≡ true)
        × ((start (async_closed (stop s))).async_fault ≡ false)
        × ((stop (start (async_closed (stop s)))).async_fault ≡ false)
  unfolding start stop async_closed
  restart_needs_turn {s} r up sound =
      let v = Reach-IsPaired r in
      let e = close_all-Same s.timers (record s { started = false }) in
      (
        ground (arith, v.paired, v.calm, e.same_started, e.same_fault),
        ground (arith, v.paired, v.calm, e.same_started, e.same_fault),
        ground (arith, v.paired, v.calm, e.same_started, e.same_fault),
        ground (arith, v.paired, v.calm, e.same_started, e.same_fault),
      )
