-- ===== src/Scheduler/Timetable/Refinement.antt =====
-- The scheduler refines the timetable (wheel/scheduler/imp/uv_scheduler.cpp).
use mathlib.Core.Path.{subst}
use lynne_social.Prelude.{
  ℕ, suc, ◌≡◌, refl, ap, ◌∙◌, Bool, true, false, Option, none, some, List, [], ◌∷◌, ◌++◌, Text, txt,
  text_eq, text_eq_iff, nat_eq, text_eq_instance, lookup, lookup-insert, lookup-insert_ne,
  lookup-insert_self, lookup-erase, arith, if◌then◌else◌, Bool-cases, Option-cases, inl, inr,
}
use lynne_social.Scheduler.{
  Scheduler, scheduler, Call, starts, stops, posts, adds_job, removes_job, calls_after,
  runs_blocking, calls_after_elsewhere, after_elsewhere, start, stop, post, run_blocking, add_job,
  after, remove_job, arm, armed, close_all, close_timer,
}
use lynne_social.Scheduler.Loop.{perform, perform_all}
use lynne_social.Scheduler.Timers.{
  IsValid, removed, remove_job_found, remove_job_missing, remove_job-IsValid, apart,
}
use lynne_social.Scheduler.Timers.Calls.{perform-IsValid, perform_all-IsValid, IsValid-of_same}
use lynne_social.Scheduler.Safety.{scheduler-IsValid}
use lynne_social.Scheduler.Timetable.{
  Job, Timetable, new_timetable, entered, apply, apply_all, job_of, job_in, job_at,
}

job_at_same :
    (o : Option ℕ) (s t : Scheduler)
    → ((p : ℕ) → o ≡ some p → lookup p t.ctxs ≡ lookup p s.ctxs)
    → job_at o t ≡ job_at o s
job_at_same none s t h = refl
job_at_same (some p) s t h = ap job_in (h p refl)

job_of_same :
    (n : Text) (s t : Scheduler) → t.timers ≡ s.timers → t.ctxs ≡ s.ctxs → job_of n t ≡ job_of n s
job_of_same n s t et ec =
    ap (λ m. job_at (lookup n m) t) et
    ∙ job_at_same (lookup n s.timers) s t (λ p h. ap (lookup p) ec)

job_of-arm :
    (n : Text) (callback : ℕ) (oneshot : Bool) (timeout repeat : ℕ) (s : Scheduler) (m : Text)
    → IsValid s
    → job_of m (arm n callback oneshot timeout repeat s)
      ≡ entered n
          (some
            (record { callback = callback; oneshot = oneshot; timeout = timeout; repeat = repeat }))
          (λ k. job_of k s)
          m
unfolding arm
job_of-arm n callback oneshot timeout repeat s m v =
    rw (lookup-insert n m s.next s.timers) (elim (Bool-cases (text_eq n m)) [
      | inl same ↦ rw same (rw (lookup-insert_self s.next _ s.ctxs))
      | inr differ ↦ rw differ (
          job_at_same (lookup m s.timers) s (arm n callback oneshot timeout repeat s) (λ q h.
            ground (
              arith,
              lookup-insert s.next q
                  (record {
                    name = n;
                    callback = callback;
                    owned = true;
                    oneshot = oneshot;
                    timeout = timeout;
                    repeat = repeat;
                    phase = armed;
                  })
                  s.ctxs,
              (v.opened m q h).found,
              v.fresh q,
            )))
    ])

job_of-remove_job :
    (n : Text) (s : Scheduler) (m : Text)
    → IsValid s
    → job_of m (remove_job n s) ≡ entered n none (λ k. job_of k s) m
job_of-remove_job n s m v = elim (Option-cases (lookup n s.timers)) [
  | inl e ↦ rw (remove_job_missing n s e) (ground (arith, e, text_eq_iff n m))
  | inr (p, e) ↦ rw (remove_job_found n p s (v.opened n p e) e) (
      rw (lookup-erase n m s.timers) (elim (Bool-cases (text_eq n m)) [
        | inl same ↦ rw same refl
        | inr differ ↦ rw differ (
            job_at_same (lookup m s.timers) s (removed s (v.opened n p e)) (λ q h.
              lookup-insert_ne p q _ s.ctxs
                (apart s v (v.opened n p e) m q h (λ same. ground (arith, text_eq_iff n m)))))
      ]))
]

-- The scheduler as a timetable shows it.
pub record Agrees (t : Timetable) (s : Scheduler) : Type 0 where
  pub running : s.started ≡ t.running
  pub count : s.counter ≡ t.count
  pub jobs : (n : Text) → job_of n s ≡ t.job n

started-remove_job : (n : Text) (s : Scheduler) → (remove_job n s).started ≡ s.started
unfolding remove_job close_timer
started-remove_job n s = ground arith

counter-remove_job : (n : Text) (s : Scheduler) → (remove_job n s).counter ≡ s.counter
unfolding remove_job close_timer
counter-remove_job n s = ground arith

counter-close_all : (ts : List (Text × ℕ)) (s : Scheduler) → (close_all ts s).counter ≡ s.counter
unfolding close_all close_timer
counter-close_all [] s = refl
counter-close_all ((n, p) ∷ ts) s = ground (arith, counter-close_all ts (close_timer p s))

started-close_all : (ts : List (Text × ℕ)) (s : Scheduler) → (close_all ts s).started ≡ s.started
unfolding close_all close_timer
started-close_all [] s = refl
started-close_all ((n, p) ∷ ts) s = ground (arith, started-close_all ts (close_timer p s))

-- A job that is set anew: the earlier one of its name is removed first.
module _ (n : Text) (callback : ℕ) (oneshot : Bool) (timeout repeat : ℕ) (t : Timetable)
    (s : Scheduler) (v : IsValid s) (w : Agrees t s) where
  abbrev job : Job
  job = record { callback = callback; oneshot = oneshot; timeout = timeout; repeat = repeat }

  set_anew :
      Agrees
        (record t { job = entered n (some job) t.job })
        (arm n callback oneshot timeout repeat (remove_job n s))
  set_anew = record {
    running = unfold arm in (started-remove_job n s ∙ w.running);
    count = unfold arm in (counter-remove_job n s ∙ w.count);
    jobs = λ m.
        job_of-arm n callback oneshot timeout repeat (remove_job n s) m (remove_job-IsValid n s v)
        ∙ ground (arith, job_of-remove_job n s m v, w.jobs m);
  }

stop_cases :
    (s : Scheduler) (n : Text)
    → ((stop s).started ≡ false)
      × ((stop s).counter ≡ s.counter)
      × (job_of n (stop s) ≡ (if s.started then none else job_of n s))
unfolding stop lookup
stop_cases s n = elim (Bool-cases s.started) [
  | inl e ↦ rw e (
    started-close_all s.timers (record s { started = false }),
    counter-close_all s.timers (record s { started = false }),
    refl,
  )
  | inr e ↦ rw e (refl, refl, refl)
]

start_cases :
    (s : Scheduler) (n : Text)
    → ((start s).started ≡ true)
      × ((start s).counter ≡ s.counter)
      × (job_of n (start s) ≡ job_of n s)
unfolding start
start_cases s n =
    (ground arith, ground arith, job_of_same n s (start s) (ground arith) (ground arith))

module _ (label : ℕ → Text) where
  after-Agrees :
      (ms c : ℕ) (t : Timetable) (s : Scheduler)
      → IsValid s
      → Agrees t s
      → Agrees (apply label (calls_after ms c) t) (after label ms c s)
  unfolding after
  after-Agrees ms c t s v w =
      let s' = record s { counter = suc s.counter } in
      let v' = IsValid-of_same s s' refl refl (omega arith) refl v in
      let w' : Agrees (record t { count = suc t.count }) s' = record {
        running = w.running;
        count = ap suc w.count;
        jobs = λ n. job_of_same n s s' refl refl ∙ w.jobs n;
      } in
      let n = λ (k : ℕ). txt "_a_" ++ label (suc k) in
      subst
        (λ k.
          Agrees
            (record t {
              count = suc t.count;
              job =
                  entered (n k)
                    (some (record { callback = c; oneshot = true; timeout = ms; repeat = 0 }))
                    t.job;
            })
            (arm (n s.counter) c true ms 0 (remove_job (n s.counter) s')))
        w.count (set_anew (n s.counter) c true ms 0 (record t { count = suc t.count }) s' v' w')

  perform-Agrees :
      (c : Call) (t : Timetable) (s : Scheduler)
      → IsValid s
      → Agrees t s
      → Agrees (apply label c t) (perform label c s)
  unfolding perform post run_blocking add_job after_elsewhere
  perform-Agrees starts t s v w = record {
    running = (start_cases s []).0;
    count = (start_cases s []).1 ∙ w.count;
    jobs = λ n. (start_cases s n).2 ∙ w.jobs n;
  }
  perform-Agrees stops t s v w = record {
    running = (stop_cases s []).0;
    count = (stop_cases s []).1 ∙ w.count;
    jobs = λ n.
        (stop_cases s n).2
        ∙ (ap (λ b. if b then none else job_of n s) w.running
            ∙ ap (λ j. if t.running then none else j) (w.jobs n));
  }
  perform-Agrees (posts c) t s v w = record {
    running = w.running;
    count = w.count;
    jobs = λ n. job_of_same n s (post c s) refl refl ∙ w.jobs n;
  }
  perform-Agrees (adds_job n ms c) t s v w = set_anew n c false ms ms t s v w
  perform-Agrees (removes_job n) t s v w = record {
    running = started-remove_job n s ∙ w.running;
    count = counter-remove_job n s ∙ w.count;
    jobs = λ m. ground (arith, job_of-remove_job n s m v, w.jobs m);
  }
  perform-Agrees (calls_after ms c) t s v w = after-Agrees ms c t s v w
  perform-Agrees (runs_blocking work on_done) t s v w = record {
    running = w.running;
    count = w.count;
    jobs = λ n. job_of_same n s (run_blocking work on_done s) refl refl ∙ w.jobs n;
  }
  perform-Agrees calls_after_elsewhere t s v w = record {
    running = w.running;
    count = ap suc w.count;
    jobs = λ n. job_of_same n s (after_elsewhere s) refl refl ∙ w.jobs n;
  }

  perform_all-Agrees :
      (cs : List Call) (t : Timetable) (s : Scheduler)
      → IsValid s
      → Agrees t s
      → Agrees (apply_all label cs t) (perform_all label cs s)
  unfolding perform_all
  perform_all-Agrees [] t s v w = w
  perform_all-Agrees (c ∷ cs) t s v w =
      perform_all-Agrees cs (apply label c t) (perform label c s) (perform-IsValid label c s v)
        (perform-Agrees c t s v w)

  scheduler-Agrees : Agrees new_timetable scheduler
  unfolding scheduler lookup
  scheduler-Agrees = record { running = refl; count = refl; jobs = λ n. refl }

  -- After any calls of a client on a new scheduler, before the loop runs, the job that each name
  -- of timers_ leads to is what a plain table of jobs says: the last one set under the name and
  -- not removed, with its callback and times; no job once a started scheduler was stopped. Calls
  -- of after on other schedulers, which share the static counter, may stand anywhere before and
  -- between these calls. Whether it is started agrees too, and no timer handle was closed twice
  -- and no timer context used after it was freed; the async handle is left aside.
  pub job_of-perform_all :
      (cs : List Call) (n : Text)
      → let s = perform_all label cs scheduler in
        let t = apply_all label cs new_timetable in
        (job_of n s ≡ t.job n) × (s.started ≡ t.running) × (s.fault ≡ false)
  job_of-perform_all cs n =
      let w = perform_all-Agrees cs new_timetable scheduler scheduler-IsValid scheduler-Agrees in
      (w.jobs n, w.running, (perform_all-IsValid label cs scheduler scheduler-IsValid).sound)
