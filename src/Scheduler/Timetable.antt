-- ===== src/Scheduler/Timetable.antt =====
-- What the scheduler promises of its jobs, without pointers and handles: under each name at most
-- one job (the calls of wheel/scheduler/imp/uv_scheduler.cpp).
pub mod Refinement
use lynne_social.Prelude.{
  ℕ, suc, Bool, true, false, Option, none, some, List, [], ◌∷◌, ◌++◌, Text, txt, text_eq, nat_eq,
  text_eq_instance, lookup, if◌then◌else◌,
}
use lynne_social.Scheduler.{
  Scheduler, TimerCtx, Call, starts, stops, posts, adds_job, removes_job, calls_after,
  runs_blocking, calls_after_elsewhere,
}

pub record Job : Type 0 where
  pub callback : ℕ
  pub oneshot : Bool
  pub timeout : ℕ
  pub repeat : ℕ

pub record Timetable : Type 0 where
  pub running : Bool
  pub count : ℕ
  pub job : Text → Option Job

abbrev pub new_timetable : Timetable
new_timetable = record { running = false; count = 0; job = λ n. none }

abbrev pub entered : Text → Option Job → (Text → Option Job) → Text → Option Job
entered n j f m = if text_eq n m then j else f m

-- A call of a client.
abbrev pub apply : (ℕ → Text) → Call → Timetable → Timetable
apply label starts t = record t { running = true }
apply label stops t = record t { running = false; job = λ n. if t.running then none else t.job n }
apply label (posts c) t = t
apply label (adds_job n ms c) t = record t {
  job =
      entered n (some (record { callback = c; oneshot = false; timeout = ms; repeat = ms })) t.job;
}
apply label (removes_job n) t = record t { job = entered n none t.job }
apply label (calls_after ms c) t = record t {
  count = suc t.count;
  job =
      entered (txt "_a_" ++ label (suc t.count))
        (some (record { callback = c; oneshot = true; timeout = ms; repeat = 0 })) t.job;
}
apply label (runs_blocking w d) t = t
apply label calls_after_elsewhere t = record t { count = suc t.count }

abbrev pub apply_all : (ℕ → Text) → List Call → Timetable → Timetable
apply_all label [] t = t
apply_all label (c ∷ cs) t = apply_all label cs (apply label c t)

-- What libuv was told of the timer that a context holds.
abbrev pub job_in : Option TimerCtx → Option Job
job_in none = none
job_in (some c) =
    some (record {
      callback = c.callback;
      oneshot = c.oneshot;
      timeout = c.timeout;
      repeat = c.repeat;
    })

abbrev pub job_at : Option ℕ → Scheduler → Option Job
job_at none s = none
job_at (some p) s = job_in (lookup p s.ctxs)

-- The job that a name of timers_ leads to.
abbrev pub job_of : Text → Scheduler → Option Job
job_of n s = job_at (lookup n s.timers) s
