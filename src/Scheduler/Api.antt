-- ===== src/Scheduler/Api.antt =====
-- The abstract class Scheduler (wheel/scheduler/scheduler.h), which its clients hold a pointer to,
-- and UvScheduler as an implementation.
use lynne_social.Prelude.{ℕ, ◌≡◌, Bool, List, [], ◌∷◌, ◌++◌, Text}
use lynne_social.Scheduler.{
  Scheduler, start, stop, health_check, name, run_blocking, post, add_job, remove_job, after,
}
use lynne_social.Scheduler.Loop.{async_cb}

-- The methods, over whatever an implementation keeps; `wake` is the part of step and run that
-- serves the posted callbacks.
pub record SchedulerApi : Type 1 where
  pub State : Type 0
  pub start : State → State
  pub stop : State → State
  pub health_check : State → Bool
  pub name : State → Text
  pub run_blocking : ℕ → ℕ → State → State
  pub post : ℕ → State → State
  pub add_job : Text → ℕ → ℕ → State → State
  pub remove_job : Text → State → State
  pub after : ℕ → ℕ → State → State
  pub wake : State → State

-- What a client relies on that only posts: the callbacks that wait and those that have run, in
-- their order.
pub record IsPosting (A : SchedulerApi) : Type 0 where
  pub waiting : A.State → List ℕ
  pub executed : A.State → List ℕ
  pub waiting-start : (s : A.State) → waiting (A.start s) ≡ waiting s
  pub executed-start : (s : A.State) → executed (A.start s) ≡ executed s
  pub waiting-stop : (s : A.State) → waiting (A.stop s) ≡ waiting s
  pub executed-stop : (s : A.State) → executed (A.stop s) ≡ executed s
  pub waiting-post : (c : ℕ) (s : A.State) → waiting (A.post c s) ≡ waiting s ++ (c ∷ [])
  pub executed-post : (c : ℕ) (s : A.State) → executed (A.post c s) ≡ executed s
  pub waiting-wake : (s : A.State) → waiting (A.wake s) ≡ []
  pub executed-wake : (s : A.State) → executed (A.wake s) ≡ executed s ++ waiting s

-- UvScheduler, when the callbacks make no calls of their own.
abbrev pub uv_scheduler : (ℕ → Text) → SchedulerApi
uv_scheduler label = record {
  State = Scheduler;
  start = start;
  stop = stop;
  health_check = health_check;
  name = name;
  run_blocking = run_blocking;
  post = post;
  add_job = add_job;
  remove_job = remove_job;
  after = after label;
  wake = async_cb label (λ c. []);
}
