-- ===== src/Llm/Hosted.antt =====
-- DeepSeekEngine with the scheduler that it holds a pointer to (wheel/llm/imp/deepseek_engine.cpp
-- over wheel/scheduler/imp/uv_scheduler.cpp): a chat is work that the scheduler runs, and its end
-- calls the client.
pub mod Asked
pub mod Served
pub mod Ends
pub mod Runs
use lynne_social.Prelude.{
  ℕ, suc, ◌+◌, ◌≡◌, Bool, true, false, Option, none, some, List, [], ◌∷◌, ◌++◌, Text, length, drop,
  get_elem?, lookup, insert, nat_eq, if◌then◌else◌, ◌==◌,
}
use lynne_social.Json.{JsonLib}
use lynne_social.Scheduler.{Scheduler, WorkCtx, scheduler, run_blocking}
use lynne_social.Scheduler.Loop.{work_cb, after_work_cb}
use lynne_social.Scheduler
use lynne_social.Llm
use lynne_social.Llm.{
  LlmConfig, Engine, Env, Job, Outcome, Answer, error, chat, engine, outcome, deliver,
}

module _ (J : JsonLib) (label : ℕ → Text) where
  open J use {Json}

  -- The engine, whose jobs are the lambdas that it has given to the scheduler, each under its
  -- place; the scheduler; what the workers have left in the contexts; and how many chats have
  -- returned.
  pub record HostedEngine : Type 0 where
    pub engine : Engine J
    pub scheduler : Scheduler
    pub results : List (ℕ × Outcome J)
    pub returned : ℕ

  -- The constructor.
  abbrev pub hosted : LlmConfig J → HostedEngine
  hosted config = record {
    engine = Llm.engine J config;
    scheduler = Scheduler.scheduler;
    results = [];
    returned = 0;
  }

  abbrev pub up : HostedEngine → HostedEngine
  up h = record h {
    engine = Llm.start J h.engine;
    scheduler = if h.engine.started then h.scheduler else Scheduler.start h.scheduler;
  }

  abbrev pub down : HostedEngine → HostedEngine
  down h = record h {
    engine = Llm.stop J h.engine;
    scheduler = if h.engine.started then Scheduler.stop h.scheduler else h.scheduler;
  }

  -- scheduler_->run_blocking, for each of the jobs from the place `n` on
  abbrev pub run_all : ℕ → List (Job J) → Scheduler → Scheduler
  run_all n [] s = s
  run_all n (job ∷ jobs) s = run_all (suc n) jobs (run_blocking n n s)

  abbrev pub count : Option (Unit {0}) → ℕ
  count none = 0
  count (some u) = 1

  -- A chat with both callbacks; what it gives to the scheduler is handed over.
  abbrev pub chats : Env J → Json → ℕ → ℕ → Json → HostedEngine → HostedEngine
  chats env messages a b tools h =
      let r = chat J env messages (some a) (some b) tools h.engine in
      record h {
        engine = r.1;
        scheduler =
            run_all (length h.engine.jobs) (drop (length h.engine.jobs) r.1.jobs) h.scheduler;
        returned = h.returned + count r.0;
      }

  -- The worker of the request `q` leaves what it makes of the answer.
  abbrev pub works : ℕ → Text → Answer J → HostedEngine → HostedEngine
  works q parse_error answer h = elim (lookup q h.scheduler.works) [
    | none ↦ h
    | some w ↦ record h {
      scheduler = work_cb label (λ c. []) q h.scheduler;
      results = insert w.work (outcome J parse_error answer) h.results;
    }
  ]

  -- A context that no worker has filled has an empty error.
  abbrev pub left : Option (Outcome J) → Outcome J
  left none = error []
  left (some o) = o

  abbrev pub finish : Option (Job J) → Outcome J → Engine J → Engine J
  finish none o s = s
  finish (some job) o s = deliver J job o s

  -- The loop has the end of the request `q`.
  abbrev pub completes : ℕ → HostedEngine → HostedEngine
  completes q h = elim (lookup q h.scheduler.works) [
    | none ↦ h
    | some w ↦ record h {
      engine =
          finish (get_elem? h.engine.jobs w.on_done) (left (lookup w.on_done h.results)) h.engine;
      scheduler = after_work_cb label (λ c. []) q 0 h.scheduler;
    }
  ]

  -- Any order of calls, workers and ends.
  pub data Step (h : HostedEngine) : HostedEngine → Type 0 where
    starts : Step h (up h)
    stops : Step h (down h)
    asks :
        (env : Env J) (messages : Json) (a b : ℕ) (tools : Json)
        → Step h (chats env messages a b tools h)
    worked :
        (q : ℕ) (parse_error : Text) (answer : Answer J) → Step h (works q parse_error answer h)
    completed : (q : ℕ) → Step h (completes q h)

  pub data Reach (h : HostedEngine) : HostedEngine → Type 0 where
    here : Reach h h
    next : {t u : HostedEngine} → Reach h t → Step t u → Reach h u
