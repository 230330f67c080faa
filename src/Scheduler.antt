-- ===== src/Scheduler.antt =====
-- wheel/scheduler/: `UvScheduler` (imp/uv_scheduler.h and .cpp), and scheduler_models.
-- libuv is not modelled: the loop's callbacks are operations that the loop may run, and of a
-- handle the state keeps what libuv's contract speaks of, whether it is open or closing.
-- A callback is a number, and `body` says which scheduler calls it makes before it returns or
-- throws; every caller catches all exceptions, so the two look alike.
pub mod Config
pub mod Loop
pub mod Timers
pub mod Queue
pub mod Safety
pub mod Oneshot
pub mod Reach
pub mod Restart
pub mod Timetable
pub mod Api
pub mod Posting
use lynne_social.Prelude.{
  ℕ, zero, suc, ◌+◌, ◌≡◌, Bool, true, false, Option, none, some, List, [], ◌∷◌, ◌++◌, Text, txt,
  String, nat_eq, not, ◌||◌, ◌&&◌, text_eq_instance, lookup, insert, erase, if◌then◌else◌,
}

-- The handle of a timer: open, or handed to uv_close.
pub data Phase : Type 0 where
  armed closing : Phase

-- struct TimerCtx. `owned` says whether `owner` points to timers_ or is null, and `oneshot` which
-- callback uv_timer_start was given, with its timeout and repeat in milliseconds.
pub record TimerCtx : Type 0 where
  pub name : Text
  pub callback : ℕ
  pub owned : Bool
  pub oneshot : Bool
  pub timeout : ℕ
  pub repeat : ℕ
  pub phase : Phase

-- struct WorkCtx
pub record WorkCtx : Type 0 where
  pub work : ℕ
  pub on_done : ℕ

-- The fields of UvScheduler; the heap that its pointers lead to (`ctxs`, `works`, fresh addresses
-- from `next`); the counter of after(), which is static and so shared by all schedulers of the
-- process; the callbacks run so far; whether a timer handle was closed twice or a freed context
-- used (`fault`). Of the async handle: whether it has been signalled since it last ran, whether it
-- was handed to uv_close and the loop has not ended that, and whether a call broke libuv's rules
-- for it: an init or a second close while it closes, or a signal while it is not there.
pub record Scheduler : Type 0 where
  pub started : Bool
  pub async_inited : Bool
  pub post_queue : List ℕ
  pub timers : List (Text × ℕ)
  pub ctxs : List (ℕ × TimerCtx)
  pub works : List (ℕ × WorkCtx)
  pub next : ℕ
  pub counter : ℕ
  pub signalled : Bool
  pub executed : List ℕ
  pub fault : Bool
  pub async_closing : Bool
  pub async_fault : Bool

-- UvScheduler(config): the configuration is kept and not read
unfoldable pub scheduler : Scheduler
scheduler = record {
  started = false;
  async_inited = false;
  post_queue = [];
  timers = [];
  ctxs = [];
  works = [];
  next = 0;
  counter = 0;
  signalled = false;
  executed = [];
  fault = false;
  async_closing = false;
  async_fault = false;
}

unfoldable pub name : Scheduler → Text
name s = txt "UvScheduler"

unfoldable pub start : Scheduler → Scheduler
start s = if s.started then s else record s {
  async_inited = true;
  started = true;
  async_fault = s.async_fault || s.async_closing;
}

unfoldable pub health_check : Scheduler → Bool
health_check s = s.started

abbrev pub close_ctx : Option TimerCtx → ℕ → Scheduler → Scheduler
close_ctx none p s = record s { fault = true }
close_ctx (some c) p s = elim c.phase [
  | closing ↦ record s { fault = true }
  | armed ↦ record s { ctxs = insert p (record c { owned = false; phase = closing }) s.ctxs }
]

-- uv_timer_stop(&ctx->handle); ctx->owner = nullptr; uv_close(..., timer_close_cb)
unfoldable pub close_timer : ℕ → Scheduler → Scheduler
close_timer p s = close_ctx (lookup p s.ctxs) p s

-- the loop of stop() over timers_
unfoldable pub close_all : List (Text × ℕ) → Scheduler → Scheduler
unfolding close_timer
close_all [] s = s
close_all ((n, p) ∷ ts) s = close_all ts (close_timer p s)

unfoldable pub stop : Scheduler → Scheduler
unfolding close_all
stop s =
    if s.started
    then record (close_all s.timers (record s { started = false })) {
      timers = [];
      async_inited = false;
      async_closing = s.async_inited || s.async_closing;
      async_fault = s.async_fault || (s.async_inited && s.async_closing);
    }
    else s

unfoldable pub run_blocking : ℕ → ℕ → Scheduler → Scheduler
run_blocking work on_done s = record s {
  works = insert s.next (record { work = work; on_done = on_done }) s.works;
  next = suc s.next;
}

-- post: push_back under the lock, then uv_async_send
unfoldable pub post : ℕ → Scheduler → Scheduler
post callback s = record s {
  post_queue = s.post_queue ++ (callback ∷ []);
  signalled = true;
  async_fault = s.async_fault || not s.async_inited;
}

-- after() of another scheduler: of this one it only counts the static counter up
unfoldable pub after_elsewhere : Scheduler → Scheduler
after_elsewhere s = record s { counter = suc s.counter }

abbrev pub remove_found : Option ℕ → Text → Scheduler → Scheduler
remove_found none n s = s
remove_found (some p) n s = close_timer p (record s { timers = erase n s.timers })

unfoldable pub remove_job : Text → Scheduler → Scheduler
unfolding close_timer
remove_job n s = remove_found (lookup n s.timers) n s

-- new TimerCtx, uv_timer_init, timers_[name] = ctx, uv_timer_start
unfoldable pub arm : Text → ℕ → Bool → ℕ → ℕ → Scheduler → Scheduler
arm n callback oneshot timeout repeat s = record s {
  ctxs = insert s.next ctx s.ctxs;
  timers = insert n s.next s.timers;
  next = suc s.next;
}
  where
    ctx : TimerCtx
    ctx = record {
      name = n;
      callback = callback;
      owned = true;
      oneshot = oneshot;
      timeout = timeout;
      repeat = repeat;
      phase = armed;
    }

unfoldable pub add_job : Text → ℕ → ℕ → Scheduler → Scheduler
unfolding remove_job arm
add_job n interval_ms callback s = arm n callback false interval_ms interval_ms (remove_job n s)

-- after, where `label` is std::to_string on the counter
unfoldable pub after : (ℕ → Text) → ℕ → ℕ → Scheduler → Scheduler
unfolding remove_job arm
after label delay_ms callback s =
    let n = txt "_a_" ++ label (suc s.counter) in
    arm n callback true delay_ms 0 (remove_job n (record s { counter = suc s.counter }))

-- The calls that a client, or a callback, can make. `calls_after_elsewhere` is a call of after on
-- another scheduler; those before this one was made are calls at the start.
pub data Call : Type 0 where
  starts stops : Call
  posts : ℕ → Call
  adds_job : Text → ℕ → ℕ → Call
  removes_job : Text → Call
  calls_after : ℕ → ℕ → Call
  runs_blocking : ℕ → ℕ → Call
  calls_after_elsewhere : Call
