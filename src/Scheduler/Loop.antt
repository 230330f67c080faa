-- ===== src/Scheduler/Loop.antt =====
-- What the loop runs: the static callbacks of uv_scheduler.cpp, and the post queue. A callback's
-- own calls are made by `perform`; none of them runs another callback.
use lynne_social.Prelude.{
  ℕ, true, false, none, some, List, [], ◌∷◌, ◌++◌, Text, nat_eq, text_eq_instance, lookup, erase,
  ◌==◌, if◌then◌else◌,
}
use lynne_social.Scheduler.{
  Scheduler, Call, start, stop, post, add_job, remove_job, after, run_blocking, close_timer, starts,
  stops, posts, adds_job, removes_job, calls_after, runs_blocking, calls_after_elsewhere,
  after_elsewhere,
}

module _ (label : ℕ → Text) where
  unfoldable pub perform : Call → Scheduler → Scheduler
  perform starts s = start s
  perform stops s = stop s
  perform (posts c) s = post c s
  perform (adds_job n ms c) s = add_job n ms c s
  perform (removes_job n) s = remove_job n s
  perform (calls_after ms c) s = after label ms c s
  perform (runs_blocking w d) s = run_blocking w d s
  perform calls_after_elsewhere s = after_elsewhere s

  unfoldable pub perform_all : List Call → Scheduler → Scheduler
  perform_all [] s = s
  perform_all (c ∷ cs) s = perform_all cs (perform c s)

-- `if (ctx->owner) ctx->owner->erase(ctx->name);` and the close behind it
unfoldable pub retire : ℕ → Scheduler → Scheduler
retire p s = elim (lookup p s.ctxs) [
  | none ↦ record s { fault = true }
  | some c ↦ close_timer p (if c.owned then record s { timers = erase c.name s.timers } else s)
]

-- The loop has closed the async handle; it was given no callback.
unfoldable pub async_closed : Scheduler → Scheduler
async_closed s = record s { async_closing = false }

-- `delete ctx`
unfoldable pub timer_close_cb : ℕ → Scheduler → Scheduler
timer_close_cb p s = record s { ctxs = erase p s.ctxs }

module _ (label : ℕ → Text) (body : ℕ → List Call) where
  -- try { cb(); } catch (...) {}
  unfoldable pub invoke : ℕ → Scheduler → Scheduler
  invoke c s = perform_all label (body c) (record s { executed = s.executed ++ (c ∷ []) })

  unfoldable pub invoke_all : List ℕ → Scheduler → Scheduler
  invoke_all [] s = s
  invoke_all (c ∷ cs) s = invoke_all cs (invoke c s)

  -- drain_post_queue: the queue is swapped out under the lock, then run
  unfoldable pub drain_post_queue : Scheduler → Scheduler
  drain_post_queue s = invoke_all s.post_queue (record s { post_queue = [] })

  unfoldable pub async_cb : Scheduler → Scheduler
  unfolding drain_post_queue
  async_cb s = drain_post_queue (record s { signalled = false })

  unfoldable pub timer_cb : ℕ → Scheduler → Scheduler
  timer_cb p s = elim (lookup p s.ctxs) [
    | none ↦ record s { fault = true }
    | some c ↦ invoke c.callback s
  ]

  unfoldable pub oneshot_timer_cb : ℕ → Scheduler → Scheduler
  unfolding timer_cb retire
  oneshot_timer_cb p s = retire p (timer_cb p s)

  -- on a worker thread: the work alone
  unfoldable pub work_cb : ℕ → Scheduler → Scheduler
  work_cb q s = elim (lookup q s.works) [
    | none ↦ record s { fault = true }
    | some w ↦ invoke w.work s
  ]

  -- `status` is zero unless the work was cancelled
  unfoldable pub after_work_cb : ℕ → ℕ → Scheduler → Scheduler
  after_work_cb q status s = elim (lookup q s.works) [
    | none ↦ record s { fault = true }
    | some w ↦
        let s' = if status == 0 then invoke w.on_done s else s in
        record s' { works = erase q s'.works }
  ]
