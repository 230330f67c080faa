-- ===== src/Scheduler/Queue.antt =====
-- The post queue, and which callbacks run: `executed` and `post_queue` across the calls.
use lynne_social.Prelude.{
  ℕ, ◌≡◌, refl, ap, sym, ◌∙◌, false, List, [], ◌∷◌, ◌++◌, Text, nat_eq, text_eq_instance, arith,
}
use mathlib.Core.List.{append_assoc, append-nil}
use lynne_social.Scheduler.{
  Scheduler, Call, starts, stops, posts, adds_job, removes_job, calls_after, runs_blocking, start,
  stop, close_all, close_timer, post, remove_job, add_job, after, arm, run_blocking,
  calls_after_elsewhere, after_elsewhere,
}
use lynne_social.Scheduler.Loop.{
  perform, perform_all, invoke, invoke_all, drain_post_queue, async_cb,
}

-- A change that runs nothing and posts nothing.
record Quiet (s t : Scheduler) : Type 0 where
  same_executed : t.executed ≡ s.executed
  same_queue : t.post_queue ≡ s.post_queue
  same_signal : t.signalled ≡ s.signalled

close_timer-Quiet : (p : ℕ) (s : Scheduler) → Quiet s (close_timer p s)
unfolding close_timer
close_timer-Quiet p s = record {
  same_executed = ground arith;
  same_queue = ground arith;
  same_signal = ground arith;
}

close_all-Quiet : (ts : List (Text × ℕ)) (s : Scheduler) → Quiet s (close_all ts s)
unfolding close_all
close_all-Quiet [] s = record { same_executed = refl; same_queue = refl; same_signal = refl }
close_all-Quiet ((n, p) ∷ ts) s =
    let one = close_timer-Quiet p s in
    let rest = close_all-Quiet ts (close_timer p s) in
    record {
      same_executed = rest.same_executed ∙ one.same_executed;
      same_queue = rest.same_queue ∙ one.same_queue;
      same_signal = rest.same_signal ∙ one.same_signal;
    }

remove_job-Quiet : (n : Text) (s : Scheduler) → Quiet s (remove_job n s)
unfolding remove_job close_timer
remove_job-Quiet n s = record {
  same_executed = ground arith;
  same_queue = ground arith;
  same_signal = ground arith;
}

-- The callbacks that a call posts.
abbrev pub posted : Call → List ℕ
posted (posts c) = c ∷ []
posted _ = []

abbrev pub posted_all : List Call → List ℕ
posted_all [] = []
posted_all (c ∷ cs) = posted c ++ posted_all cs

module _ (label : ℕ → Text) where
  pub executed-perform : (c : Call) (s : Scheduler) → (perform label c s).executed ≡ s.executed
  unfolding perform start stop post add_job after arm run_blocking after_elsewhere
  executed-perform starts s = ground arith
  executed-perform stops s = ground (arith, close_all-Quiet s.timers (record s { started = false }))
  executed-perform (posts c) s = refl
  executed-perform (adds_job n ms c) s = (remove_job-Quiet n s).same_executed
  executed-perform (removes_job n) s = (remove_job-Quiet n s).same_executed
  executed-perform (calls_after ms c) s = (remove_job-Quiet _ _).same_executed
  executed-perform (runs_blocking w d) s = refl
  executed-perform calls_after_elsewhere s = refl

  pub queue-perform :
      (c : Call) (s : Scheduler) → (perform label c s).post_queue ≡ s.post_queue ++ posted c
  unfolding perform start stop post add_job after arm run_blocking after_elsewhere
  queue-perform starts s = ground (arith, append-nil s.post_queue)
  queue-perform stops s =
      ground
        (arith, close_all-Quiet s.timers (record s { started = false }), append-nil s.post_queue)
  queue-perform (posts c) s = refl
  queue-perform (adds_job n ms c) s =
      (remove_job-Quiet n s).same_queue ∙ sym (append-nil s.post_queue)
  queue-perform (removes_job n) s =
      (remove_job-Quiet n s).same_queue ∙ sym (append-nil s.post_queue)
  queue-perform (calls_after ms c) s =
      (remove_job-Quiet _ _).same_queue ∙ sym (append-nil s.post_queue)
  queue-perform (runs_blocking w d) s = sym (append-nil s.post_queue)
  queue-perform calls_after_elsewhere s = sym (append-nil s.post_queue)

  pub executed-perform_all :
      (cs : List Call) (s : Scheduler) → (perform_all label cs s).executed ≡ s.executed
  unfolding perform_all
  executed-perform_all [] s = refl
  executed-perform_all (c ∷ cs) s =
      executed-perform_all cs (perform label c s) ∙ executed-perform c s

  queue-perform_all :
      (cs : List Call) (s : Scheduler)
      → (perform_all label cs s).post_queue ≡ s.post_queue ++ posted_all cs
  unfolding perform_all
  queue-perform_all [] s = sym (append-nil s.post_queue)
  queue-perform_all (c ∷ cs) s =
      queue-perform_all cs (perform label c s)
      ∙ ap (λ q. q ++ posted_all cs) (queue-perform c s)
      ∙ append_assoc s.post_queue (posted c) (posted_all cs)

module _ (label : ℕ → Text) (body : ℕ → List Call) where
  -- What a row of callbacks posts, in order.
  abbrev pub reposted : List ℕ → List ℕ
  reposted [] = []
  reposted (c ∷ cs) = posted_all (body c) ++ reposted cs

  pub executed-invoke :
      (c : ℕ) (s : Scheduler) → (invoke label body c s).executed ≡ s.executed ++ (c ∷ [])
  unfolding invoke
  executed-invoke c s = executed-perform_all label (body c) _

  executed-invoke_all :
      (cs : List ℕ) (s : Scheduler) → (invoke_all label body cs s).executed ≡ s.executed ++ cs
  unfolding invoke_all
  executed-invoke_all [] s = sym (append-nil s.executed)
  executed-invoke_all (c ∷ cs) s =
      executed-invoke_all cs (invoke label body c s)
      ∙ ap (λ q. q ++ cs) (executed-invoke c s)
      ∙ append_assoc s.executed (c ∷ []) cs

  queue-invoke_all :
      (cs : List ℕ) (s : Scheduler)
      → (invoke_all label body cs s).post_queue ≡ s.post_queue ++ reposted cs
  unfolding invoke_all invoke
  queue-invoke_all [] s = sym (append-nil s.post_queue)
  queue-invoke_all (c ∷ cs) s =
      queue-invoke_all cs (invoke label body c s)
      ∙ ap (λ q. q ++ reposted cs) (queue-perform_all label (body c) _)
      ∙ append_assoc s.post_queue (posted_all (body c)) (reposted cs)

  -- One run of async_cb runs all callbacks of the post queue, oldest first and each once; what
  -- these callbacks post is what the queue holds afterwards, in order.
  pub async_cb_fifo :
      (s : Scheduler)
      → ((async_cb label body s).executed ≡ s.executed ++ s.post_queue)
        × ((async_cb label body s).post_queue ≡ reposted s.post_queue)
  unfolding async_cb drain_post_queue
  async_cb_fifo s = (executed-invoke_all s.post_queue _, queue-invoke_all s.post_queue _)
