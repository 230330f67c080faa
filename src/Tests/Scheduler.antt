-- ===== src/Tests/Scheduler.antt =====
-- The scheduler, at a job and a one-shot timer.
use lynne_social.Prelude.{
  ℕ, ◌≡◌, ◌↔◌, refl, true, false, List, [], ◌∷◌, ◌++◌, Text, txt, nat_eq, text_eq_instance, lookup,
  insert, erase, ◌==◌, if◌then◌else◌,
}
use lynne_social.Scheduler.{
  Scheduler, scheduler, Call, starts, stops, posts, adds_job, calls_after, calls_after_elsewhere,
  start, stop, post, after, arm, remove_job, armed,
}
use lynne_social.Scheduler.Loop.{
  async_closed, perform, perform_all, invoke, async_cb, oneshot_timer_cb,
}
use lynne_social.Scheduler.Timers.{IsValid}
use lynne_social.Scheduler.Safety.{Fires}
use lynne_social.Scheduler.Queue.{async_cb_fifo, reposted}
use lynne_social.Scheduler.Oneshot.{Armed, oneshot_fault_iff}
use lynne_social.Scheduler.Restart.{restart_needs_turn}
use lynne_social.Scheduler.Timetable.{job_of, apply_all, new_timetable}
use lynne_social.Scheduler.Timetable.Refinement.{job_of-perform_all}
use lynne_social.Scheduler.Reach.{Reach, calls, wakes, here, next, Reach-IsValid}

abbrev label : ℕ → Text
label n = n ∷ []

-- Callback 1 adds a job; callback 2 stops the scheduler; the others make no call.
abbrev body : ℕ → List Call
body c = if c == 1 then adds_job (txt "j") 10 3 ∷ [] else if c == 2 then stops ∷ [] else []

abbrev history :
    Reach label body scheduler
      (async_cb label body (perform label (posts 1) (perform label starts scheduler)))
history = next (next (next here (calls starts)) (calls (posts 1))) wakes

Reach-IsValid_example :
    IsValid (async_cb label body (perform label (posts 1) (perform label starts scheduler)))
Reach-IsValid_example = Reach-IsValid label body history

abbrev up : Scheduler
up = perform label starts scheduler

restart_needs_turn_example :
    ((start (stop up)).async_fault ≡ true)
    × ((stop (start (stop up))).async_fault ≡ true)
    × ((start (async_closed (stop up))).async_fault ≡ false)
    × ((stop (start (async_closed (stop up)))).async_fault ≡ false)
unfolding perform start scheduler
restart_needs_turn_example = restart_needs_turn label body (next here (calls starts)) refl refl

abbrev queued : Scheduler
queued = post 3 (post 1 scheduler)

async_cb_fifo_example :
    ((async_cb label body queued).executed ≡ queued.executed ++ queued.post_queue)
    × ((async_cb label body queued).post_queue ≡ reposted label body queued.post_queue)
async_cb_fifo_example = async_cb_fifo label body queued

abbrev timed : Scheduler
timed = after label 5 2 (perform label starts scheduler)

timed_reach : Reach label body scheduler timed
unfolding perform
timed_reach = next (next here (calls starts)) (calls (calls_after 5 2))

fires_timed : Fires timed 0 true
unfolding perform start after remove_job arm lookup erase insert txt scheduler
fires_timed = record {
  ctx = record {
    name = txt "_a_" ++ (1 ∷ []);
    callback = 2;
    owned = true;
    oneshot = true;
    timeout = 5;
    repeat = 0;
    phase = armed;
  };
  found = refl;
  is_armed = refl;
  kind = refl;
}

oneshot_fault_iff_example :
    ((oneshot_timer_cb label body 0 timed).fault ≡ true)
    ↔ (¬ Armed (invoke label body fires_timed.ctx.callback timed) 0)
oneshot_fault_iff_example =
    oneshot_fault_iff label body 0 timed fires_timed (Reach-IsValid label body timed_reach)

abbrev client_calls : List Call
client_calls =
    calls_after_elsewhere
    ∷ starts
    ∷ adds_job (txt "j") 10 3
    ∷ adds_job (txt "j") 20 4
    ∷ calls_after 5 2
    ∷ []

job_of-perform_all_example :
    let s = perform_all label client_calls scheduler in
    let t = apply_all label client_calls new_timetable in
    (job_of (txt "j") s ≡ t.job (txt "j")) × (s.started ≡ t.running) × (s.fault ≡ false)
job_of-perform_all_example = job_of-perform_all label client_calls (txt "j")
