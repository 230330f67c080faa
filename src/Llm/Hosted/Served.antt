-- ===== src/Llm/Hosted/Served.antt =====
-- Each chat is answered once: over any order of calls, workers and ends of requests.
use mathlib.Core.List.{append-nil}
use lynne_social.Prelude.{
  ℕ, suc, ◌+◌, ◌<◌, ◌≡◌, refl, sym, ap, ◌∙◌, false, Option, List, [], ◌∷◌, Text, length,
  length-snoc, drop, drop-append, insert, nat_eq, All, All-append, All-map, Distinct, erase_missing,
  arith,
}
use lynne_social.Prelude.Entries.{lookup-above}
use lynne_social.Json.{JsonLib}
use lynne_social.Scheduler.{Scheduler, WorkCtx, run_blocking, start, stop, close_all, close_timer}
use lynne_social.Scheduler.Loop.{work_cb, invoke, perform_all}
use lynne_social.Llm
use lynne_social.Llm.{
  LlmConfig, Engine, Env, Job, Outcome, Answer, error, result, chat, engine, deliver, queue_chat,
  unless_empty, default_base_url, chat_body,
}
use lynne_social.Llm.Hosted
use lynne_social.Llm.Hosted.{
  HostedEngine, count, hosted, completes, Step, Reach, starts, stops, asks, worked, completed, here,
  next,
}
use lynne_social.Llm.Hosted.Asked.{Asked, queues, refuses, throws, HasBoth}

module _ (J : JsonLib) (label : ℕ → Text) where
  open J use {Json}

  -- What holds of the requests that wait, of which `jobs` have been given, at the next address `n`.
  pub record IsKept (jobs n : ℕ) (works : List (ℕ × WorkCtx)) : Type 0 where
    pub known : All (λ e. e.1.on_done < jobs) works
    pub below : All (λ e. e.0 < n) works
    pub distinct : Distinct works

  -- Each chat that has returned waits in the scheduler or has been answered.
  pub record IsServed (h : HostedEngine J label) : Type 0 where
    pub balance : length h.engine.calls + length h.scheduler.works ≡ h.returned
    pub callers : All (HasBoth J) h.engine.jobs
    pub kept : IsKept (length h.engine.jobs) h.scheduler.next h.scheduler.works

  pub deliver-calls :
      (job : Job J) (o : Outcome J) (s : Engine J)
      → HasBoth J job
      → length (deliver J job o s).calls ≡ suc (length s.calls)
  deliver-calls job (result j) s b = rw b.has_result (length-snoc s.calls _)
  deliver-calls job (error e) s b = rw b.has_error (length-snoc s.calls _)

  pub deliver-jobs :
      (job : Job J) (o : Outcome J) (s : Engine J) → (deliver J job o s).jobs ≡ s.jobs
  deliver-jobs job (result j) s = ground arith
  deliver-jobs job (error e) s = ground arith

  run_blocking-IsKept :
      (jobs : ℕ) (s : Scheduler)
      → IsKept jobs s.next s.works
      → (IsKept (suc jobs) (suc s.next) (run_blocking jobs jobs s).works)
        × (length (run_blocking jobs jobs s).works ≡ suc (length s.works))
  unfolding run_blocking insert
  run_blocking-IsKept jobs s k =
      let same = erase_missing s.next s.works (lookup-above s.next s.works k.below) in
      rw same (
        record {
          known = (
            omega arith,
            All-map (λ (e : ℕ × WorkCtx). e.1.on_done < jobs) (λ e. e.1.on_done < suc jobs) s.works
                (λ e h. omega arith) k.known,
          );
          below = (
            omega arith,
            All-map (λ (e : ℕ × WorkCtx). e.0 < s.next) (λ e. e.0 < suc s.next) s.works
                (λ e h. omega arith) k.below,
          );
          distinct = (lookup-above s.next s.works k.below, k.distinct);
        },
        refl,
      )

  -- What does not touch calls, jobs and requests keeps the count.
  same-IsServed :
      (h t : HostedEngine J label)
      → t.engine.calls ≡ h.engine.calls
      → t.engine.jobs ≡ h.engine.jobs
      → t.scheduler.works ≡ h.scheduler.works
      → t.scheduler.next ≡ h.scheduler.next
      → t.returned ≡ h.returned
      → IsServed h
      → IsServed t
  same-IsServed h t c j w n r v = record {
    balance = rw (c, w, r) v.balance;
    callers = rw j v.callers;
    kept = rw (j, w, n) v.kept;
  }

  works-close_all :
      (ts : List (Text × ℕ)) (s : Scheduler)
      → ((close_all ts s).works ≡ s.works) × ((close_all ts s).next ≡ s.next)
  unfolding close_all close_timer
  works-close_all [] s = (refl, refl)
  works-close_all ((n, p) ∷ ts) s =
      let (w, k) = works-close_all ts (close_timer p s) in (w ∙ ground arith, k ∙ ground arith)

  pub up-IsServed : (h : HostedEngine J label) → IsServed h → IsServed (Hosted.up J label h)
  unfolding start Llm.start
  up-IsServed h v =
      same-IsServed h _ (ground arith) (ground arith) (ground arith) (ground arith) refl v

  pub down-IsServed : (h : HostedEngine J label) → IsServed h → IsServed (Hosted.down J label h)
  unfolding stop Llm.stop
  down-IsServed h v =
      let (w, n) = works-close_all h.scheduler.timers (record h.scheduler { started = false }) in
      same-IsServed h _ (ground arith) (ground arith) (ground arith) (ground arith) refl v

  pub works-IsServed :
      (q : ℕ) (parse_error : Text) (answer : Answer J) (h : HostedEngine J label)
      → IsServed h
      → IsServed (Hosted.works J label q parse_error answer h)
  unfolding work_cb invoke perform_all
  works-IsServed q parse_error answer h v =
      same-IsServed h _ (ground arith) (ground arith) (ground arith) (ground arith) (ground arith) v

  abbrev pub asked : Engine J → Option (Unit {0}) → HostedEngine J label → HostedEngine J label
  asked e r h = record h {
    engine = e;
    scheduler =
        Hosted.run_all J label (length h.engine.jobs) (drop (length h.engine.jobs) e.jobs)
          h.scheduler;
    returned = h.returned + count J label r;
  }

  -- Without a new job nothing is given to the scheduler.
  scheduler-asked :
      (e : Engine J) (r : Option (Unit {0})) (h : HostedEngine J label)
      → e.jobs ≡ h.engine.jobs
      → (asked e r h).scheduler ≡ h.scheduler
  scheduler-asked e r h same =
      ap (λ l. Hosted.run_all J label (length h.engine.jobs) l h.scheduler)
        (ap (drop (length h.engine.jobs)) (same ∙ sym (append-nil h.engine.jobs))
          ∙ drop-append h.engine.jobs [])

  pub asked-IsServed :
      (e : Engine J) (r : Option (Unit {0})) (h : HostedEngine J label)
      → Asked J h.engine e r
      → IsServed h
      → IsServed (asked e r h)
  unfolding run_blocking
  asked-IsServed e r h (queues job both je ce re) v =
      let n = length h.engine.jobs in
      let given : (asked e r h).scheduler ≡ run_blocking n n h.scheduler =
        ap (λ l. Hosted.run_all J label n l h.scheduler)
          (ap (drop n) je ∙ drop-append h.engine.jobs (job ∷ [])) in
      let (kept, more) = run_blocking-IsKept n h.scheduler v.kept in
      record {
        balance = rw (ce, given, re) (omega (arith, v.balance, more));
        callers = rw je (All-append (HasBoth J) h.engine.jobs (job ∷ []) v.callers (both, tt));
        kept = rw (given, je, length-snoc h.engine.jobs job) kept;
      }
  asked-IsServed e r h (refuses je ce re) v =
      let none_given = scheduler-asked e r h je in
      record {
        balance = rw (ce, none_given, re) (omega (arith, v.balance));
        callers = rw je v.callers;
        kept = rw (none_given, je) v.kept;
      }
  asked-IsServed e r h (throws je ce re) v =
      let none_given = scheduler-asked e r h je in
      record {
        balance = rw (ce, none_given, re) (omega (arith, v.balance));
        callers = rw je v.callers;
        kept = rw (none_given, je) v.kept;
      }
