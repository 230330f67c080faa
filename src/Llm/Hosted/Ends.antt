-- ===== src/Llm/Hosted/Ends.antt =====
-- The end of a request, which calls the client of its chat.
use lynne_social.Prelude.{
  ℕ, zero, suc, ◌<◌, ◌≡◌, refl, some, List, [], ◌∷◌, Text, length, get_elem?, lookup, erase, nat_eq,
  All, arith, Option-cases, inl, inr,
}
use lynne_social.Prelude.Entries.{Distinct-erase, length-erase_found, All-erase, All-lookup}
use lynne_social.Json.{JsonLib}
use lynne_social.Scheduler.{Scheduler, WorkCtx}
use lynne_social.Scheduler.Loop.{after_work_cb, invoke, perform_all}
use lynne_social.Llm.{Job}
use lynne_social.Llm.Hosted
use lynne_social.Llm.Hosted.{HostedEngine, count, hosted, completes}
use lynne_social.Llm.Hosted.Asked.{HasBoth}
use lynne_social.Llm.Hosted.Served.{IsServed, deliver-calls, deliver-jobs}

module _ (J : JsonLib) (label : ℕ → Text) where
  open J use {Json}

  job-known :
      (jobs : List (Job J)) (i : ℕ)
      → All (HasBoth J) jobs
      → i < length jobs
      → (job : Job J) × (get_elem? jobs i ≡ some job) × HasBoth J job
  job-known [] i h b = elim b [ ]
  job-known (job ∷ jobs) zero h b = (job, refl, h.0)
  job-known (job ∷ jobs) (suc i) h b = job-known jobs i h.1 (omega arith)

  works-after_work_cb :
      (q : ℕ) (w : WorkCtx) (s : Scheduler)
      → lookup q s.works ≡ some w
      → ((after_work_cb label (λ c. []) q 0 s).works ≡ erase q s.works)
        × ((after_work_cb label (λ c. []) q 0 s).next ≡ s.next)
  unfolding after_work_cb invoke perform_all
  works-after_work_cb q w s h = (ground arith, ground arith)

  -- The end of a request that waits is one call of its client.
  pub record Ends (q : ℕ) (h : HostedEngine J label) : Type 0 where
    pub called : length (Hosted.completes J label q h).engine.calls ≡ suc (length h.engine.calls)
    pub jobs : (Hosted.completes J label q h).engine.jobs ≡ h.engine.jobs
    pub works : (Hosted.completes J label q h).scheduler.works ≡ erase q h.scheduler.works
    pub next : (Hosted.completes J label q h).scheduler.next ≡ h.scheduler.next
    pub returned : (Hosted.completes J label q h).returned ≡ h.returned

  pub completes-Ends :
      (q : ℕ) (w : WorkCtx) (h : HostedEngine J label)
      → lookup q h.scheduler.works ≡ some w
      → IsServed J label h
      → Ends q h
  completes-Ends q w h e v =
      let (works, address) = works-after_work_cb q w h.scheduler e in
      let (job, at, both) = job-known h.engine.jobs w.on_done v.callers (
        All-lookup (λ (x : ℕ × WorkCtx). x.1.on_done < length h.engine.jobs) q w h.scheduler.works
          v.kept.known e) in
      let o = Hosted.left J label (lookup w.on_done h.results) in
      record {
        called = rw (e, Hosted.completes, at) (deliver-calls J label job o h.engine both);
        jobs = rw (e, Hosted.completes, at) (deliver-jobs J label job o h.engine);
        works = rw (e, Hosted.completes) works;
        next = rw (e, Hosted.completes) address;
        returned = rw (e, Hosted.completes) refl;
      }

  pub completes-IsServed :
      (q : ℕ) (h : HostedEngine J label)
      → IsServed J label h
      → IsServed J label (Hosted.completes J label q h)
  completes-IsServed q h v = elim (Option-cases (lookup q h.scheduler.works)) [
    | inl e ↦ rw (e, Hosted.completes) v
    | inr (w, e) ↦
        let d = completes-Ends q w h e v in
        let fewer = length-erase_found q w h.scheduler.works v.kept.distinct e in
        record {
          balance = rw (d.called, d.works, d.returned) (omega (arith, v.balance, fewer));
          callers = rw d.jobs v.callers;
          kept =
              rw (d.works, d.next, d.jobs)
                (record {
                  known = All-erase _ q h.scheduler.works v.kept.known;
                  below = All-erase _ q h.scheduler.works v.kept.below;
                  distinct = Distinct-erase q h.scheduler.works v.kept.distinct;
                });
        }
  ]
