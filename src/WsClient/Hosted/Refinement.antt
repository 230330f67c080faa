-- ===== src/WsClient/Hosted/Refinement.antt =====
-- A hosted client does, through its scheduler, what the client does with a list of its own.
use mathlib.Core.List.{append_assoc, append-nil}
use lynne_social.Prelude.{
  ◌≡◌, ◌≢◌, refl, sym, ap, ◌∙◌, Bool, true, false, List, [], ◌∷◌, ◌++◌, ℕ, suc, ◌<◌, length,
  length-append, All, All-append, All-map, arith, drop, drop-append,
}
use lynne_social.Scheduler.Api.{SchedulerApi, IsPosting}
use lynne_social.WsClient.{WsClient, Delivery, deliver_all, drain}
use lynne_social.WsClient.Runs.{
  Op, started, stopped, disconnected, drained, connected, sent, heard, run, run_all,
}
use lynne_social.WsClient.Hosted.{
  Hosted, lambdas, post_all, hand_over, with_scheduler, newly, perform, perform_all, view,
}
use lynne_social.WsClient.Hosted.Lambdas.{ids, lambdas-posts, ids-below}
use lynne_social.WsClient.Hosted.Posted.{behind, queued, run-behind, deliver_all-posted}

module _ (A : SchedulerApi) (posting : IsPosting A) where
  open posting use {waiting, executed}

  waiting-post_all :
      (n : ℕ) (ds : List Delivery) (s : A.State)
      → waiting (post_all A posting n ds s) ≡ waiting s ++ ids n ds
  waiting-post_all n [] s = sym (append-nil (waiting s))
  waiting-post_all n (d ∷ ds) s =
      waiting-post_all (suc n) ds (A.post n s)
      ∙ ap (λ l. l ++ ids (suc n) ds) (posting.waiting-post n s)
      ∙ append_assoc (waiting s) (n ∷ []) (ids (suc n) ds)

  waiting-with_scheduler :
      (o : Op) (up : Bool) (s : A.State) → waiting (with_scheduler A posting o up s) ≡ waiting s
  waiting-with_scheduler started true s = refl
  waiting-with_scheduler started false s = posting.waiting-start s
  waiting-with_scheduler stopped true s = posting.waiting-stop s
  waiting-with_scheduler stopped false s = refl
  waiting-with_scheduler disconnected up s = refl
  waiting-with_scheduler drained up s = refl
  waiting-with_scheduler (connected url headers k e) up s = refl
  waiting-with_scheduler (sent bytes binary) up s = refl
  waiting-with_scheduler (heard e) up s = refl

  -- The client keeps no list of its own, and every id that waits has its lambda.
  pub record IsHosted (h : Hosted A posting) : Type 0 where
    pub empty : h.client.posted ≡ []
    pub known : All (λ i. i < length h.tasks) (waiting h.scheduler)

  hand_over-IsHosted :
      (c : WsClient) (h : Hosted A posting)
      → All (λ i. i < length h.tasks) (waiting h.scheduler)
      → IsHosted (hand_over A posting c h)
  hand_over-IsHosted c h k = record {
    empty = refl;
    known =
        let grown = length-append h.tasks c.posted in
        rw (waiting-post_all (length h.tasks) c.posted h.scheduler) (
          All-append (λ i. i < length (h.tasks ++ c.posted)) (waiting h.scheduler)
            (ids (length h.tasks) c.posted)
            (All-map (λ i. i < length h.tasks) (λ i. i < length (h.tasks ++ c.posted))
              (waiting h.scheduler) (λ i below. omega (arith, grown)) k)
            (ids-below (length h.tasks) (length (h.tasks ++ c.posted)) c.posted
              (omega (arith, grown))));
  }

  view-hand_over :
      (c : WsClient) (h : Hosted A posting)
      → All (λ i. i < length h.tasks) (waiting h.scheduler)
      → view A posting (hand_over A posting c h) ≡ behind (lambdas h.tasks (waiting h.scheduler)) c
  view-hand_over c h k =
      ap (λ q. queued q c)
        (ap (lambdas (h.tasks ++ c.posted)) (waiting-post_all (length h.tasks) c.posted h.scheduler)
          ∙ lambdas-posts h.tasks c.posted (waiting h.scheduler) k)

  -- `t` is hosted, and to a client it is the run of `o` from `h`.
  record Simulates (o : Op) (h t : Hosted A posting) : Type 0 where
    hosted : IsHosted t
    same : view A posting t ≡ run o (view A posting h)

  abbrev handed : Op → Hosted A posting → Hosted A posting
  handed o h =
      hand_over A posting (run o h.client)
        (record h { scheduler = with_scheduler A posting o h.client.started h.scheduler })

  view-client :
      (h : Hosted A posting)
      → IsHosted h
      → view A posting h ≡ behind (lambdas h.tasks (waiting h.scheduler)) h.client
  view-client h v =
      ap (λ q. queued q h.client)
        (sym (
          ap (λ q. lambdas h.tasks (waiting h.scheduler) ++ q) v.empty
          ∙ append-nil (lambdas h.tasks (waiting h.scheduler))))

  handed-Simulates :
      (o : Op) (h : Hosted A posting) → o ≢ drained → IsHosted h → Simulates o h (handed o h)
  handed-Simulates o h n v =
      let same = waiting-with_scheduler o h.client.started h.scheduler in
      let h' : Hosted A posting = record h {
        scheduler = with_scheduler A posting o h.client.started h.scheduler;
      } in
      let known : All (λ i. i < length h.tasks) (waiting h'.scheduler) = rw same v.known in
      record {
        hosted = hand_over-IsHosted (run o h.client) h' known;
        same =
            view-hand_over (run o h.client) h' known
            ∙ ap (λ is. behind (lambdas h.tasks is) (run o h.client)) same
            ∙ sym (run-behind o (lambdas h.tasks (waiting h.scheduler)) h.client n)
            ∙ ap (run o) (sym (view-client h v));
      }

  newly-wake :
      (h : Hosted A posting)
      → newly A posting h.tasks h.scheduler (A.wake h.scheduler)
        ≡ lambdas h.tasks (waiting h.scheduler)
  newly-wake h =
      ap (λ e. lambdas h.tasks (drop (length (executed h.scheduler)) e))
        (posting.executed-wake h.scheduler)
      ∙ ap (lambdas h.tasks) (drop-append (executed h.scheduler) (waiting h.scheduler))

  drained-Simulates :
      (h : Hosted A posting) → IsHosted h → Simulates drained h (perform A posting drained h)
  unfolding drain
  drained-Simulates h v =
      let new = newly A posting h.tasks h.scheduler (A.wake h.scheduler) in
      let own : h.client ≡ queued [] h.client = ap (λ q. queued q h.client) v.empty in
      record {
        hosted = record {
          empty =
              ap (λ (c : WsClient). c.posted)
                (ap (deliver_all new) own ∙ deliver_all-posted new [] h.client);
          known = rw (posting.waiting-wake h.scheduler) tt;
        };
        same =
            ap (λ is. queued (lambdas h.tasks is) (deliver_all new h.client))
              (posting.waiting-wake h.scheduler)
            ∙ sym (deliver_all-posted new [] h.client)
            ∙ ap (λ ds. deliver_all ds (queued [] h.client)) (newly-wake h);
      }

  perform-Simulates :
      (o : Op) (h : Hosted A posting) → IsHosted h → Simulates o h (perform A posting o h)
  perform-Simulates started h v = handed-Simulates started h (λ e. cc e) v
  perform-Simulates stopped h v = handed-Simulates stopped h (λ e. cc e) v
  perform-Simulates disconnected h v = handed-Simulates disconnected h (λ e. cc e) v
  perform-Simulates drained h v = drained-Simulates h v
  perform-Simulates (connected url headers k e) h v =
      handed-Simulates (connected url headers k e) h (λ e. cc e) v
  perform-Simulates (sent bytes binary) h v = handed-Simulates (sent bytes binary) h (λ e. cc e) v
  perform-Simulates (heard e) h v = handed-Simulates (heard e) h (λ e. cc e) v

  pub perform_all-Simulates :
      (os : List Op) (h : Hosted A posting)
      → IsHosted h
      → view A posting (perform_all A posting os h) ≡ run_all os (view A posting h)
  perform_all-Simulates [] h v = refl
  perform_all-Simulates (o ∷ os) h v =
      let u = perform-Simulates o h v in
      perform_all-Simulates os (perform A posting o h) u.hosted ∙ ap (run_all os) u.same
