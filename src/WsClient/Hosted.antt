-- ===== src/WsClient/Hosted.antt =====
-- IxWsClient with the scheduler that it holds a pointer to (wheel/ws_client/imp/ix_ws_client.cpp):
-- what the socket's thread posts waits in the scheduler, and runs when the scheduler wakes.
pub mod Lambdas
pub mod Posted
pub mod Refinement
pub mod Uv
use lynne_social.Prelude.{
  ◌≡◌, Option, none, some, List, [], ◌∷◌, ◌++◌, ℕ, suc, length, get_elem?, drop, Bool,
  if◌then◌else◌,
}
use lynne_social.Scheduler.Api.{SchedulerApi, IsPosting}
use lynne_social.WsClient.{WsClient, Delivery, deliver_all}
use lynne_social.WsClient.Runs.{
  Op, started, stopped, disconnected, drained, connected, sent, heard, run,
}

-- The lambdas that the ids stand for.
abbrev pub lambda : Option Delivery → List Delivery
lambda none = []
lambda (some d) = d ∷ []

abbrev pub lambdas : List Delivery → List ℕ → List Delivery
lambdas tasks [] = []
lambdas tasks (i ∷ is) = lambda (get_elem? tasks i) ++ lambdas tasks is

module _ (A : SchedulerApi) (posting : IsPosting A) where
  -- The client, whose own `posted` stays empty, its scheduler, and the lambdas that it has posted,
  -- each under its place in the list.
  pub record Hosted : Type 0 where
    pub client : WsClient
    pub scheduler : A.State
    pub tasks : List Delivery

  -- scheduler_->post, for each of the lambdas
  abbrev pub post_all : ℕ → List Delivery → A.State → A.State
  post_all n [] s = s
  post_all n (d ∷ ds) s = post_all (suc n) ds (A.post n s)

  abbrev pub posts : List Delivery → Hosted → Hosted
  posts ds h = record h {
    scheduler = post_all (length h.tasks) ds h.scheduler;
    tasks = h.tasks ++ ds;
  }

  -- What a call or an event leaves in `posted` goes to the scheduler.
  abbrev pub hand_over : WsClient → Hosted → Hosted
  hand_over c h = posts c.posted (record h { client = record c { posted = [] } })

  -- The lambdas that ran between two states of the scheduler.
  abbrev pub newly : List Delivery → A.State → A.State → List Delivery
  newly tasks s t = lambdas tasks (drop (length (posting.executed s)) (posting.executed t))

  -- start and stop reach the scheduler past their guards on `started_`; the step behind stop is a
  -- later run of the queue, if it serves it.
  abbrev pub with_scheduler : Op → Bool → A.State → A.State
  with_scheduler started up s = if up then s else A.start s
  with_scheduler stopped up s = if up then A.stop s else s
  with_scheduler _ up s = s

  abbrev pub perform : Op → Hosted → Hosted
  perform drained h = record h {
    client = deliver_all (newly h.tasks h.scheduler (A.wake h.scheduler)) h.client;
    scheduler = A.wake h.scheduler;
  }
  perform o h =
      hand_over (run o h.client)
        (record h { scheduler = with_scheduler o h.client.started h.scheduler })

  abbrev pub perform_all : List Op → Hosted → Hosted
  perform_all [] h = h
  perform_all (o ∷ os) h = perform_all os (perform o h)

  -- The client as it is without a scheduler: with the lambdas that wait.
  abbrev pub view : Hosted → WsClient
  view h = record h.client { posted = lambdas h.tasks (posting.waiting h.scheduler) }
