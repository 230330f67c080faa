-- ===== src/WsClient/Hosted/Uv.antt =====
-- A client over UvScheduler.
use lynne_social.Prelude.{◌≡◌, refl, ℕ, List, [], Text}
use lynne_social.Scheduler.{scheduler}
use lynne_social.Scheduler.Api.{uv_scheduler}
use lynne_social.Scheduler.Posting.{uv_scheduler-IsPosting}
use lynne_social.WsClient.{WsClient, ws_client}
use lynne_social.WsClient.Runs.{Op, run_all}
use lynne_social.WsClient.Hosted.{Hosted, perform_all, view}
use lynne_social.WsClient.Hosted.Refinement.{perform_all-Simulates}

module _ (label : ℕ → Text) where
  -- The constructor: a client, and the scheduler that SchedulerFactory creates for it.
  abbrev pub hosted : Hosted (uv_scheduler label) (uv_scheduler-IsPosting label)
  hosted = record { client = ws_client; scheduler = scheduler; tasks = [] }

  abbrev pub uv_perform_all :
      List Op
      → Hosted (uv_scheduler label) (uv_scheduler-IsPosting label)
      → Hosted (uv_scheduler label) (uv_scheduler-IsPosting label)
  uv_perform_all = perform_all (uv_scheduler label) (uv_scheduler-IsPosting label)

  abbrev pub uv_view : Hosted (uv_scheduler label) (uv_scheduler-IsPosting label) → WsClient
  uv_view = view (uv_scheduler label) (uv_scheduler-IsPosting label)

  -- A new WebSocket client over a new UvScheduler, through any order of its calls, connects that
  -- give both callbacks, events of the socket, and runs of the post queue in which the client's
  -- callbacks make no calls of their own, is to its clients what the client with a plain list of
  -- posted messages is: the scheduler holds the lambdas that the list holds, in its order, and the
  -- same callbacks have been called.
  pub uv_view-perform_all :
      (os : List Op) → uv_view (uv_perform_all os hosted) ≡ run_all os ws_client
  unfolding ws_client scheduler uv_scheduler-IsPosting
  uv_view-perform_all os =
      perform_all-Simulates (uv_scheduler label) (uv_scheduler-IsPosting label) os hosted
        (record { empty = refl; known = tt })
