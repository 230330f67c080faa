-- ===== src/Scheduler/Posting.antt =====
-- UvScheduler keeps what IsPosting asks of a scheduler.
use mathlib.Core.List.{append-nil}
use lynne_social.Prelude.{ℕ, ◌≡◌, refl, ◌∙◌, List, [], ◌∷◌, Text}
use lynne_social.Scheduler.{starts, stops, posts}
use lynne_social.Scheduler.Loop.{perform}
use lynne_social.Scheduler.Queue.{executed-perform, queue-perform, async_cb_fifo, reposted}
use lynne_social.Scheduler.Api.{IsPosting, uv_scheduler}

pub silent-reposted : (label : ℕ → Text) (cs : List ℕ) → reposted label (λ c. []) cs ≡ []
silent-reposted label [] = refl
silent-reposted label (c ∷ cs) = silent-reposted label cs

unfoldable pub uv_scheduler-IsPosting : (label : ℕ → Text) → IsPosting (uv_scheduler label)
unfolding perform
uv_scheduler-IsPosting label = record {
  waiting = λ s. s.post_queue;
  executed = λ s. s.executed;
  waiting-start = λ s. queue-perform label starts s ∙ append-nil s.post_queue;
  executed-start = executed-perform label starts;
  waiting-stop = λ s. queue-perform label stops s ∙ append-nil s.post_queue;
  executed-stop = executed-perform label stops;
  waiting-post = λ c. queue-perform label (posts c);
  executed-post = λ c. executed-perform label (posts c);
  waiting-wake = λ s. (async_cb_fifo label (λ c. []) s).1 ∙ silent-reposted label s.post_queue;
  executed-wake = λ s. (async_cb_fifo label (λ c. []) s).0;
}
