-- ===== src/Llm/Hosted/Runs.antt =====
-- Every order of calls, workers and ends of requests.
use lynne_social.Prelude.{ℕ, suc, ◌+◌, ◌≡◌, refl, some, Text, length, lookup, nat_eq}
use lynne_social.Json.{JsonLib}
use lynne_social.Scheduler.{WorkCtx, scheduler}
use lynne_social.Llm.{LlmConfig, chat, engine}
use lynne_social.Llm.Hosted.{
  HostedEngine, hosted, completes, Step, Reach, starts, stops, asks, worked, completed, here, next,
}
use lynne_social.Llm.Hosted.Asked.{chat-Asked}
use lynne_social.Llm.Hosted.Served.{
  IsServed, up-IsServed, down-IsServed, works-IsServed, asked-IsServed,
}
use lynne_social.Llm.Hosted.Ends.{completes-Ends, completes-IsServed}

module _ (J : JsonLib) (label : ℕ → Text) where
  open J use {Json}

  Step-IsServed :
      (t u : HostedEngine J label) → IsServed J label t → Step J label t u → IsServed J label u
  Step-IsServed t u v starts = up-IsServed J label t v
  Step-IsServed t u v stops = down-IsServed J label t v
  Step-IsServed t u v (asks env messages a b tools) =
      let r = chat J env messages (some a) (some b) tools t.engine in
      asked-IsServed J label r.1 r.0 t (chat-Asked J env messages tools a b t.engine) v
  Step-IsServed t u v (worked q parse_error answer) =
      works-IsServed J label q parse_error answer t v
  Step-IsServed t u v (completed q) = completes-IsServed J label q t v

  Reach-IsServed :
      (config : LlmConfig J) (h : HostedEngine J label)
      → Reach J label (hosted J label config) h
      → IsServed J label h
  unfolding engine scheduler
  Reach-IsServed config h here = record {
    balance = refl;
    callers = tt;
    kept = record { known = tt; below = tt; distinct = tt };
  }
  Reach-IsServed config h (next {t} r st) = Step-IsServed t h (Reach-IsServed config t r) st

  -- From a new LLM engine over a new UvScheduler, in any order of starts, stops, chats with both
  -- callbacks, work of the requests, and ends of them: the chats that returned are as many as the
  -- calls that clients have heard and the requests that wait in the scheduler together, and the
  -- end of any request that waits is exactly one more call.
  pub Reach-balance :
      (config : LlmConfig J) (h : HostedEngine J label)
      → Reach J label (hosted J label config) h
      → (length h.engine.calls + length h.scheduler.works ≡ h.returned)
        × ((q : ℕ) (w : WorkCtx)
            → lookup q h.scheduler.works ≡ some w
            → length (completes J label q h).engine.calls ≡ suc (length h.engine.calls))
  Reach-balance config h r =
      let v = Reach-IsServed config h r in
      (v.balance, λ q w e. (completes-Ends J label q w h e v).called)
