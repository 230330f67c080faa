-- ===== src/Tests/Chats.antt =====
-- Chats of the LLM engine, alone and over the scheduler.
use lynne_social.Prelude.{
  ℕ, ◌+◌, ◌≡◌, refl, false, suc, none, some, Option, [], ◌∷◌, ◌++◌, Text, txt, pos, length, lookup,
  nat_eq, empty,
}
use lynne_social.Json.Example.{example}
use lynne_social.Json.Value.{Value, null, dump_value}
use lynne_social.Scheduler.{WorkCtx}
use lynne_social.Llm.{default_base_url, Env, Job, LlmConfig, engine, chat, chat_body, response}
use lynne_social.Llm.Url.{Endpoint, parse_base_url}
use lynne_social.Storage.Fs.{strip_prefix}
use lynne_social.Llm.Request.{IsBody, chat_request}
use lynne_social.Llm.Hosted.{
  HostedEngine, hosted, chats, works, completes, asks, worked, completed, here, next,
}
use lynne_social.Llm.Hosted.Runs.{Reach-balance}

abbrev llm_config : LlmConfig example
llm_config = record {
  provider = txt "deepseek";
  api_key = txt "k";
  base_url = [];
  model = txt "m";
  temperature = 7;
  max_tokens = pos 10;
  timeout = pos 60;
  ca_cert_path = [];
}

abbrev env : Env example
env = record { deepseek_api_key = none; ssl_cert_file = none; readable = λ p. false }

abbrev label : ℕ → Text
label n = n ∷ []

-- A chat that is waiting, and the same when a worker has answered it and its end has run.
abbrev waiting : HostedEngine example label
waiting = chats example label env null 1 2 null (hosted example label llm_config)

abbrev done : HostedEngine example label
done = completes example label 0 (works example label 0 [] (response 500 (txt "no")) waiting)

Reach-balance_example :
    (length done.engine.calls + length done.scheduler.works ≡ done.returned)
    × ((q : ℕ) (w : WorkCtx)
        → lookup q done.scheduler.works ≡ some w
        → length (completes example label q done).engine.calls ≡ suc (length done.engine.calls))
Reach-balance_example = Reach-balance example label llm_config done (
    next (next (next here (asks env null 1 2 null)) (worked 0 [] (response 500 (txt "no"))))
      (completed 0))

abbrev url : Endpoint
url = record { host = txt "api.deepseek.com"; port = pos 443; path = txt "/v1" }

abbrev or_nil : Option Text → Text
or_nil none = []
or_nil (some t) = t

abbrev body_text : Text
body_text = or_nil (dump_value (chat_body example llm_config null null))

chat_request_example :
    let s = engine example llm_config in
    let r = chat example env null (some 1) none null s in
    (job : Job example) × (r ≡ (some tt, record s { jobs = s.jobs ++ (job ∷ []) }))
    × (job.ctx.host ≡ txt "api.deepseek.com")
    × (job.ctx.port ≡ pos 443)
    × (job.ctx.path ≡ txt "/v1" ++ txt "/chat/completions")
    × (job.ctx.api_key ≡ txt "k")
    × (j : Value) × (example.parse job.ctx.body ≡ some j)
    × IsBody example llm_config null null j
unfolding engine parse_base_url txt strip_prefix empty default_base_url
chat_request_example =
    chat_request example env null null (some 1) none (engine example llm_config) url body_text refl
      refl
