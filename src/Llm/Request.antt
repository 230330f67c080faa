-- ===== src/Llm/Request.antt =====
-- What a chat sends (wheel/llm/imp/deepseek_engine.cpp).
use lynne_social.Prelude.{
  ◌≡◌, refl, Option, none, some, [], ◌∷◌, ◌++◌, Text, txt, text_eq, text_eq_instance, lookup,
  if◌then◌else◌, ℕ, empty, ◌∙◌, arith,
}
use lynne_social.Json.{JsonLib}
use lynne_social.Llm.{
  LlmConfig, Engine, Env, Job, chat, chat_body, unless_empty, or_text, default_base_url,
}
use lynne_social.Llm.Url.{Endpoint, parse_base_url}

module _ (J : JsonLib) where
  open J use {Json, dump, parse, find, str, int, real, is_null}

  -- The members of a request's body.
  pub record IsBody (config : LlmConfig J) (messages tools j : Json) : Type 0 where
    pub model : find (txt "model") j ≡ some (str config.model)
    pub messages_kept : find (txt "messages") j ≡ some messages
    pub temperature : find (txt "temperature") j ≡ some (real config.temperature)
    pub max_tokens : find (txt "max_tokens") j ≡ some (int config.max_tokens)
    pub tools_kept : find (txt "tools") j ≡ (if is_null tools then none else some tools)

  chat_body-IsBody :
      (config : LlmConfig J) (messages tools : Json)
      → IsBody config messages tools (chat_body J config messages tools)
  unfolding chat_body lookup text_eq txt
  chat_body-IsBody config messages tools = record {
    model = J.find-object _ _;
    messages_kept = J.find-object _ _;
    temperature = J.find-object _ _;
    max_tokens = J.find-object _ _;
    tools_kept = J.find-object _ _ ∙ ground arith;
  }

  -- When the base url is well-formed and the body dumps, chat returns and adds one job and nothing
  -- else: for the host and port of the url, at its path with /chat/completions behind it, with the
  -- key of the configuration or, if that is empty, of the environment; and its body parses to JSON
  -- with the model, temperature and max_tokens of the configuration, the messages, and the tools
  -- unless they are null.
  pub chat_request :
      (env : Env J) (messages tools : Json) (a b : Option ℕ) (s : Engine J) (url : Endpoint)
      (t : Text)
      → parse_base_url (unless_empty J s.config.base_url (default_base_url J)) ≡ some (some url)
      → dump (chat_body J s.config messages tools) ≡ some t
      → let r = chat J env messages a b tools s in
        (job : Job J) × (r ≡ (some tt, record s { jobs = s.jobs ++ (job ∷ []) }))
        × (job.ctx.host ≡ url.host)
        × (job.ctx.port ≡ url.port)
        × (job.ctx.path ≡ url.path ++ txt "/chat/completions")
        × (job.ctx.api_key
            ≡ (if empty s.config.api_key then or_text J env.deepseek_api_key else s.config.api_key))
        × (j : Json) × (parse job.ctx.body ≡ some j)
        × IsBody s.config messages tools j
  unfolding chat
  chat_request env messages tools a b s url t h d =
      let body = chat_body J s.config messages tools in
      rw (h, chat, d)
        (
          _,
          refl,
          refl,
          refl,
          refl,
          refl,
          body,
          J.parse-dump body t d,
          chat_body-IsBody s.config messages tools,
        )
