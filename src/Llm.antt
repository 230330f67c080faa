-- ===== src/Llm.antt =====
-- wheel/llm/: DeepSeekEngine (imp/deepseek_engine.h and .cpp) and LLMConfig (llm_models.h and .cpp).
-- The HTTPS client is not under this code: its answer to a request is an argument of `answered`.
pub mod Url
pub mod Heard
pub mod Request
pub mod Hosted
use lynne_social.Prelude.{
  ℕ, suc, ◌≡◌, Bool, true, false, not, Option, none, some, List, [], ◌∷◌, ◌++◌, Text, txt, empty, ℤ,
  pos, if◌then◌else◌, ◌==◌, take,
}
use lynne_social.Prelude.Opt.{◌>>=◌}
use lynne_social.Json.{JsonLib}
use lynne_social.Prelude.Numerals.{decimal}
use lynne_social.Llm.Url.{Endpoint, parse_base_url}

module _ (J : JsonLib) where
  open J use {
    Json, Double, object, str, int, real, is_null, dump, parse, value_str, value_int, value_real,
  }

  -- struct LLMConfig
  pub record LlmConfig : Type 0 where
    pub provider : Text
    pub api_key : Text
    pub base_url : Text
    pub model : Text
    pub temperature : Double
    pub max_tokens : ℤ
    pub timeout : ℤ
    pub ca_cert_path : Text

  -- void from_json(const nlohmann::json& j, LLMConfig& c)
  unfoldable pub llm_config_from_json : Json → Option LlmConfig
  llm_config_from_json j = do
    provider ← value_str j (txt "provider") (txt "deepseek")
    api_key ← value_str j (txt "api_key") []
    base_url ← value_str j (txt "base_url") []
    model ← value_str j (txt "model") (txt "deepseek-chat")
    temperature ← value_real j (txt "temperature") J.seven_tenths
    max_tokens ← value_int j (txt "max_tokens") (pos 4096)
    timeout ← value_int j (txt "timeout") (pos 60)
    ca_cert_path ← value_str j (txt "ca_cert_path") []
    some (record {
      provider = provider;
      api_key = api_key;
      base_url = base_url;
      model = model;
      temperature = temperature;
      max_tokens = max_tokens;
      timeout = timeout;
      ca_cert_path = ca_cert_path;
    })

  -- ChatCtx, as chat fills it
  pub record ChatCtx : Type 0 where
    pub host : Text
    pub port : ℤ
    pub path : Text
    pub body : Text
    pub api_key : Text
    pub timeout_sec : ℤ
    pub ca_cert_path : Text

  -- A job on the scheduler: its context and the client's callbacks, which may be empty.
  pub record Job : Type 0 where
    pub ctx : ChatCtx
    pub on_result : Option ℕ
    pub on_error : Option ℕ

  pub data Outcome : Type 0 where
    result : Json → Outcome
    error : Text → Outcome

  -- DeepSeekEngine, with the jobs given to its scheduler and the calls of its clients.
  pub record Engine : Type 0 where
    pub config : LlmConfig
    pub started : Bool
    pub jobs : List Job
    pub calls : List (ℕ × Outcome)

  -- The process's environment: two variables and which certificate files can be read.
  pub record Env : Type 0 where
    pub deepseek_api_key : Option Text
    pub ssl_cert_file : Option Text
    pub readable : Text → Bool

  -- DeepSeekEngine(config)
  unfoldable pub engine : LlmConfig → Engine
  engine config = record { config = config; started = false; jobs = []; calls = [] }

  unfoldable pub name : Engine → Text
  name s = txt "llm(" ++ (s.config.provider ++ (txt ":" ++ (s.config.model ++ txt ")")))

  unfoldable pub start : Engine → Engine
  start s = if s.started then s else record s { started = true }

  unfoldable pub stop : Engine → Engine
  stop s = if not s.started then s else record s { started = false }

  unfoldable pub health_check : Engine → Bool
  health_check s = s.started

  unfoldable pub first_readable : (Text → Bool) → List Text → Text
  first_readable readable [] = []
  first_readable readable (p ∷ ps) =
      let rest = first_readable readable ps in if readable p then p else rest

  abbrev pub cert_files : List Text
  cert_files =
      txt "/etc/ssl/certs/ca-certificates.crt"
      ∷ txt "/etc/pki/tls/certs/ca-bundle.crt"
      ∷ txt "/etc/ssl/cert.pem"
      ∷ []

  abbrev pub or_text : Option Text → Text
  or_text none = []
  or_text (some t) = t

  abbrev pub unless_empty : Text → Text → Text
  unless_empty t other = if empty t then other else t

  unfoldable pub detect_ca_cert_path : Env → Text
  unfolding first_readable
  detect_ca_cert_path env =
      unless_empty (or_text env.ssl_cert_file) (first_readable env.readable cert_files)

  unfoldable pub chat_body : LlmConfig → Json → Json → Json
  chat_body config messages tools = object (
      (txt "model", str config.model)
      ∷ (txt "messages", messages)
      ∷ (txt "temperature", real config.temperature)
      ∷ (txt "max_tokens", int config.max_tokens)
      ∷ (if is_null tools then [] else (txt "tools", tools) ∷ []))

  unfoldable pub default_base_url : Text
  default_base_url = txt "https://api.deepseek.com/v1"

  -- `if (callback) callback(outcome)`
  abbrev pub notify : Option ℕ → Outcome → Engine → Engine
  notify none o s = s
  notify (some c) o s = record s { calls = s.calls ++ ((c, o) ∷ []) }

  abbrev pub queue_chat :
      Env → Option ℕ → Option ℕ → Endpoint → Option Text → Engine → Option (Unit {0}) × Engine
  queue_chat env on_result on_error url none s = (none, s)
  queue_chat env on_result on_error url (some body) s = (
    some tt,
    record s {
      jobs =
          s.jobs
          ++ (record {
            ctx = record {
              host = url.host;
              port = url.port;
              path = url.path ++ txt "/chat/completions";
              body = body;
              api_key = unless_empty s.config.api_key (or_text env.deepseek_api_key);
              timeout_sec = s.config.timeout;
              ca_cert_path = unless_empty s.config.ca_cert_path (detect_ca_cert_path env);
            };
            on_result = on_result;
            on_error = on_error;
          }
              ∷ []);
    },
  )

  -- chat, up to run_blocking; `none` is an exception
  unfoldable pub chat :
      Env → Json → Option ℕ → Option ℕ → Json → Engine → Option (Unit {0}) × Engine
  unfolding chat_body default_base_url detect_ca_cert_path
  chat env messages on_result on_error tools s =
      let base_url = unless_empty s.config.base_url default_base_url in
      elim (parse_base_url base_url) [
        | none ↦ (none, s)
        | some none ↦ (some tt, notify on_error (error (txt "invalid base_url: " ++ base_url)) s)
        | some (some url) ↦
            queue_chat env on_result on_error url (dump (chat_body s.config messages tools)) s
      ]

  -- What the HTTPS client gives for a job: a response, an error of the connection, or an exception.
  pub data Answer : Type 0 where
    response : ℕ → Text → Answer
    unreachable : Text → Answer
    thrown : Text → Answer

  -- what the worker leaves in the context; `parse_error` is what() of a body that does not parse
  unfoldable pub outcome : Text → Answer → Outcome
  outcome parse_error (response status body) =
      if status == 200
      then elim (parse body) [
        | none ↦ error (txt "LLM exception: " ++ parse_error)
        | some j ↦ result j
      ]
      else error (txt "LLM API returned " ++ (decimal 10 status ++ (txt ": " ++ take 300 body)))
  outcome parse_error (unreachable err) = error (txt "LLM API connection failed: " ++ err)
  outcome parse_error (thrown what) = error (txt "LLM exception: " ++ what)

  abbrev pub deliver : Job → Outcome → Engine → Engine
  deliver job (result j) s = notify job.on_result (result j) s
  deliver job (error e) s = notify job.on_error (error e) s

  -- the worker and then the lambda given as on_done
  unfoldable pub answered : Job → Text → Answer → Engine → Engine
  unfolding outcome
  answered job parse_error a s = deliver job (outcome parse_error a) s
