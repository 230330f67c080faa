-- ===== src/Config.antt =====
-- wheel/config/: the configuration structs (config_models.h and .cpp).
pub mod Loader
pub mod Defaults
pub mod Entries
use lynne_social.Prelude.{
  ℕ, Bool, true, false, ◌&&◌, Option, none, some, List, [], ◌∷◌, ◌++◌, Text, txt, ℤ, pos,
  text_eq_instance, insert, if◌then◌else◌,
}
use lynne_social.Prelude.Opt.{◌>>=◌}
use lynne_social.Json.{JsonLib}

pub record ServerConfig : Type 0 where
  pub port : ℤ
  pub auto_open_browser : Bool

pub record BrowserConfig : Type 0 where
  pub headless : Bool
  pub slow_mo : ℤ
  pub viewport_width : ℤ
  pub viewport_height : ℤ
  pub locale : Text
  pub timeout : ℤ

pub record PlatformConfig : Type 0 where
  pub enabled : Bool
  pub session_file : Text
  pub base_url : Text
  pub account : List (Text × Text)

pub record TaskConfig : Type 0 where
  pub name : Text
  pub platforms : List Text
  pub intent : Text
  pub schedule : Text

-- The initialisers of the structs.
abbrev pub default_server : ServerConfig
default_server = record { port = pos 7890; auto_open_browser = true }

abbrev pub default_browser : BrowserConfig
default_browser = record {
  headless = false;
  slow_mo = pos 500;
  viewport_width = pos 1920;
  viewport_height = pos 1080;
  locale = txt "zh-CN";
  timeout = pos 30000;
}

abbrev pub default_platform : PlatformConfig
default_platform = record { enabled = false; session_file = []; base_url = []; account = [] }

abbrev pub default_task : TaskConfig
default_task = record { name = []; platforms = []; intent = []; schedule = txt "manual" }

module _ (J : JsonLib) where
  open J use {
    Json, Double, find, items, elements, is_object, is_array, get_str, value_str, value_int,
    value_bool, value_real,
  }

  pub record LlmConfig : Type 0 where
    pub provider : Text
    pub api_key : Text
    pub base_url : Text
    pub model : Text
    pub temperature : Double
    pub max_tokens : ℤ
    pub timeout : ℤ

  abbrev pub default_llm : LlmConfig
  default_llm = record {
    provider = txt "deepseek";
    api_key = [];
    base_url = [];
    model = txt "deepseek-chat";
    temperature = J.seven_tenths;
    max_tokens = pos 4096;
    timeout = pos 60;
  }

  pub record Config : Type 0 where
    pub server : ServerConfig
    pub llm : LlmConfig
    pub browser : BrowserConfig
    pub platforms : List (Text × PlatformConfig)
    pub tasks : List TaskConfig

  -- Config{}
  abbrev pub default_config : Config
  default_config = record {
    server = default_server;
    llm = default_llm;
    browser = default_browser;
    platforms = [];
    tasks = [];
  }

  unfoldable pub server_from_json : Json → Option ServerConfig
  server_from_json j = do
    port ← value_int j (txt "port") (pos 7890)
    auto_open_browser ← value_bool j (txt "auto_open_browser") true
    some (record { port = port; auto_open_browser = auto_open_browser })

  unfoldable pub llm_from_json : Json → Option LlmConfig
  llm_from_json j = do
    provider ← value_str j (txt "provider") (txt "deepseek")
    api_key ← value_str j (txt "api_key") []
    base_url ← value_str j (txt "base_url") []
    model ← value_str j (txt "model") (txt "deepseek-chat")
    temperature ← value_real j (txt "temperature") J.seven_tenths
    max_tokens ← value_int j (txt "max_tokens") (pos 4096)
    timeout ← value_int j (txt "timeout") (pos 60)
    some (record {
      provider = provider;
      api_key = api_key;
      base_url = base_url;
      model = model;
      temperature = temperature;
      max_tokens = max_tokens;
      timeout = timeout;
    })

  unfoldable pub browser_from_json : Json → Option BrowserConfig
  browser_from_json j = do
    headless ← value_bool j (txt "headless") false
    slow_mo ← value_int j (txt "slow_mo") (pos 500)
    viewport_width ← value_int j (txt "viewport_width") (pos 1920)
    viewport_height ← value_int j (txt "viewport_height") (pos 1080)
    locale ← value_str j (txt "locale") (txt "zh-CN")
    timeout ← value_int j (txt "timeout") (pos 30000)
    some (record {
      headless = headless;
      slow_mo = slow_mo;
      viewport_width = viewport_width;
      viewport_height = viewport_height;
      locale = locale;
      timeout = timeout;
    })

  -- `j.contains(key) && j.at(key).is_object()`, and the same for arrays
  unfoldable pub member_if : (Json → Bool) → Text → Json → Option Json
  member_if test key j = elim (find key j) [
    | none ↦ none
    | some v ↦ if test v then some v else none
  ]

  -- a loop over items() that assigns each converted value to its key
  unfoldable pub assign_all {ℓ} :
      {V : Type ℓ}
      → (Json → Option V)
      → List (Text × Json)
      → List (Text × V)
      → Option (List (Text × V))
  assign_all get [] m = some m
  assign_all get ((k, j) ∷ js) m = do v ← get j; assign_all get js (insert k v m)

  -- a loop over an array that pushes each converted element back
  unfoldable pub push_all {ℓ} :
      {V : Type ℓ} → (Json → Option V) → List Json → List V → Option (List V)
  push_all get [] l = some l
  push_all get (j ∷ js) l = do v ← get j; push_all get js (l ++ (v ∷ []))

  abbrev pub items_into {ℓ} :
      {V : Type ℓ} → (Json → Option V) → Option Json → List (Text × V) → Option (List (Text × V))
  items_into get none m = some m
  items_into get (some j) m = assign_all get (items j) m

  abbrev pub elements_into {ℓ} :
      {V : Type ℓ} → (Json → Option V) → Option Json → List V → Option (List V)
  elements_into get none l = some l
  elements_into get (some j) l = push_all get (elements j) l

  unfoldable pub platform_from_json : Json → PlatformConfig → Option PlatformConfig
  unfolding member_if assign_all
  platform_from_json j c = do
    enabled ← value_bool j (txt "enabled") false
    session_file ← value_str j (txt "session_file") []
    base_url ← value_str j (txt "base_url") []
    account ← items_into get_str (member_if is_object (txt "account") j) c.account
    some (record {
      enabled = enabled;
      session_file = session_file;
      base_url = base_url;
      account = account;
    })

  unfoldable pub task_from_json : Json → TaskConfig → Option TaskConfig
  unfolding member_if push_all
  task_from_json j c = do
    name ← value_str j (txt "name") []
    intent ← value_str j (txt "intent") []
    schedule ← value_str j (txt "schedule") (txt "manual")
    platforms ← elements_into get_str (member_if is_array (txt "platforms") j) c.platforms
    some (record { name = name; platforms = platforms; intent = intent; schedule = schedule })

  abbrev pub section {ℓ} : {V : Type ℓ} → (Json → Option V) → Option Json → V → Option V
  section get none v = some v
  section get (some j) v = get j

  unfoldable pub config_from_json : Json → Config → Option Config
  unfolding member_if assign_all push_all server_from_json llm_from_json browser_from_json
      platform_from_json task_from_json
  config_from_json j c = do
    server ← section server_from_json (member_if is_object (txt "server") j) c.server
    llm ← section llm_from_json (member_if is_object (txt "llm") j) c.llm
    browser ← section browser_from_json (member_if is_object (txt "browser") j) c.browser
    platforms ←
        items_into (λ v. platform_from_json v default_platform)
          (member_if is_object (txt "platforms") j) c.platforms
    tasks ←
        elements_into (λ v. task_from_json v default_task) (member_if is_array (txt "tasks") j)
          c.tasks
    some (record {
      server = server;
      llm = llm;
      browser = browser;
      platforms = platforms;
      tasks = tasks;
    })
