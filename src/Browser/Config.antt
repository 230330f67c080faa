-- ===== src/Browser/Config.antt =====
-- wheel/browser/browser_models.h and .cpp.
use lynne_social.Prelude.{
  Bool, true, Option, some, [], ◌∷◌, Text, txt, text_eq, text_eq_instance, lookup, ℤ, pos, ◌≡◌,
}
use lynne_social.Prelude.Opt.{◌>>=◌}
use lynne_social.Json.{JsonLib}

-- struct BrowserConfig
pub record BrowserConfig : Type 0 where
  pub headless : Bool
  pub slow_mo_ms : ℤ
  pub viewport_width : ℤ
  pub viewport_height : ℤ
  pub locale : Text
  pub timeout_ms : ℤ
  pub sessions_dir : Text
  pub cdp_port : ℤ
  pub chrome_path : Text

-- BrowserConfig{}: the member initialisers
unfoldable pub default_config : BrowserConfig
default_config = record {
  headless = true;
  slow_mo_ms = pos 500;
  viewport_width = pos 1920;
  viewport_height = pos 1080;
  locale = txt "zh-CN";
  timeout_ms = pos 30000;
  sessions_dir = txt "data/sessions";
  cdp_port = pos 0;
  chrome_path = [];
}

module _ (J : JsonLib) where
  open J use {Json, object, str, int, bool, value_str, value_int, value_bool}

  -- void to_json(nlohmann::json& j, const BrowserConfig& cfg)
  unfoldable pub config_to_json : BrowserConfig → Json
  config_to_json c = object (
      (txt "headless", bool c.headless)
      ∷ (txt "slow_mo_ms", int c.slow_mo_ms)
      ∷ (txt "viewport_width", int c.viewport_width)
      ∷ (txt "viewport_height", int c.viewport_height)
      ∷ (txt "locale", str c.locale)
      ∷ (txt "timeout_ms", int c.timeout_ms)
      ∷ (txt "sessions_dir", str c.sessions_dir)
      ∷ (txt "cdp_port", int c.cdp_port)
      ∷ (txt "chrome_path", str c.chrome_path)
      ∷ [])

  -- void from_json(const nlohmann::json& j, BrowserConfig& cfg)
  unfoldable pub config_from_json : Json → Option BrowserConfig
  config_from_json j = do
    headless ← value_bool j (txt "headless") true
    slow_mo_ms ← value_int j (txt "slow_mo_ms") (pos 500)
    viewport_width ← value_int j (txt "viewport_width") (pos 1920)
    viewport_height ← value_int j (txt "viewport_height") (pos 1080)
    locale ← value_str j (txt "locale") (txt "zh-CN")
    timeout_ms ← value_int j (txt "timeout_ms") (pos 30000)
    sessions_dir ← value_str j (txt "sessions_dir") (txt "data/sessions")
    cdp_port ← value_int j (txt "cdp_port") (pos 0)
    chrome_path ← value_str j (txt "chrome_path") []
    some (record {
      headless = headless;
      slow_mo_ms = slow_mo_ms;
      viewport_width = viewport_width;
      viewport_height = viewport_height;
      locale = locale;
      timeout_ms = timeout_ms;
      sessions_dir = sessions_dir;
      cdp_port = cdp_port;
      chrome_path = chrome_path;
    })

  -- Reading back the JSON that was written for a browser configuration gives the configuration.
  pub config_from_json-to_json : (c : BrowserConfig) → config_from_json (config_to_json c) ≡ some c
  unfolding config_from_json config_to_json lookup text_eq txt
  config_from_json-to_json c = simp (
    J.value_str_lem, J.value_int_lem, J.value_bool_lem, J.is_object-object, J.find-object,
    J.get_str-str, J.get_int-int, J.get_bool-bool,
  )

  pub config_from_json_default : config_from_json (object []) ≡ some default_config
  unfolding config_from_json default_config lookup
  config_from_json_default =
      simp (J.value_str_lem, J.value_int_lem, J.value_bool_lem, J.is_object-object, J.find-object)
