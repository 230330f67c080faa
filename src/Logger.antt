-- ===== src/Logger.antt =====
-- wheel/logger/: LogConfig, SpdlogLogger and its factory (logger_models, logger.h, logger_factory
-- and imp/spdlog_logger) and the LOG macros (logger_macros.h).
pub mod Macro
pub mod Levels
pub mod Shared
pub mod Example
use lynne_social.Prelude.{
  ℕ, ◌+◌, ◌≡◌, Bool, true, false, ◌&&◌, Option, none, some, List, [], ◌∷◌, ◌++◌, Text, txt, leb,
  text_eq_instance, insert, erase, lookup, if◌then◌else◌, map,
}
use lynne_social.Prelude.Opt.{◌>>=◌}
use lynne_social.Json.{JsonLib}

pub record LogConfig : Type 0 where
  pub level : Text
  pub rotation : Text
  pub retention : Text
  pub log_file : Text

-- The initialisers of the struct.
abbrev pub default_log : LogConfig
default_log = record {
  level = txt "INFO";
  rotation = txt "10 MB";
  retention = txt "7 days";
  log_file = txt "data/lynne.log";
}

unfoldable pub log_from_json : (J : JsonLib) → J.Json → Option LogConfig
log_from_json J j = do
  level ← J.value_str j (txt "level") (txt "INFO")
  rotation ← J.value_str j (txt "rotation") (txt "10 MB")
  retention ← J.value_str j (txt "retention") (txt "7 days")
  log_file ← J.value_str j (txt "log_file") (txt "data/lynne.log")
  some (record { level = level; rotation = rotation; retention = retention; log_file = log_file })

pub data LogLevel : Type 0 where
  debug : LogLevel
  info : LogLevel
  warn : LogLevel
  error : LogLevel

-- The calls of spdlog (third_party/spdlog) that the logger makes. Each law is documented behaviour.
pub record Spdlog : Type 1 where
  pub Level : Type 0
  pub level_debug : Level
  pub level_info : Level
  pub level_warn : Level
  pub level_err : Level
  -- spdlog::level::from_str
  pub from_str : Text → Level
  -- whether a logger of the first level writes a message of the second
  pub should_log : Level → Level → Bool
  -- the loggers that are registered, each with its level and the file of its sink
  pub Registry : Type 0
  pub get : Text → Registry → Option (Level × Text)
  -- `none` is a thrown exception
  pub register_logger : Text → Level × Text → Registry → Option Registry
  pub drop : Text → Registry → Registry
  pub register_logger-taken :
      (n : Text) (l m : Level × Text) (r : Registry)
      → get n r ≡ some m
      → register_logger n l r ≡ none
  pub register_logger-free :
      (n : Text) (l : Level × Text) (r : Registry)
      → get n r ≡ none
      → (t : Registry) × (register_logger n l r ≡ some t) × (get n t ≡ some l)
  pub get-drop : (n : Text) (r : Registry) → get n (drop n r) ≡ none
  pub from_str-debug : from_str (txt "debug") ≡ level_debug
  pub from_str-info : from_str (txt "info") ≡ level_info
  pub from_str-warn : from_str (txt "warn") ≡ level_warn
  pub from_str-error : from_str (txt "error") ≡ level_err
  -- the levels in their order
  pub rank : Level → ℕ
  pub should_log_lem : (a b : Level) → should_log a b ≡ leb (rank a) (rank b)
  pub rank_debug : rank level_debug ≡ 1
  pub rank_info : rank level_info ≡ 2
  pub rank_warn : rank level_warn ≡ 3
  pub rank_err : rank level_err ≡ 4

-- std::tolower on each byte, in the locale "C"
unfoldable pub lower : Text → Text
lower s = map (λ c. if leb b'A' c && leb c b'Z' then c + 32 else c) s

pub record SpdlogLogger : Type 0 where
  pub config : LogConfig
  pub started : Bool

-- The constructor, and LoggerFactory::create.
unfoldable pub create : LogConfig → SpdlogLogger
create config = record { config = config; started = false }

unfoldable pub name : Text
name = txt "SpdlogLogger"

module _ (P : Spdlog) where
  open P use {Level, Registry, from_str, should_log, get, register_logger, drop}

  -- What loggers share: the registry of spdlog, and the messages in the log files, which the sinks
  -- put into words.
  pub record Logs : Type 0 where
    pub registry : Registry
    pub files : List (Text × List (Level × Text))

  -- A basic_file_sink_mt with `truncate` set opens an empty file.
  unfoldable pub open_sink : Text → Logs → Logs
  open_sink file w = record w { files = insert file [] w.files }

  abbrev pub lines : Option (List (Level × Text)) → List (Level × Text)
  lines none = []
  lines (some l) = l

  unfoldable pub in_file : Text → Logs → List (Level × Text)
  in_file file w = lines (lookup file w.files)

  -- logger->log
  unfoldable pub write : Level × Text → Level → Text → Logs → Logs
  unfolding in_file
  write (least, file) level message w =
      if should_log least level
      then record w { files = insert file (in_file file w ++ ((level, message) ∷ [])) w.files }
      else w

  unfoldable pub spd_level : LogLevel → Level
  spd_level debug = P.level_debug
  spd_level info = P.level_info
  spd_level warn = P.level_warn
  spd_level error = P.level_err

  -- The logger and what it shares, behind a call; `false` is an exception.
  abbrev pub Outcome : Type 0
  Outcome = Bool × SpdlogLogger × Logs

  abbrev pub registered : SpdlogLogger → Logs → Option Registry → Outcome
  registered s w none = (false, s, w)
  registered s w (some r) = (true, record s { started = true }, record w { registry = r })

  -- `can_open` says whether the file of a sink opens.
  unfoldable pub start : (Text → Bool) → SpdlogLogger → Logs → Outcome
  unfolding open_sink lower
  start can_open s w =
      if s.started
      then (true, s, w)
      else if can_open s.config.log_file
      then registered s (open_sink s.config.log_file w) (
          register_logger (txt "lynne") (from_str (lower s.config.level), s.config.log_file)
            w.registry)
      else (false, s, w)

  -- Also the destructor. Each message is flushed when it is written, so flush() has nothing left.
  unfoldable pub stop : SpdlogLogger → Logs → SpdlogLogger × Logs
  stop s w =
      if s.started
      then (record s { started = false }, record w { registry = drop (txt "lynne") w.registry })
      else (s, w)

  abbrev pub found : Option (Level × Text) → Bool
  found none = false
  found (some l) = true

  unfoldable pub health_check : SpdlogLogger → Logs → Bool
  health_check s w = s.started && found (get (txt "lynne") w.registry)

  abbrev pub through : Option (Level × Text) → Level → Text → Logs → Logs
  through none level message w = w
  through (some l) level message w = write l level message w

  unfoldable pub log : SpdlogLogger → LogLevel → Text → Logs → Logs
  unfolding write spd_level
  log s level message w =
      if s.started then through (get (txt "lynne") w.registry) (spd_level level) message w else w
