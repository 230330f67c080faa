-- ===== src/Config/Loader.antt =====
-- JsonConfigLoader (wheel/config/imp/json_config_loader.h and .cpp) and its factory. `can_open` says
-- whether a stream opens; a file that is missing reads as empty.
use lynne_social.Prelude.{
  Bool, true, false, Option, none, some, [], Text, txt, empty, if◌then◌else◌,
}
use lynne_social.Json.{JsonLib}
use lynne_social.Storage.Fs.{Disk, content}
use lynne_social.Config.{Config, default_config, config_from_json}

module _ (J : JsonLib) where
  open J use {parse, is_null}

  pub record Loader : Type 0 where
    pub path : Text
    pub config : Config J
    pub loaded : Bool

  -- JsonConfigLoader(path)
  unfoldable pub loader : Text → Loader
  loader path = record { path = path; config = default_config J; loaded = false }

  -- ConfigLoaderFactory::create; `none` is a null pointer
  unfoldable pub create : Option Text → Loader
  unfolding loader empty
  create none = loader (txt "config.json")
  create (some path) = if empty path then loader (txt "config.json") else loader path

  unfoldable pub read_file : (Text → Disk → Bool) → Disk → Loader → Text
  read_file can_open disk s = if can_open s.path disk then content s.path disk else []

  -- `none` is an exception
  unfoldable pub parse_and_resolve : Text → Option (Config J)
  unfolding config_from_json empty
  parse_and_resolve raw = if empty raw then some (default_config J) else elim (parse raw) [
    | none ↦ none
    | some j ↦
        if is_null j then some (default_config J) else config_from_json J j (default_config J)
  ]

  abbrev pub keep : Option (Config J) → Loader → Option (Config J) × Loader
  keep none s = (none, record s { loaded = true })
  keep (some c) s = (some c, record s { loaded = true; config = c })

  unfoldable pub load : (Text → Disk → Bool) → Disk → Loader → Option (Config J) × Loader
  unfolding read_file parse_and_resolve
  load can_open disk s = keep (parse_and_resolve (read_file can_open disk s)) s

  unfoldable pub reload : (Text → Disk → Bool) → Disk → Loader → Option (Config J) × Loader
  unfolding load
  reload can_open disk s = load can_open disk s
