-- ===== src/Config/Defaults.antt =====
-- What JsonConfigLoader loads where the file says nothing (wheel/config/imp/json_config_loader.cpp).
use lynne_social.Prelude.{
  ◌≡◌, Bool, true, false, none, some, [], Text, arith, lookup, text_eq_instance, empty, ◌⊎◌,
}
use lynne_social.Json.{JsonLib}
use lynne_social.Storage.Fs.{Disk, content}
use lynne_social.Config.{default_config, config_from_json, member_if}
use lynne_social.Config.Loader.{Loader, read_file, parse_and_resolve, load}

module _ (J : JsonLib) where
  open J use {Json, parse, dump, object, null, is_null, find}

  member_if-object : (test : Json → Bool) (k : Text) → member_if J test k (object []) ≡ none
  unfolding member_if lookup
  member_if-object test k = ground (arith, J.find-object k [])

  -- An object without members.
  config_from_json-object :
      config_from_json J (object []) (default_config J) ≡ some (default_config J)
  unfolding config_from_json
  config_from_json-object = simp (member_if-object)

  -- Nothing that load reads says anything.
  abbrev pub SaysNothing : (Text → Disk → Bool) → Disk → Loader J → Type 0
  SaysNothing can_open disk s =
      (can_open s.path disk ≡ false)
      ⊎ (content s.path disk ≡ [])
      ⊎ (parse (content s.path disk) ≡ some null)
      ⊎ (parse (content s.path disk) ≡ some (object []))

  -- load gives the default configuration, and keeps it, when the file cannot be opened or is
  -- empty, or holds null or an object without members.
  pub load_defaults :
      (can_open : Text → Disk → Bool) (disk : Disk) (s : Loader J)
      → SaysNothing can_open disk s
      → load J can_open disk s
        ≡ (some (default_config J), record s { loaded = true; config = default_config J })
  unfolding load read_file parse_and_resolve empty
  load_defaults can_open disk s h =
      ground (arith, config_from_json-object, J.is_null-null, J.is_null-object [])
