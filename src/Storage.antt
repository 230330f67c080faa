-- ===== src/Storage.antt =====
-- wheel/storage/: `JsonlStorage` (imp/jsonl_storage.h and .cpp), storage_models and the factory.
-- The disk is a field of the state. `today` is what today_str() reads off the clock. A method that
-- throws gives `none` beside the state that it leaves.
pub mod Fs
pub mod Lines
pub mod Items
pub mod Isolation
pub mod Files
pub mod Documents
pub mod Dates
pub mod Archive
use lynne_social.Prelude.{
  ℕ, ◌≡◌, Bool, true, false, not, ◌&&◌, Option, none, some, List, [], ◌∷◌, ◌++◌, Text, txt, empty,
  text_eq, select, ◌==◌, if◌then◌else◌,
}
use lynne_social.Prelude.Opt.{◌>>=◌}
use lynne_social.Prelude.Order.{sort_desc}
use lynne_social.Json.{JsonLib}
use lynne_social.Common.Item.{UnifiedItem, item_to_json, item_from_json, default_item}
use Fs.{Disk, join, create_directories, exists, content, overwrite, append, names_in}
use Lines.{lines}

pub record Storage : Type 0 where
  pub data_dir : Text
  pub started : Bool
  pub disk : Disk

-- struct StorageConfig, and from_json
pub record StorageConfig : Type 0 where
  pub config_dir : Text

unfoldable pub storage_config_from_json : (J : JsonLib) → J.Json → Option StorageConfig
storage_config_from_json J j = do
  dir ← J.value_str j (txt "data_dir") (txt "data")
  some (record { config_dir = dir })

-- JsonlStorage(data_dir)
unfoldable pub storage : Text → Disk → Storage
storage dir disk = record { data_dir = dir; started = false; disk = disk }

-- StorageFactory::create, with a config, with a path, and with neither
unfoldable pub create_with_config : StorageConfig → Disk → Storage
unfolding storage
create_with_config c disk = storage c.config_dir disk

unfoldable pub create : Option Text → Disk → Storage
unfolding storage
create none disk = storage (txt "data") disk
create (some path) disk = storage path disk

unfoldable pub name : Storage → Text
name s = txt "JsonlStorage"

unfoldable pub start : Storage → Storage
start s =
    if s.started
    then s
    else record s { disk = create_directories s.data_dir s.disk; started = true }

unfoldable pub stop : Storage → Storage
stop s = s

unfoldable pub health_check : Storage → Bool
health_check s = exists s.data_dir s.disk

-- `date.empty() ? today_str() : date`
unfoldable pub day : Text → Text → Text
day today date = if empty date then today else date

-- date_dir creates the directory and returns its path
unfoldable pub date_dir : Text → Storage → Text × Storage
date_dir date s =
    let dir = join s.data_dir date in (dir, record s { disk = create_directories dir s.disk })

-- the path of a day's file, as the load methods write it
unfoldable pub day_file : Text → Text → Storage → Text
day_file date file s = join (join s.data_dir date) file

module _ (J : JsonLib) where
  open J use {parse, dump}

  -- the loop of save_items: the text that reaches the file, and whether a dump threw
  unfoldable pub item_lines : List (UnifiedItem J) → Text × Bool
  item_lines [] = ([], true)
  item_lines (i ∷ is) =
      let (text, done) = item_lines is in
      elim (dump (item_to_json J i)) [ none ↦ ([], false) | some t ↦ (t ++ (10 ∷ text), done) ]

  -- from_json(nlohmann::json::parse(line), item) on a fresh item
  unfoldable pub read_item : Text → Option (UnifiedItem J)
  unfolding default_item
  read_item line = do j ← parse line; item_from_json J j (default_item J)

  -- the loop of load_items
  unfoldable pub read_items : Text → List Text → Option (List (UnifiedItem J))
  unfolding read_item
  read_items platform [] = some []
  read_items platform (l ∷ ls) =
      let rest = read_items platform ls in
      if empty l then rest else do
        item ← read_item l
        items ← rest
        some (
            if not (empty platform) && not (text_eq item.platform platform)
            then items
            else item ∷ items)

module _ (today : Text) where
  unfoldable pub save_report : Text → Text → Storage → Storage
  unfolding date_dir day
  save_report markdown date s =
      let (dir, s') = date_dir (day today date) s in
      record s' { disk = overwrite (join dir (txt "report.md")) markdown s'.disk }

  unfoldable pub load_report : Text → Storage → Text
  unfolding day day_file
  load_report date s =
      let path = day_file (day today date) (txt "report.md") s in
      if not (exists path s.disk) then [] else content path s.disk

module _ (J : JsonLib) (today : Text) where
  open J use {Json, parse, dump_pretty}

  unfoldable pub save_items : List (UnifiedItem J) → Text → Storage → Option (Unit {0}) × Storage
  unfolding date_dir day item_lines
  save_items items date s =
      let (dir, s') = date_dir (day today date) s in
      let (text, done) = item_lines J items in
      (
        if done then some tt else none,
        record s' { disk = append (join dir (txt "items.jsonl")) text s'.disk },
      )

  unfoldable pub load_items : Text → Text → Storage → Option (List (UnifiedItem J))
  unfolding day day_file read_items
  load_items date platform s =
      let path = day_file (day today date) (txt "items.jsonl") s in
      if not (exists path s.disk)
      then some []
      else read_items J platform (lines (content path s.disk))

  -- the stream is open, and the file empty, before dump(2) may throw
  unfoldable pub save_summary : Json → Text → Storage → Option (Unit {0}) × Storage
  unfolding date_dir day
  save_summary summary date s =
      let (dir, s') = date_dir (day today date) s in
      let path = join dir (txt "summary.json") in
      elim (dump_pretty summary) [
        | none ↦ (none, record s' { disk = overwrite path [] s'.disk })
        | some t ↦ (some tt, record s' { disk = overwrite path t s'.disk })
      ]

  unfoldable pub load_summary : Text → Storage → Option Json
  unfolding day day_file
  load_summary date s =
      let path = day_file (day today date) (txt "summary.json") s in
      if not (exists path s.disk) then some J.null else parse (content path s.disk)

-- the names kept by list_dates
unfoldable pub not_sessions : Text → Bool
not_sessions n = not (text_eq n (txt "sessions"))

unfoldable pub list_dates : Storage → List Text
unfolding not_sessions
list_dates s =
    if not (exists s.data_dir s.disk)
    then []
    else sort_desc (select not_sessions (names_in s.data_dir s.disk.dirs))
