-- ===== src/Storage/Archive.antt =====
-- What storage promises, without files: an archive holds for each day the items, a report and a
-- summary. The saves of wheel/storage/imp/jsonl_storage.cpp are its steps.
pub mod Steps
pub mod Refinement
pub mod Days
use lynne_social.Prelude.{Option, none, some, List, [], ◌∷◌, ◌++◌, Text, text_eq, if◌then◌else◌}
use lynne_social.Json.{JsonLib}
use lynne_social.Common.Item.{UnifiedItem}
use lynne_social.Storage.{Storage, day, save_items, save_report, save_summary}

-- `f` with the value `v` at the day `d`.
abbrev pub at_day {ℓ} : {A : Type ℓ} → Text → A → (Text → A) → Text → A
at_day d v f e = if text_eq d e then v else f e

module _ (J : JsonLib) where
  pub record Archive : Type 0 where
    pub items : Text → List (UnifiedItem J)
    pub report : Text → Text
    pub summary : Text → J.Json

  abbrev pub empty_archive : Archive
  empty_archive = record { items = λ d. []; report = λ d. []; summary = λ d. J.null }

  -- A save of a client, with its date.
  pub data Save : Type 0 where
    items : List (UnifiedItem J) → Text → Save
    report : Text → Text → Save
    summary : J.Json → Text → Save

  module _ (today : Text) where
    abbrev pub day_of : Save → Text
    day_of (items is date) = day today date
    day_of (report text date) = day today date
    day_of (summary v date) = day today date

    unfoldable pub file_away : Save → Archive → Archive
    file_away (items is date) a = record a {
      items = at_day (day today date) (a.items (day today date) ++ is) a.items;
    }
    file_away (report text date) a = record a { report = at_day (day today date) text a.report }
    file_away (summary v date) a = record a { summary = at_day (day today date) v a.summary }

    abbrev pub replay : List Save → Archive → Archive
    replay [] a = a
    replay (c ∷ cs) a = replay cs (file_away c a)

    unfoldable pub perform : Save → Storage → Option (Unit {0}) × Storage
    unfolding save_items save_report save_summary
    perform (items is date) s = save_items J today is date s
    perform (report text date) s = (some tt, save_report today text date s)
    perform (summary v date) s = save_summary J today v date s

    abbrev pub onward :
        Option (Unit {0}) × Storage
        → (Storage → Option (Unit {0}) × Storage)
        → Option (Unit {0}) × Storage
    onward (none, s) k = (none, s)
    onward (some u, s) k = k s

    -- The saves one after another, until one throws.
    abbrev pub perform_all : List Save → Storage → Option (Unit {0}) × Storage
    perform_all [] s = (some tt, s)
    perform_all (c ∷ cs) s = onward (perform c s) (λ t. perform_all cs t)
