-- ===== src/Tests/Storage.antt =====
-- Storage, at a disk of two days.
use lynne_social.Prelude.{map}
use lynne_social.Prelude.Order.{IsDescending}
use lynne_social.Storage.Archive.{day_of}
use lynne_social.Storage.Archive.Days.{IsEntry, list_dates-perform_all}
use lynne_social.Prelude.{
  ◌≡◌, refl, true, not, ◌&&◌, some, List, [], ◌∷◌, ◌++◌, Text, txt, text_eq, empty, lookup, select,
  pos,
}
use lynne_social.Json.Example.{example}
use lynne_social.Json.Value.{null, end, obj}
use lynne_social.Common.Item.{UnifiedItem}
use lynne_social.Storage.{
  Storage, save_items, load_items, load_report, save_summary, load_summary, day, list_dates,
}
use lynne_social.Storage.Fs.{Disk, content, has_slash, exists, join, mem_text}
use lynne_social.Storage.Isolation.{IsPlain}
use lynne_social.Storage.Items.{load_items-save_items, keeps_item}
use lynne_social.Storage.Documents.{load_summary-save_summary_throws}
use lynne_social.Storage.Archive
use lynne_social.Storage.Archive.{replay, perform, perform_all, empty_archive}
use lynne_social.Storage.Archive.Refinement.{fresh, load-perform_all}

abbrev today : Text
today = txt "d2"

abbrev earlier : Text
earlier = txt "d"

abbrev item : Text → UnifiedItem example
item platform = record {
  platform = platform;
  item_id = txt "7";
  item_type = txt "post";
  author_id = [];
  author_name = [];
  content_text = txt "a\nb";
  content_media = [];
  url = [];
  published_at = [];
  fetched_at = [];
  metrics = null;
  llm_relevance_score = pos 3;
  llm_relevance_reason = [];
  llm_summary = [];
  llm_tags = txt "x" ∷ [];
  llm_key_points = [];
}

abbrev two : List (UnifiedItem example)
two = item (txt "x") ∷ item (txt "y") ∷ []

abbrev disk : Disk
disk = record { dirs = txt "D" ∷ txt "D/d" ∷ []; files = [] }

abbrev storage : Storage
storage = record { data_dir = txt "D"; started = true; disk = disk }

IsPlain-today : IsPlain today
unfolding txt has_slash
IsPlain-today = record { given = λ e. cc; flat = refl }

IsPlain-earlier : IsPlain earlier
unfolding txt has_slash
IsPlain-earlier = record { given = λ e. cc; flat = refl }

IsEntry-today : IsEntry today
unfolding txt text_eq
IsEntry-today = record { plain = IsPlain-today; dots = refl }

IsEntry-earlier : IsEntry earlier
unfolding txt text_eq
IsEntry-earlier = record { plain = IsPlain-earlier; dots = refl }

load_items-save_items_example :
    load_items example today [] (txt "x") (save_items example today two [] storage).1
    ≡ some ([] ++ select (keeps_item example (txt "x")) two)
unfolding content lookup load_items exists text_eq txt join empty save_items
load_items-save_items_example =
    load_items-save_items example today two [] [] (txt "x") storage tt refl refl

load_summary-save_summary_throws_example :
    load_summary example today [] (save_summary example today end [] storage).1 ≡ example.parse []
unfolding save_summary
load_summary-save_summary_throws_example =
    load_summary-save_summary_throws example today end [] storage refl

abbrev saves : List (Archive.Save example)
saves =
    Archive.items two [] ∷ Archive.report (txt "# r") earlier ∷ Archive.summary (obj end) [] ∷ []

load-perform_all_example :
    let s = (perform_all example today saves (fresh (txt "D"))).1 in
    let a = replay example today saves (empty_archive example) in
    (load_items example today [] (txt "x") s
      ≡ some (select (keeps_item example (txt "x")) (a.items (day today []))))
    × (load_report today [] s ≡ a.report (day today []))
    × (load_summary example today [] s ≡ some (a.summary (day today [])))
unfolding day empty txt perform
load-perform_all_example =
    load-perform_all example today saves (txt "D") [] (txt "x")
      (IsPlain-today, (IsPlain-earlier, (IsPlain-today, tt))) IsPlain-today refl

list_dates-perform_all_example :
    let s = (perform_all example today saves (fresh (txt "D"))).1 in
    (mem_text earlier (list_dates s) ≡ (
      not (text_eq earlier (txt "sessions"))
      && mem_text earlier (map (day_of example today) saves)))
    × IsDescending (list_dates s)
unfolding day empty txt perform text_eq
list_dates-perform_all_example =
    list_dates-perform_all example today saves (txt "D") earlier
      (record { given = λ e. cc; dots = refl })
      (IsEntry-today, (IsEntry-earlier, (IsEntry-today, tt))) IsEntry-earlier refl
