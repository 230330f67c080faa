-- ===== src/Storage/Documents.antt =====
-- Reports and summaries: what a load reads after any save.
use lynne_social.Prelude.{
  ◌≡◌, ◌≢◌, sym, ◌∙◌, Bool, true, false, Option, none, some, List, [], Text, txt, text_eq,
  if◌then◌else◌, arith, inl, inr, Option-cases,
}
use lynne_social.Json.{JsonLib}
use lynne_social.Common.Item.{UnifiedItem}
use lynne_social.Storage.Fs.{content, exists, overwrite, create_directories, join}
use lynne_social.Storage.Fs.Laws.{disk_laws, content_missing, exists-overwrite}
use lynne_social.Storage.Items.{log, load_items-log}
use lynne_social.Storage.Isolation.{
  IsPlain, day_file_differs, day_file_eq, items-IsPlain, report-IsPlain, items-ne-report,
}
use lynne_social.Storage.{
  Storage, day, day_file, save_items, load_items, save_report, load_report, save_summary,
  load_summary,
}

module _ (today : Text) where
  abbrev pub report_file : Text → Storage → Text
  report_file date s = day_file (day today date) (txt "report.md") s

  abbrev pub summary_file : Text → Storage → Text
  summary_file date s = day_file (day today date) (txt "summary.json") s

  pub load_report-content :
      (date : Text) (s : Storage) → load_report today date s ≡ content (report_file date s) s.disk
  unfolding load_report
  load_report-content date s = ground (arith, content_missing (report_file date s) s.disk)

  saved_report :
      (markdown date other : Text) (s : Storage)
      → load_report today other (save_report today markdown date s) ≡ (
          if text_eq (report_file date s) (report_file other s)
          then markdown
          else load_report today other s)
  saved_report markdown date other s =
      rw
        (load_report-content other (save_report today markdown date s), load_report-content other s)
        (unfold save_report day_file in simp disk_laws)

  -- After save_report, load_report gives the saved text for the same day, and for any other day
  -- what it gave before; both days are not empty and hold no slash.
  pub load_report-save_report :
      (markdown date other : Text) (s : Storage)
      → IsPlain (day today date)
      → IsPlain (day today other)
      → load_report today other (save_report today markdown date s) ≡ (
          if text_eq (day today date) (day today other)
          then markdown
          else load_report today other s)
  load_report-save_report markdown date other s v w =
      rw (← day_file_eq (day today date) (day today other) _ s v w report-IsPlain)
        (saved_report markdown date other s)

-- Before any summary is saved a load gives null, and afterwards what was saved.
abbrev pub read_summary : (J : JsonLib) → Bool → Text → Option J.Json
read_summary J false text = some J.null
read_summary J true text = J.parse text

module _ (J : JsonLib) (today : Text) where
  pub load_summary-read :
      (date : Text) (s : Storage)
      → load_summary J today date s
        ≡ read_summary J
            (exists (summary_file today date s) s.disk)
            (content (summary_file today date s) s.disk)
  unfolding load_summary
  load_summary-read date s = ground arith

  abbrev summary_saved : Text → Text → Storage → Storage
  summary_saved date text s = record s {
    disk =
        overwrite (summary_file today date s) text
          (create_directories (join s.data_dir (day today date)) s.disk);
  }

  save_summary-some :
      (summary : J.Json) (date t : Text) (s : Storage)
      → J.dump_pretty summary ≡ some t
      → save_summary J today summary date s ≡ (some tt, summary_saved date t s)
  unfolding save_summary day_file
  save_summary-some summary date t s h = rw (h, save_summary)

  save_summary-none :
      (summary : J.Json) (date : Text) (s : Storage)
      → J.dump_pretty summary ≡ none
      → save_summary J today summary date s ≡ (none, summary_saved date [] s)
  unfolding save_summary day_file
  save_summary-none summary date s h = rw (h, save_summary)

  load_summary_saved :
      (date t : Text) (s : Storage) → load_summary J today date (summary_saved date t s) ≡ J.parse t
  load_summary_saved date t s =
      load_summary-read date (summary_saved date t s)
      ∙ (unfold day_file in
          simp (
            exists-overwrite (summary_file today date s) t
                (create_directories (join s.data_dir (day today date)) s.disk),
            disk_laws,
          ))

  -- After a save_summary that does not throw, load_summary of the same day gives the saved value.
  pub load_summary-save_summary :
      (summary : J.Json) (date : Text) (s : Storage)
      → (save_summary J today summary date s).0 ≡ some tt
      → load_summary J today date (save_summary J today summary date s).1 ≡ some summary
  load_summary-save_summary summary date s h = elim (Option-cases (J.dump_pretty summary)) [
    | inl e ↦ ground (arith, save_summary-none summary date s e)
    | inr (t, e) ↦
        rw (save_summary-some summary date t s e)
          (load_summary_saved date t s ∙ J.parse-dump_pretty summary t e)
  ]

  -- When save_summary throws, load_summary of that day gives what the parser makes of the empty
  -- text, whatever was saved before.
  pub load_summary-save_summary_throws :
      (summary : J.Json) (date : Text) (s : Storage)
      → (save_summary J today summary date s).0 ≡ none
      → load_summary J today date (save_summary J today summary date s).1 ≡ J.parse []
  load_summary-save_summary_throws summary date s h = elim (Option-cases (J.dump_pretty summary)) [
    | inl e ↦ rw (save_summary-none summary date s e) (load_summary_saved date [] s)
    | inr (t, e) ↦ ground (arith, save_summary-some summary date t s e)
  ]

  -- Items: a write to another path leaves what load_items reads.
  abbrev SameLog : Text → Storage → Storage → Type 0
  SameLog date s s' = log today date s' ≡ log today date s

  load_items-SameLog :
      (date platform : Text) (s s' : Storage)
      → SameLog date s s'
      → load_items J today date platform s' ≡ load_items J today date platform s
  load_items-SameLog date platform s s' e =
      rw (load_items-log J today date platform s', load_items-log J today date platform s, e)

  -- save_report leaves what load_items gives, for the same day and for others, when the days are
  -- not empty and hold no slash.
  pub load_items-save_report :
      (markdown date other platform : Text) (s : Storage)
      → IsPlain (day today date)
      → IsPlain (day today other)
      → load_items J today other platform (save_report today markdown date s)
        ≡ load_items J today other platform s
  load_items-save_report markdown date other platform s v w =
      load_items-SameLog other platform s _ (
        apart (
          day_file_differs (day today date) (day today other) _ _ s v w report-IsPlain items-IsPlain
            (inr λ e. items-ne-report (sym e))))
    where
      apart :
          text_eq (report_file today date s) (day_file (day today other) (txt "items.jsonl") s)
            ≡ false
          → SameLog other s (save_report today markdown date s)
      apart e = unfold save_report day_file in simp (disk_laws, e)

  -- save_items of one day leaves what load_items gives for another day, for days that differ, are
  -- not empty and hold no slash.
  pub load_items-save_items_other :
      (items : List (UnifiedItem J)) (date other platform : Text) (s : Storage)
      → IsPlain (day today date)
      → IsPlain (day today other)
      → day today date ≢ day today other
      → load_items J today other platform (save_items J today items date s).1
        ≡ load_items J today other platform s
  load_items-save_items_other items date other platform s v w differ =
      load_items-SameLog other platform s _ (
        apart (
          day_file_differs (day today date) (day today other) _ _ s v w items-IsPlain items-IsPlain
            (inl differ)))
    where
      apart :
          text_eq
              (day_file (day today date) (txt "items.jsonl") s)
              (day_file (day today other) (txt "items.jsonl") s)
            ≡ false
          → SameLog other s (save_items J today items date s).1
      apart e = unfold save_items day_file in simp (disk_laws, e)
