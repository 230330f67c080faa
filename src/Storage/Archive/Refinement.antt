-- ===== src/Storage/Archive/Refinement.antt =====
-- The storage on files refines the archive (wheel/storage/imp/jsonl_storage.cpp).
use mathlib.Core.List.{append_assoc, append_cancel_left, append-nil}
use lynne_social.Prelude.{
  ◌≡◌, refl, ap, sym, ◌∙◌, true, false, Option, none, some, List, [], ◌∷◌, ◌++◌, Text, txt, select,
  lookup, text_eq_instance, All, arith, Bool-cases, inl, inr,
}
use lynne_social.Json.{JsonLib}
use lynne_social.Storage.Fs.{Disk, content, exists, create_directories, mem_text, ancestors, slash}
use lynne_social.Storage.Fs.Laws.{mem_text-add_dirs}
use lynne_social.Storage.Lines.{lines}
use lynne_social.Storage.Isolation.{IsPlain, summary-IsPlain, day_file_plain}
use lynne_social.Storage.Files.{held, ancestor_prefix}
use lynne_social.Storage.Items.{keeps_item, load_items-log}
use lynne_social.Storage.Documents.{load_report-content, load_summary-read}
use lynne_social.Storage.Archive.{
  Archive, Save, items, report, summary, file_away, perform, replay, perform_all, day_of,
  empty_archive, onward,
}
use lynne_social.Storage.Archive.Steps.{Shows, items_step, report_step, summary_step}
use lynne_social.Storage.{
  Storage, day, day_file, load_items, load_report, load_summary, read_items, start, storage,
}

-- A machine without files.
abbrev pub blank : Disk
blank = record { dirs = []; files = [] }

-- A file of a day is below the data directory, so it is none of the directories that start makes.
file_no_data_dir :
    (e g : Text) (s : Storage)
    → IsPlain e
    → IsPlain g
    → mem_text (day_file e g s) (ancestors [] s.data_dir) ≡ false
file_no_data_dir e g s ve vg =
    elim (Bool-cases (mem_text (day_file e g s) (ancestors [] s.data_dir))) [
      | inl h ↦
          let (r, part) = ancestor_prefix (day_file e g s) [] s.data_dir h in
          let rest = e ++ (slash ∷ g) in
          let whole : s.data_dir ++ [] ≡ s.data_dir ++ (slash ∷ (rest ++ r)) =
            append-nil s.data_dir
            ∙ (part
                ∙ (ap (λ q. q ++ r)
                      (day_file_plain e g s ve vg ∙ append_assoc s.data_dir (slash ∷ []) rest)
                    ∙ append_assoc s.data_dir (slash ∷ rest) r)) in
          ground (arith, append_cancel_left s.data_dir [] (slash ∷ (rest ++ r)) whole)
      | inr h ↦ h
    ]

abbrev pub fresh : Text → Storage
fresh dir = start (storage dir blank)

held-fresh : (e g dir : Text) → held e g (fresh dir) ≡ []
unfolding start storage content create_directories lookup
held-fresh e g dir = refl

exists-fresh :
    (e g dir : Text)
    → IsPlain e
    → IsPlain g
    → exists (day_file e g (fresh dir)) (fresh dir).disk ≡ false
unfolding start storage exists create_directories day_file lookup
exists-fresh e g dir ve vg = ground (
  arith,
  file_no_data_dir e g (record { data_dir = dir; started = true; disk = blank }) ve vg,
  mem_text-add_dirs (day_file e g (storage dir blank)) (ancestors [] dir) [],
)

module _ (J : JsonLib) (today : Text) where
  fresh-Shows : (dir : Text) → Shows J today (empty_archive J) (fresh dir)
  unfolding read_items lines select
  fresh-Shows dir = record {
    whole = λ e ve. rw (held-fresh e (txt "items.jsonl") dir) tt;
    items_read = λ e platform ve. rw (held-fresh e (txt "items.jsonl") dir) refl;
    report_held = λ e ve. held-fresh e (txt "report.md") dir;
    summary_read = λ e ve. rw (exists-fresh e (txt "summary.json") dir ve summary-IsPlain) refl;
  }

  perform-Shows :
      (c : Save J) (a : Archive J) (s : Storage)
      → IsPlain (day_of J today c)
      → (perform J today c s).0 ≡ some tt
      → Shows J today a s
      → Shows J today (file_away J today c a) (perform J today c s).1
  unfolding perform
  perform-Shows (items is date) a s v h w = items_step J today is date a s v h w
  perform-Shows (report text date) a s v h w = report_step J today text date a s v w
  perform-Shows (summary j date) a s v h w = summary_step J today j date a s v h w

  pub onward_done :
      (r : Option (Unit {0}) × Storage) (k : Storage → Option (Unit {0}) × Storage)
      → (onward J today r k).0 ≡ some tt
      → (r.0 ≡ some tt) × (onward J today r k ≡ k r.1)
  onward_done (none, s) k h = cc
  onward_done (some tt, s) k h = (refl, refl)

  perform_all-Shows :
      (cs : List (Save J)) (a : Archive J) (s : Storage)
      → All (λ c. IsPlain (day_of J today c)) cs
      → (perform_all J today cs s).0 ≡ some tt
      → Shows J today a s
      → Shows J today (replay J today cs a) (perform_all J today cs s).1
  perform_all-Shows [] a s v h w = w
  perform_all-Shows (c ∷ cs) a s v h w =
      let (first, later) = onward_done (perform J today c s) (λ t. perform_all J today cs t) h in
      rw later (
        perform_all-Shows cs (file_away J today c a) (perform J today c s).1 v.1
          (ap (λ r. r.0) (sym later) ∙ h) (perform-Shows c a s v.0 first w))

  -- On a machine without files, after start and any saves of which none throws, every load gives
  -- what an archive of items, reports and summaries by day gives after the same saves: all items
  -- of that day in the order of the saves, filtered by platform, the last report, and the last
  -- summary, or null. The days are not empty and hold no slash.
  pub load-perform_all :
      (cs : List (Save J)) (dir date platform : Text)
      → All (λ c. IsPlain (day_of J today c)) cs
      → IsPlain (day today date)
      → (perform_all J today cs (fresh dir)).0 ≡ some tt
      → let s = (perform_all J today cs (fresh dir)).1 in
        let a = replay J today cs (empty_archive J) in
        (load_items J today date platform s
          ≡ some (select (keeps_item J platform) (a.items (day today date))))
        × (load_report today date s ≡ a.report (day today date))
        × (load_summary J today date s ≡ some (a.summary (day today date)))
  load-perform_all cs dir date platform v ve h =
      let s = (perform_all J today cs (fresh dir)).1 in
      let w = perform_all-Shows cs (empty_archive J) (fresh dir) v h (fresh-Shows dir) in
      (
        load_items-log J today date platform s ∙ w.items_read (day today date) platform ve,
        load_report-content today date s ∙ w.report_held (day today date) ve,
        load_summary-read J today date s ∙ w.summary_read (day today date) ve,
      )
