-- ===== src/Storage/Archive/Steps.antt =====
-- What the files show of an archive, and each save (wheel/storage/imp/jsonl_storage.cpp).
use lynne_social.Prelude.{
  ◌≡◌, refl, ◌∙◌, false, some, List, ◌++◌, Text, txt, text_eq, text_eq_refl, select, select-append,
  arith, Bool-cases, Option-cases, inl, inr,
}
use lynne_social.Json.{JsonLib}
use lynne_social.Common.Item.{UnifiedItem}
use lynne_social.Storage.Fs.{content, exists, append, overwrite, create_directories}
use lynne_social.Storage.Lines.{lines, IsComplete, append-IsComplete}
use lynne_social.Storage.Isolation.{IsPlain, items-IsPlain, report-IsPlain, summary-IsPlain}
use lynne_social.Storage.Files.{
  put_file, held, exists-put_file, held-put_file_self, held-put_file_other, exists-put_file_other,
}
use lynne_social.Storage.Items.{
  keeps_item, item_lines-IsComplete, read_items-lines-append, save_items-done,
}
use lynne_social.Storage.Documents.{read_summary}
use lynne_social.Storage.Archive.{Archive, items, report, summary, file_away}
use lynne_social.Storage.{
  Storage, day, day_file, save_items, save_report, save_summary, item_lines, read_items,
}

-- The three files have different names.
items_report : text_eq (txt "items.jsonl") (txt "report.md") ≡ false
unfolding txt text_eq
items_report = refl

items_summary : text_eq (txt "items.jsonl") (txt "summary.json") ≡ false
unfolding txt text_eq
items_summary = refl

report_items : text_eq (txt "report.md") (txt "items.jsonl") ≡ false
unfolding txt text_eq
report_items = refl

report_summary : text_eq (txt "report.md") (txt "summary.json") ≡ false
unfolding txt text_eq
report_summary = refl

summary_items : text_eq (txt "summary.json") (txt "items.jsonl") ≡ false
unfolding txt text_eq
summary_items = refl

summary_report : text_eq (txt "summary.json") (txt "report.md") ≡ false
unfolding txt text_eq
summary_report = refl

module _ (J : JsonLib) (today : Text) where
  -- The files hold what the archive says, for every day with a plain name.
  pub record Shows (a : Archive J) (s : Storage) : Type 0 where
    pub whole : (e : Text) → IsPlain e → IsComplete (held e (txt "items.jsonl") s)
    pub items_read :
        (e platform : Text)
        → IsPlain e
        → read_items J platform (lines (held e (txt "items.jsonl") s))
          ≡ some (select (keeps_item J platform) (a.items e))
    pub report_held : (e : Text) → IsPlain e → held e (txt "report.md") s ≡ a.report e
    pub summary_read :
        (e : Text)
        → IsPlain e
        → read_summary J
            (exists (day_file e (txt "summary.json") s) s.disk)
            (held e (txt "summary.json") s)
          ≡ some (a.summary e)

  save_items-put_file :
      (is : List (UnifiedItem J)) (date : Text) (s : Storage)
      → (save_items J today is date s).1
        ≡ put_file
            (day today date)
            (txt "items.jsonl")
            (held (day today date) (txt "items.jsonl") s ++ (item_lines J is).0)
            s
  unfolding save_items day_file append create_directories content overwrite
  save_items-put_file is date s = refl

  save_report-put_file :
      (text date : Text) (s : Storage)
      → save_report today text date s ≡ put_file (day today date) (txt "report.md") text s
  unfolding save_report day_file
  save_report-put_file text date s = refl

  save_summary-put_file :
      (v : J.Json) (date : Text) (s : Storage)
      → (save_summary J today v date s).0 ≡ some tt
      → (t : Text) × (J.dump_pretty v ≡ some t)
        × ((save_summary J today v date s).1 ≡ put_file (day today date) (txt "summary.json") t s)
  unfolding day_file save_summary
  save_summary-put_file v date s h = elim (Option-cases (J.dump_pretty v)) [
    | inl e ↦ ground (arith, (rw (e, save_summary) at h))
    | inr (t, e) ↦ (t, e, rw (e, save_summary))
  ]

  -- A save of another file keeps what the archive says of this one.
  module _ (a : Archive J) (d f text : Text) (s : Storage) (vd : IsPlain d) (vf : IsPlain f)
      (w : Shows a s) where
    abbrev Apart : Text → Type 0
    Apart g = text_eq f g ≡ false

    whole_kept :
        Apart (txt "items.jsonl")
        → (e : Text) → IsPlain e
        → IsComplete (held e (txt "items.jsonl") (put_file d f text s))
    whole_kept h e ve =
        rw (held-put_file_other d e f text s vd ve vf _ items-IsPlain h) (w.whole e ve)

    items_kept :
        Apart (txt "items.jsonl")
        → (e platform : Text) → IsPlain e
        → read_items J platform (lines (held e (txt "items.jsonl") (put_file d f text s)))
          ≡ some (select (keeps_item J platform) (a.items e))
    items_kept h e platform ve =
        rw (held-put_file_other d e f text s vd ve vf _ items-IsPlain h)
          (w.items_read e platform ve)

    report_kept :
        Apart (txt "report.md")
        → (e : Text) → IsPlain e
        → held e (txt "report.md") (put_file d f text s) ≡ a.report e
    report_kept h e ve =
        held-put_file_other d e f text s vd ve vf _ report-IsPlain h ∙ w.report_held e ve

    summary_kept :
        Apart (txt "summary.json")
        → (e : Text) → IsPlain e
        → read_summary J
            (exists
              (day_file e (txt "summary.json") (put_file d f text s))
              (put_file d f text s).disk)
            (held e (txt "summary.json") (put_file d f text s))
          ≡ some (a.summary e)
    summary_kept h e ve =
        rw
          (
            exists-put_file_other d e f text s vd ve vf _ summary-IsPlain h,
            held-put_file_other d e f text s vd ve vf _ summary-IsPlain h,
          )
          (w.summary_read e ve)

  pub items_step :
      (is : List (UnifiedItem J)) (date : Text) (a : Archive J) (s : Storage)
      → IsPlain (day today date)
      → (save_items J today is date s).0 ≡ some tt
      → Shows a s
      → Shows (file_away J today (items is date) a) (save_items J today is date s).1
  unfolding file_away
  items_step is date a s v h w =
      let d = day today date in
      let text = held d (txt "items.jsonl") s ++ (item_lines J is).0 in
      let self = λ (e : Text) (ve : IsPlain e).
        held-put_file_self d e (txt "items.jsonl") text s v ve items-IsPlain in
      rw (save_items-put_file is date s) (record {
        whole = λ e ve. elim (Bool-cases (text_eq d e)) [
          | inl y ↦
              rw (self e ve, y)
                (append-IsComplete (held d (txt "items.jsonl") s) (item_lines J is).0 (w.whole d v)
                  (item_lines-IsComplete J is))
          | inr n ↦ rw (self e ve, n) (w.whole e ve)
        ];
        items_read = λ e platform ve. elim (Bool-cases (text_eq d e)) [
          | inl y ↦
              rw (self e ve, y, select-append (keeps_item J platform) (a.items d) is)
                (read_items-lines-append J platform (held d (txt "items.jsonl") s) is
                  (select (keeps_item J platform) (a.items d)) (w.whole d v)
                  (w.items_read d platform v) (save_items-done J today is date s h))
          | inr n ↦ rw (self e ve, n) (w.items_read e platform ve)
        ];
        report_held = report_kept a d (txt "items.jsonl") text s v items-IsPlain w items_report;
        summary_read = summary_kept a d (txt "items.jsonl") text s v items-IsPlain w items_summary;
      })

  pub report_step :
      (text date : Text) (a : Archive J) (s : Storage)
      → IsPlain (day today date)
      → Shows a s
      → Shows (file_away J today (report text date) a) (save_report today text date s)
  unfolding file_away
  report_step text date a s v w =
      let d = day today date in
      rw (save_report-put_file text date s) (record {
        whole = whole_kept a d (txt "report.md") text s v report-IsPlain w report_items;
        items_read = items_kept a d (txt "report.md") text s v report-IsPlain w report_items;
        report_held = λ e ve.
            held-put_file_self d e (txt "report.md") text s v ve report-IsPlain
            ∙ rw (w.report_held e ve);
        summary_read = summary_kept a d (txt "report.md") text s v report-IsPlain w report_summary;
      })

  pub summary_step :
      (j : J.Json) (date : Text) (a : Archive J) (s : Storage)
      → IsPlain (day today date)
      → (save_summary J today j date s).0 ≡ some tt
      → Shows a s
      → Shows (file_away J today (summary j date) a) (save_summary J today j date s).1
  unfolding file_away
  summary_step j date a s v h w =
      let d = day today date in
      let (text, dumped, put) = save_summary-put_file j date s h in
      rw put (record {
        whole = whole_kept a d (txt "summary.json") text s v summary-IsPlain w summary_items;
        items_read = items_kept a d (txt "summary.json") text s v summary-IsPlain w summary_items;
        report_held =
            report_kept a d (txt "summary.json") text s v summary-IsPlain w summary_report;
        summary_read = λ e ve.
            rw
              (
                held-put_file_self d e (txt "summary.json") text s v ve summary-IsPlain,
                exists-put_file d e (txt "summary.json") (txt "summary.json") text s v ve
                    summary-IsPlain summary-IsPlain,
                text_eq_refl (txt "summary.json"),
              )
              (elim (Bool-cases (text_eq d e)) [
                | inl y ↦ rw y (J.parse-dump_pretty j text dumped)
                | inr n ↦ rw n (w.summary_read e ve)
              ]);
      })
