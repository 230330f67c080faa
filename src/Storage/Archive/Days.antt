-- ===== src/Storage/Archive/Days.antt =====
-- The days that list_dates names after saves (wheel/storage/imp/jsonl_storage.cpp).
use mathlib.Core.List.{append_assoc, append-nil}
use lynne_social.Prelude.{
  ◌≢◌, ◌==◌, All-map, ◌≡◌, refl, ap, sym, ◌∙◌, Bool, true, false, not, ◌&&◌, ◌||◌, some, List, [],
  ◌∷◌, ◌++◌, Text, txt, text_eq, All, arith, map, Option-cases, inl, inr, ℕ,
}
use lynne_social.Prelude.Order.{IsDescending}
use lynne_social.Json.{JsonLib}
use lynne_social.Storage.Fs.{
  exists, create_directories, mem_text, ancestors, has_slash, slash, join, append, overwrite,
}
use lynne_social.Storage.Fs.Laws.{mem_text-add_dirs}
use lynne_social.Storage.Isolation.{IsPlain, join_plain}
use lynne_social.Storage.Dates.{mem_text-list_dates, list_dates-IsDescending, ancestors_self}
use lynne_social.Storage.Archive.{Save, items, report, summary, perform, perform_all, day_of}
use lynne_social.Storage.Archive.Refinement.{fresh, onward_done}
use lynne_social.Storage.{
  Storage, list_dates, start, storage, save_items, save_report, save_summary,
}

abbrev is_dots : Text → Bool
is_dots s = text_eq s (txt ".") || text_eq s (txt "..")

-- No part of a path, `seen` of the first one being read, is . or ..: the system would resolve it.
abbrev dotless_after : Text → Text → Bool
dotless_after seen [] = not (is_dots seen)
dotless_after seen (c ∷ s) = elim (c == slash) [
  | true ↦ not (is_dots seen) && dotless_after [] s
  | false ↦ dotless_after (seen ++ (c ∷ [])) s
]

abbrev pub dotless : Text → Bool
dotless = dotless_after []

-- The name of a day's directory: a plain name, and neither . nor ..
pub record IsEntry (d : Text) : Type 0 where
  pub plain : IsPlain d
  pub dots : dotless d ≡ true

-- A data directory that is given, and is not resolved to another one.
pub record IsBase (dir : Text) : Type 0 where
  pub given : dir ≢ []
  pub dots : dotless dir ≡ true

longer : (s t : Text) (c : ℕ) → text_eq s (s ++ (c ∷ t)) ≡ false
unfolding text_eq
longer [] t c = refl
longer (d ∷ s) t c = ground (arith, longer s t c)

text_eq-append_left : (s a b : Text) → text_eq (s ++ a) (s ++ b) ≡ text_eq a b
unfolding text_eq
text_eq-append_left [] a b = refl
text_eq-append_left (c ∷ s) a b = ground (arith, text_eq-append_left s a b)

-- No path below a directory is among its ancestors.
below-ancestors :
    (seen s t : Text) (c : ℕ) → mem_text (seen ++ (s ++ (c ∷ t))) (ancestors seen s) ≡ false
unfolding mem_text ancestors
below-ancestors seen [] t c = rw (longer seen t c)
below-ancestors seen (d ∷ s) t c = ground (
  arith,
  below-ancestors (seen ++ (d ∷ [])) s t c,
  append_assoc seen (d ∷ []) (s ++ (c ∷ t)),
  longer seen (s ++ (c ∷ t)) d,
)

ancestors_flat : (seen d : Text) → has_slash d ≡ false → ancestors seen d ≡ (seen ++ d) ∷ []
unfolding ancestors has_slash
ancestors_flat seen [] h = ap (λ t. t ∷ []) (sym (append-nil seen))
ancestors_flat seen (c ∷ d) h =
    ground (arith, ancestors_flat (seen ++ (c ∷ [])) d, append_assoc seen (c ∷ []) d)

-- Of the paths directly in `dir`, only its own is among the ancestors of a directory there.
sibling-ancestors :
    (seen dir d n : Text)
    → has_slash d ≡ false
    → mem_text (seen ++ (dir ++ (slash ∷ n))) (ancestors seen (dir ++ (slash ∷ d))) ≡ text_eq d n
unfolding mem_text ancestors text_eq
sibling-ancestors seen [] d n h =
    rw
      (
        longer seen n slash,
        ancestors_flat (seen ++ (slash ∷ [])) d h,
        append_assoc seen (slash ∷ []) d,
        text_eq-append_left seen (slash ∷ d) (slash ∷ n),
      )
      (ground arith)
sibling-ancestors seen (c ∷ dir) d n h = ground (
  arith,
  sibling-ancestors (seen ++ (c ∷ [])) dir d n h,
  append_assoc seen (c ∷ []) (dir ++ (slash ∷ n)),
  longer seen (dir ++ (slash ∷ n)) c,
)

module _ (J : JsonLib) (today : Text) where
  -- A save keeps the data directory, and creates that of its day.
  record Makes (d : Text) (s t : Storage) : Type 0 where
    same_dir : t.data_dir ≡ s.data_dir
    dirs : t.disk.dirs ≡ (create_directories (join s.data_dir d) s.disk).dirs

  perform-Makes : (c : Save J) (s : Storage) → Makes (day_of J today c) s (perform J today c s).1
  unfolding perform save_items save_report append overwrite
  perform-Makes (items is date) s = record { same_dir = refl; dirs = refl }
  perform-Makes (report text date) s = record { same_dir = refl; dirs = refl }
  perform-Makes (summary v date) s = elim (Option-cases (J.dump_pretty v)) [
    | inl e ↦ rw (e, save_summary) (record { same_dir = refl; dirs = refl })
    | inr (t, e) ↦ rw (e, save_summary) (record { same_dir = refl; dirs = refl })
  ]

  -- The data directory is there, and in it are the days that `named` says.
  record HasDays (dir : Text) (named : Text → Bool) (s : Storage) : Type 0 where
    data_dir : s.data_dir ≡ dir
    made : mem_text dir s.disk.dirs ≡ true
    inside : (n : Text) → IsPlain n → mem_text (dir ++ (slash ∷ n)) s.disk.dirs ≡ named n

  fresh-HasDays : (dir : Text) → HasDays dir (λ n. false) (fresh dir)
  unfolding start storage create_directories
  fresh-HasDays dir = record {
    data_dir = refl;
    made = mem_text-add_dirs dir (ancestors [] dir) [] ∙ ground (arith, ancestors_self [] dir);
    inside = λ n v.
        mem_text-add_dirs (dir ++ (slash ∷ n)) (ancestors [] dir) []
        ∙ ground (arith, below-ancestors [] dir n slash);
  }

  Makes-HasDays :
      (dir d : Text) (named : Text → Bool) (s t : Storage)
      → IsPlain d
      → Makes d s t
      → HasDays dir named s
      → HasDays dir (λ n. text_eq d n || named n) t
  unfolding create_directories
  Makes-HasDays dir d named s t v m h =
      let p = ap (λ q. join q d) h.data_dir ∙ join_plain dir d v in
      let now = m.dirs ∙ ap (λ q. (create_directories q s.disk).dirs) p in
      record {
        data_dir = m.same_dir ∙ h.data_dir;
        made =
            ap (mem_text dir) now
            ∙ mem_text-add_dirs dir (ancestors [] (dir ++ (slash ∷ d))) s.disk.dirs
            ∙ ground (arith, h.made);
        inside = λ n w.
            ap (mem_text (dir ++ (slash ∷ n))) now
            ∙ mem_text-add_dirs (dir ++ (slash ∷ n)) (ancestors [] (dir ++ (slash ∷ d))) s.disk.dirs
            ∙ ground (arith, sibling-ancestors [] dir d n v.flat, h.inside n w);
      }

  -- The days of a row of saves, on top of those before.
  abbrev days_of : List (Save J) → (Text → Bool) → Text → Bool
  days_of cs named n = mem_text n (map (day_of J today) cs) || named n

  perform_all-HasDays :
      (cs : List (Save J)) (dir : Text) (named : Text → Bool) (s : Storage)
      → All (λ c. IsPlain (day_of J today c)) cs
      → (perform_all J today cs s).0 ≡ some tt
      → HasDays dir named s
      → HasDays dir (days_of cs named) (perform_all J today cs s).1
  unfolding mem_text
  perform_all-HasDays [] dir named s v h k = k
  perform_all-HasDays (c ∷ cs) dir named s v h k =
      let t = (perform J today c s).1 in
      let d = day_of J today c in
      let (first, later) =
        onward_done J today (perform J today c s) (λ t. perform_all J today cs t) h in
      let w =
        perform_all-HasDays cs dir (λ n. text_eq d n || named n) t v.1
          (ap (λ r. r.0) (sym later) ∙ h)
          (Makes-HasDays dir d named s t v.0 (perform-Makes c s) k) in
      rw later (record {
        data_dir = w.data_dir;
        made = w.made;
        inside = λ n p. w.inside n p ∙ ground arith;
      })

  -- On a machine without files, after start and any saves of which none throws, list_dates is in
  -- descending order, and a name is in it exactly if some save was for the day of that name,
  -- unless it is sessions. The days and the name are not empty and hold no slash; the data
  -- directory is not empty; and no part of these paths is . or .. .
  pub list_dates-perform_all :
      (cs : List (Save J)) (dir n : Text)
      → IsBase dir
      → All (λ c. IsEntry (day_of J today c)) cs
      → IsEntry n
      → (perform_all J today cs (fresh dir)).0 ≡ some tt
      → let s = (perform_all J today cs (fresh dir)).1 in
        (mem_text n (list_dates s)
          ≡ (not (text_eq n (txt "sessions")) && mem_text n (map (day_of J today) cs)))
        × IsDescending (list_dates s)
  unfolding exists
  list_dates-perform_all cs dir n b e m h =
      let p = m.plain in
      let v =
        All-map (λ c. IsEntry (day_of J today c)) (λ c. IsPlain (day_of J today c)) cs
          (λ c k. k.plain) e in
      let s = (perform_all J today cs (fresh dir)).1 in
      let w = perform_all-HasDays cs dir (λ n. false) (fresh dir) v h (fresh-HasDays dir) in
      (
        mem_text-list_dates n s p
            ∙ rw (w.data_dir, join_plain dir n p, w.made, w.inside n p) (ground arith),
        list_dates-IsDescending s,
      )
