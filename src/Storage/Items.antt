-- ===== src/Storage/Items.antt =====
-- What load_items reads after save_items.
use lynne_social.Prelude.{
  ◌≡◌, refl, Bool, true, false, ◌||◌, Option, none, some, List, [], ◌∷◌, ◌++◌, Text, txt, empty,
  text_eq, select, arith, inl, inr, Option-cases,
}
use lynne_social.Json.{JsonLib}
use lynne_social.Common.Item.{UnifiedItem, item_to_json}
use lynne_social.Common.Item.Roundtrip.{item_from_json-to_json}
use lynne_social.Storage.Fs.{content}
use lynne_social.Storage.Fs.Laws.{disk_laws, content_missing}
use lynne_social.Storage.Lines.{lines, lines-line, lines-append, IsComplete, append-IsComplete}
use lynne_social.Storage.{
  Storage, day, day_file, save_items, load_items, read_items, read_item, item_lines,
}

module _ (J : JsonLib) where
  -- An item passes the filter of load_items.
  abbrev pub keeps_item : Text → UnifiedItem J → Bool
  keeps_item platform i = empty platform || text_eq i.platform platform

  abbrev pub concat_some :
      Option (List (UnifiedItem J)) → Option (List (UnifiedItem J)) → Option (List (UnifiedItem J))
  concat_some none ys = none
  concat_some (some xs) none = none
  concat_some (some xs) (some ys) = some (xs ++ ys)

  read_items-append :
      (platform : Text) (ls ms : List Text)
      → read_items J platform (ls ++ ms)
        ≡ concat_some (read_items J platform ls) (read_items J platform ms)
  unfolding read_items
  read_items-append platform [] ms = ground arith
  read_items-append platform (l ∷ ls) ms = ground (arith, read_items-append platform ls ms)

  read_item-dump :
      (i : UnifiedItem J) (t : Text) → J.dump (item_to_json J i) ≡ some t → read_item J t ≡ some i
  unfolding read_item
  read_item-dump i t h = rw (J.parse-dump (item_to_json J i) t h) (item_from_json-to_json J i _)

  item_lines-some :
      (i : UnifiedItem J) (is : List (UnifiedItem J)) (t : Text)
      → J.dump (item_to_json J i) ≡ some t
      → item_lines J (i ∷ is) ≡ (t ++ (10 ∷ (item_lines J is).0), (item_lines J is).1)
  unfolding item_lines
  item_lines-some i is t h = rw (h, item_lines)

  item_lines-none :
      (i : UnifiedItem J) (is : List (UnifiedItem J))
      → J.dump (item_to_json J i) ≡ none
      → item_lines J (i ∷ is) ≡ ([], false)
  unfolding item_lines
  item_lines-none i is h = rw (h, item_lines)

  read_items-line :
      (platform : Text) (i : UnifiedItem J) (t : Text) (ls : List Text) (is : List (UnifiedItem J))
      → J.dump (item_to_json J i) ≡ some t
      → read_items J platform ls ≡ some (select (keeps_item platform) is)
      → read_items J platform (t ∷ ls) ≡ some (select (keeps_item platform) (i ∷ is))
  unfolding read_items select empty
  read_items-line platform i [] ls is h k = absurd (J.dump-ne-nil _ _ h refl)
  read_items-line platform i (c ∷ t) ls is h k = rw (read_item-dump i (c ∷ t) h, k) (ground arith)

  -- The text of save_items, read line by line.
  read_items-item_lines :
      (platform : Text) (is : List (UnifiedItem J))
      → (item_lines J is).1 ≡ true
      → read_items J platform (lines (item_lines J is).0) ≡ some (select (keeps_item platform) is)
  read_items-item_lines platform [] h = unfold item_lines read_items select lines in refl
  read_items-item_lines platform (i ∷ is) h = elim (Option-cases (J.dump (item_to_json J i))) [
    | inl e ↦ ground (arith, item_lines-none i is e)
    | inr (t, e) ↦
        rw (item_lines-some i is t e, lines-line t (item_lines J is).0 (J.dump-one_line _ t e))
          (read_items-line platform i t _ is e
            (read_items-item_lines platform is (ground (arith, item_lines-some i is t e))))
  ]

  -- A log of whole lines with the text of a save behind it.
  pub read_items-lines-append :
      (platform text : Text) (is old : List (UnifiedItem J))
      → IsComplete text
      → read_items J platform (lines text) ≡ some old
      → (item_lines J is).1 ≡ true
      → read_items J platform (lines (text ++ (item_lines J is).0))
        ≡ some (old ++ select (keeps_item platform) is)
  read_items-lines-append platform text is old c h d = rw (
    lines-append text (item_lines J is).0 c,
    read_items-append platform (lines text) (lines (item_lines J is).0),
    h,
    read_items-item_lines platform is d,
  )

  pub item_lines-IsComplete : (is : List (UnifiedItem J)) → IsComplete (item_lines J is).0
  item_lines-IsComplete [] = unfold item_lines in tt
  item_lines-IsComplete (i ∷ is) = elim (Option-cases (J.dump (item_to_json J i))) [
    | inl e ↦ rw (item_lines-none i is e) tt
    | inr (t, e) ↦ rw (item_lines-some i is t e) (closed t _ (item_lines-IsComplete is))
  ]
    where
      closed : (t s : Text) → IsComplete s → IsComplete (t ++ (10 ∷ s))
      closed [] [] h = refl
      closed [] (c ∷ s) h = h
      closed (c ∷ []) s h = closed [] s h
      closed (c ∷ d ∷ t) s h = closed (d ∷ t) s h

module _ (today : Text) where
  -- The content of a day's items.jsonl.
  abbrev pub log : Text → Storage → Text
  log date s = content (day_file (day today date) (txt "items.jsonl") s) s.disk

module _ (J : JsonLib) (today : Text) where
  pub load_items-log :
      (date platform : Text) (s : Storage)
      → load_items J today date platform s ≡ read_items J platform (lines (log today date s))
  unfolding load_items read_items lines
  load_items-log date platform s =
      ground (arith, content_missing (day_file (day today date) (txt "items.jsonl") s) s.disk)

  pub log-save_items :
      (items : List (UnifiedItem J)) (date : Text) (s : Storage)
      → log today date (save_items J today items date s).1
        ≡ log today date s ++ (item_lines J items).0
  unfolding save_items day_file
  log-save_items items date s = simp disk_laws

  -- The result of a save says whether every item could be dumped.
  pub save_items-done :
      (items : List (UnifiedItem J)) (date : Text) (s : Storage)
      → (save_items J today items date s).0 ≡ some tt
      → (item_lines J items).1 ≡ true
  unfolding save_items
  save_items-done items date s h = ground arith

  -- When a day's log holds whole lines and can be loaded, a save_items of that day that does not
  -- throw makes load_items of the same day and platform return the earlier items followed by the
  -- saved ones of that platform, in order; an empty platform keeps all.
  pub load_items-save_items :
      (items old : List (UnifiedItem J)) (date platform : Text) (s : Storage)
      → IsComplete (log today date s)
      → load_items J today date platform s ≡ some old
      → (save_items J today items date s).0 ≡ some tt
      → load_items J today date platform (save_items J today items date s).1
        ≡ some (old ++ select (keeps_item J platform) items)
  load_items-save_items items old date platform s c h d = rw (
    load_items-log date platform (save_items J today items date s).1,
    log-save_items items date s,
    read_items-lines-append J platform (log today date s) items old c
        (rw (load_items-log date platform s) at h) (save_items-done items date s d),
  )

  -- A log that is empty or ends with a line break is so after save_items too, whether the save
  -- returns or an exception breaks it off.
  pub save_items-IsComplete :
      (items : List (UnifiedItem J)) (date : Text) (s : Storage)
      → IsComplete (log today date s)
      → IsComplete (log today date (save_items J today items date s).1)
  save_items-IsComplete items date s c = rw (log-save_items items date s) (
      append-IsComplete (log today date s) (item_lines J items).0 c (item_lines-IsComplete J items))
