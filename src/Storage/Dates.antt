-- ===== src/Storage/Dates.antt =====
-- list_dates: which directories it names, and in which order.
use mathlib.Core.List.{append_assoc, append-nil}
use lynne_social.Prelude.{
  ◌≡◌, ◌≢◌, refl, ap, sym, ◌∙◌, Bool, true, false, not, ◌&&◌, ◌||◌, Option, none, some, List, [],
  ◌∷◌, ◌++◌, Text, txt, text_eq, text_eq_refl, text_eq_iff, text_eq→eq, select, arith, Bool-cases,
  inl, inr,
}
use lynne_social.Prelude.Order.{insert_desc, sort_desc, IsDescending, sort_desc-IsDescending}
use lynne_social.Json.{JsonLib}
use lynne_social.Common.Item.{UnifiedItem}
use lynne_social.Storage.Fs.{
  Disk, exists, mem_text, ancestors, create_directories, names_in, strip_prefix, plain_name,
  has_slash, slash, join, append,
}
use lynne_social.Storage.Fs.Laws.{mem_text-add_dirs}
use lynne_social.Storage.Isolation.{IsPlain, join_plain}
use lynne_social.Storage.{Storage, day, save_items, list_dates, not_sessions}

mem_text-insert_desc :
    (n s : Text) (l : List Text) → mem_text n (insert_desc s l) ≡ (text_eq s n || mem_text n l)
unfolding mem_text insert_desc
mem_text-insert_desc n s [] = refl
mem_text-insert_desc n s (t ∷ l) = ground (arith, mem_text-insert_desc n s l)

mem_text-sort_desc : (n : Text) (l : List Text) → mem_text n (sort_desc l) ≡ mem_text n l
unfolding mem_text sort_desc
mem_text-sort_desc n [] = refl
mem_text-sort_desc n (s ∷ l) =
    mem_text-insert_desc n s (sort_desc l) ∙ ap (λ b. text_eq s n || b) (mem_text-sort_desc n l)

mem_text-select :
    (p : Text → Bool) (n : Text) (l : List Text) → mem_text n (select p l) ≡ (p n && mem_text n l)
unfolding mem_text select
mem_text-select p n [] = ground arith
mem_text-select p n (s ∷ l) = ground (arith, mem_text-select p n l, text_eq_iff s n)

abbrev is_name : Option Text → Text → Bool
is_name none n = false
is_name (some m) n = text_eq m n

has_slash_differs : (s n : Text) → has_slash s ≡ true → has_slash n ≡ false → text_eq s n ≡ false
unfolding text_eq has_slash
has_slash_differs [] n h k = ground arith
has_slash_differs (c ∷ s) [] h k = refl
has_slash_differs (c ∷ s) (d ∷ n) h k = ground (arith, has_slash_differs s n)

-- An entry has the name `n` exactly if its path is the directory's with `n` behind it.
is_name-strip_prefix :
    (dir p n : Text)
    → IsPlain n
    → is_name (plain_name (strip_prefix dir p)) n ≡ text_eq p (dir ++ n)
unfolding strip_prefix text_eq
is_name-strip_prefix [] [] [] v = absurd (v.given refl)
is_name-strip_prefix [] [] (d ∷ n) v = refl
is_name-strip_prefix [] (c ∷ s) n v = elim (Bool-cases (has_slash (c ∷ s))) [
  | inl h ↦ rw h (sym (has_slash_differs (c ∷ s) n h v.flat))
  | inr h ↦ rw h refl
]
is_name-strip_prefix (c ∷ dir) [] n v = refl
is_name-strip_prefix (c ∷ dir) (d ∷ s) n v = ground (arith, is_name-strip_prefix dir s n v)

mem_text-names_in :
    (dir n : Text) (ps : List Text)
    → IsPlain n
    → mem_text n (names_in dir ps) ≡ mem_text ((dir ++ (slash ∷ [])) ++ n) ps
unfolding mem_text names_in
mem_text-names_in dir n [] v = refl
mem_text-names_in dir n (p ∷ ps) v =
    ground (arith, mem_text-names_in dir n ps v, is_name-strip_prefix (dir ++ (slash ∷ [])) p n v)

-- list_dates is in descending order.
pub list_dates-IsDescending : (s : Storage) → IsDescending (list_dates s)
unfolding list_dates
list_dates-IsDescending s = elim (Bool-cases (exists s.data_dir s.disk)) [
  | inl e ↦ rw e (sort_desc-IsDescending _)
  | inr e ↦ rw e tt
]

-- A name that is not empty and has no slash is in list_dates exactly if the data directory exists,
-- the name is not sessions, and the data directory has a directory of that name.
pub mem_text-list_dates :
    (n : Text) (s : Storage)
    → IsPlain n
    → mem_text n (list_dates s) ≡ (
        exists s.data_dir s.disk
        && (not (text_eq n (txt "sessions")) && mem_text (join s.data_dir n) s.disk.dirs))
unfolding list_dates not_sessions mem_text
mem_text-list_dates n s v = elim (Bool-cases (exists s.data_dir s.disk)) [
  | inl e ↦ rw (
    e,
    mem_text-sort_desc n (select not_sessions (names_in s.data_dir s.disk.dirs)),
    mem_text-select not_sessions n (names_in s.data_dir s.disk.dirs),
    mem_text-names_in s.data_dir n s.disk.dirs v,
    join_plain s.data_dir n v,
    append_assoc s.data_dir (slash ∷ []) n,
  )
  | inr e ↦ rw e refl
]

pub ancestors_self : (seen s : Text) → mem_text (seen ++ s) (ancestors seen s) ≡ true
unfolding mem_text ancestors
ancestors_self seen [] = ground (arith, append-nil seen, text_eq_refl seen)
ancestors_self seen (c ∷ s) =
    ground (arith, ancestors_self (seen ++ (c ∷ [])) s, append_assoc seen (c ∷ []) s)

ancestors-parent :
    (seen s t : Text) → mem_text (seen ++ s) (ancestors seen (s ++ (slash ∷ t))) ≡ true
unfolding mem_text ancestors
ancestors-parent seen [] t = ground (arith, append-nil seen, text_eq_refl seen)
ancestors-parent seen (c ∷ s) t =
    ground (arith, ancestors-parent (seen ++ (c ∷ [])) s t, append_assoc seen (c ∷ []) s)

-- create_directories for a directory below `dir` leaves both.
created :
    (dir n : Text) (d : Disk)
    → IsPlain n
    → (mem_text dir (create_directories (join dir n) d).dirs ≡ true)
      × (mem_text (join dir n) (create_directories (join dir n) d).dirs ≡ true)
unfolding create_directories
created dir n d v = rw (join_plain dir n v) (
    ground (
      arith,
      mem_text-add_dirs dir (ancestors [] (dir ++ (slash ∷ n))) d.dirs,
      mem_text-add_dirs (dir ++ (slash ∷ n)) (ancestors [] (dir ++ (slash ∷ n))) d.dirs,
      ancestors_self [] (dir ++ (slash ∷ n)),
      ancestors-parent [] dir n,
    ))

exists-of_dir : (p : Text) (d : Disk) → mem_text p d.dirs ≡ true → exists p d ≡ true
unfolding exists
exists-of_dir p d h = rw h

module _ (J : JsonLib) (today : Text) where
  dirs-save_items :
      (items : List (UnifiedItem J)) (date : Text) (s : Storage)
      → (save_items J today items date s).1.disk.dirs
        ≡ (create_directories (join s.data_dir (day today date)) s.disk).dirs
  unfolding save_items append
  dirs-save_items items date s = refl

  data_dir-save_items :
      (items : List (UnifiedItem J)) (date : Text) (s : Storage)
      → (save_items J today items date s).1.data_dir ≡ s.data_dir
  unfolding save_items
  data_dir-save_items items date s = refl

  -- After save_items, whether it returned or threw, its day is in list_dates, for a day that is
  -- not empty, has no slash and is not sessions.
  pub list_dates-save_items :
      (items : List (UnifiedItem J)) (date : Text) (s : Storage)
      → IsPlain (day today date)
      → day today date ≢ txt "sessions"
      → mem_text (day today date) (list_dates (save_items J today items date s).1) ≡ true
  list_dates-save_items items date s v other =
      let (above, below) = created s.data_dir (day today date) s.disk v in
      rw (
        mem_text-list_dates (day today date) (save_items J today items date s).1 v,
        exists-of_dir (save_items J today items date s).1.data_dir
            (save_items J today items date s).1.disk
            (rw (data_dir-save_items items date s, dirs-save_items items date s) above),
        data_dir-save_items items date s,
        dirs-save_items items date s,
        below,
        differs (text_eq (day today date) (txt "sessions")) refl,
      )
    where
      differs :
          (b : Bool)
          → text_eq (day today date) (txt "sessions") ≡ b
          → not (text_eq (day today date) (txt "sessions")) ≡ true
      differs true e = absurd (other (text_eq→eq _ _ e))
      differs false e = rw e
