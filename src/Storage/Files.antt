-- ===== src/Storage/Files.antt =====
-- One file of one day is written: what the files of all days hold afterwards.
use mathlib.Core.List.{append_assoc, append-nil, append_cancel_left}
use lynne_social.Prelude.{
  ◌≡◌, refl, ap, sym, ◌∙◌, true, false, ◌&&◌, ◌||◌, [], ◌∷◌, ◌++◌, Text, text_eq, text_eq_refl,
  text_eq→eq, eq→text_eq, arith, Bool-cases, inl, inr, if◌then◌else◌, text_eq_instance,
  lookup-insert,
}
use lynne_social.Storage.Fs.{
  Disk, join, has_slash, slash, content, exists, overwrite, create_directories, mem_text, ancestors,
}
use lynne_social.Storage.Fs.Laws.{mem_text-add_dirs, content-overwrite, content-create_directories}
use lynne_social.Storage.Isolation.{
  IsPlain, join_plain, day_file_plain, day_file_differs, day_file_eq,
}
use lynne_social.Storage.{Storage, day_file}

-- A save of the file `f` of the day `d`.
abbrev pub put_file : Text → Text → Text → Storage → Storage
put_file d f text s = record s {
  disk = overwrite (day_file d f s) text (create_directories (join s.data_dir d) s.disk);
}

abbrev pub held : Text → Text → Storage → Text
held d f s = content (day_file d f s) s.disk

has_slash-append : (s t : Text) → has_slash (s ++ (slash ∷ t)) ≡ true
unfolding has_slash
has_slash-append [] t = refl
has_slash-append (c ∷ s) t = ground (arith, has_slash-append s t)

-- An ancestor of a path is a first part of it.
pub ancestor_prefix :
    (p seen rest : Text)
    → mem_text p (ancestors seen rest) ≡ true
    → (r : Text) × (seen ++ rest ≡ p ++ r)
unfolding mem_text ancestors
ancestor_prefix p seen [] h = ([], ground (arith, append-nil seen, append-nil p, text_eq→eq seen p))
ancestor_prefix p seen (c ∷ rest) h =
    elim (Bool-cases (mem_text p (ancestors (seen ++ (c ∷ [])) rest))) [
      | inl below ↦
          let (r, e) = ancestor_prefix p (seen ++ (c ∷ [])) rest below in
          (r, sym (append_assoc seen (c ∷ []) rest) ∙ e)
      | inr not_below ↦ (c ∷ rest, ap (λ t. t ++ (c ∷ rest)) (ground (arith, text_eq→eq seen p)))
    ]

day_file_same :
    (d e f g : Text) (s : Storage)
    → IsPlain d
    → IsPlain e
    → IsPlain f
    → f ≡ g
    → text_eq (day_file d f s) (day_file e g s) ≡ (text_eq d e && true)
day_file_same d e f g s vd ve vf same = rw (← same) (day_file_eq d e f s vd ve vf ∙ ground arith)

day_file_eq_both :
    (d e f g : Text) (s : Storage)
    → IsPlain d
    → IsPlain e
    → IsPlain f
    → IsPlain g
    → text_eq (day_file d f s) (day_file e g s) ≡ (text_eq d e && text_eq f g)
day_file_eq_both d e f g s vd ve vf vg = elim (Bool-cases (text_eq f g)) [
  | inl same ↦ rw same (day_file_same d e f g s vd ve vf (text_eq→eq f g same))
  | inr other ↦ rw other (
      day_file_differs d e f g s vd ve vf vg (inr λ h. ground (arith, eq→text_eq f g h))
      ∙ ground arith)
]

-- No directory of a day stands where a file of a day is.
file_no_ancestor :
    (d e g : Text) (s : Storage)
    → IsPlain d
    → IsPlain e
    → IsPlain g
    → mem_text (day_file e g s) (ancestors [] (join s.data_dir d)) ≡ false
file_no_ancestor d e g s vd ve vg =
    elim (Bool-cases (mem_text (day_file e g s) (ancestors [] (join s.data_dir d)))) [
      | inl h ↦
          let (r, part) = ancestor_prefix (day_file e g s) [] (join s.data_dir d) h in
          let dir = s.data_dir ++ (slash ∷ []) in
          let whole : dir ++ d ≡ dir ++ ((e ++ (slash ∷ g)) ++ r) =
            append_assoc s.data_dir (slash ∷ []) d
            ∙ (sym (join_plain s.data_dir d vd)
                ∙ (part
                    ∙ (ap (λ q. q ++ r) (day_file_plain e g s ve vg)
                        ∙ append_assoc dir (e ++ (slash ∷ g)) r))) in
          let same =
            append_cancel_left dir d ((e ++ (slash ∷ g)) ++ r) whole
            ∙ append_assoc e (slash ∷ g) r in
          ground (arith, same, has_slash-append e (g ++ r), vd.flat)
      | inr h ↦ h
    ]

exists-written :
    (q p t dir : Text) (d : Disk)
    → mem_text q (ancestors [] dir) ≡ false
    → exists q (overwrite p t (create_directories dir d)) ≡ (text_eq p q || exists q d)
unfolding exists overwrite create_directories
exists-written q p t dir d h =
    ground (arith, mem_text-add_dirs q (ancestors [] dir) d.dirs, lookup-insert p q t d.files)

module _ (d e f g text : Text) (s : Storage) (vd : IsPlain d) (ve : IsPlain e) (vf : IsPlain f)
    (vg : IsPlain g) where
  pub held-put_file :
      held e g (put_file d f text s) ≡ (if text_eq d e && text_eq f g then text else held e g s)
  unfolding day_file
  held-put_file =
      content-overwrite (day_file e g s) (day_file d f s) text
        (create_directories (join s.data_dir d) s.disk)
      ∙ rw (day_file_eq_both d e f g s vd ve vf vg, content-create_directories)

  pub exists-put_file :
      exists (day_file e g (put_file d f text s)) (put_file d f text s).disk
      ≡ (text_eq d e && text_eq f g || exists (day_file e g s) s.disk)
  unfolding day_file
  exists-put_file =
      exists-written (day_file e g s) (day_file d f s) text (join s.data_dir d) s.disk
        (file_no_ancestor d e g s vd ve vg)
      ∙ rw (day_file_eq_both d e f g s vd ve vf vg)

module _ (d e f text : Text) (s : Storage) (vd : IsPlain d) (ve : IsPlain e) (vf : IsPlain f) where
  -- The same file, of any day.
  pub held-put_file_self :
      held e f (put_file d f text s) ≡ (if text_eq d e then text else held e f s)
  held-put_file_self = held-put_file d e f f text s vd ve vf vf ∙ rw (text_eq_refl f) (ground arith)

  -- Another file, of any day.
  module _ (g : Text) (vg : IsPlain g) (other : text_eq f g ≡ false) where
    pub held-put_file_other : held e g (put_file d f text s) ≡ held e g s
    held-put_file_other = held-put_file d e f g text s vd ve vf vg ∙ rw other (ground arith)

    pub exists-put_file_other :
        exists (day_file e g (put_file d f text s)) (put_file d f text s).disk
        ≡ exists (day_file e g s) s.disk
    exists-put_file_other = exists-put_file d e f g text s vd ve vf vg ∙ rw other (ground arith)
