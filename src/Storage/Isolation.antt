-- ===== src/Storage/Isolation.antt =====
-- The paths of the files of days (wheel/storage/imp/jsonl_storage.cpp).
use mathlib.Core.List.{append_assoc, append_cancel_left}
use lynne_social.Prelude.{
  ◌≡◌, ◌≢◌, refl, ap, sym, ◌∙◌, false, [], ◌∷◌, ◌++◌, Text, txt, text_eq, text_eq→eq, eq→text_eq,
  arith, Bool-cases, inl, inr, ◌⊎◌,
}
use lynne_social.Storage.Fs.{join, has_slash, slash}
use lynne_social.Storage.{Storage, day_file}

-- A directory name: not empty, and without a slash.
pub record IsPlain (d : Text) : Type 0 where
  pub given : d ≢ []
  pub flat : has_slash d ≡ false

split_at_slash :
    (d e f g : Text)
    → has_slash d ≡ false
    → has_slash e ≡ false
    → d ++ (slash ∷ f) ≡ e ++ (slash ∷ g)
    → (d ≡ e) × (f ≡ g)
unfolding has_slash
split_at_slash [] [] f g hd he h = (refl, ground arith)
split_at_slash [] (c ∷ e) f g hd he h = ground arith
split_at_slash (c ∷ d) [] f g hd he h = ground arith
split_at_slash (c ∷ d) (c' ∷ e) f g hd he h =
    let (same_d, same_f) = split_at_slash d e f g (ground arith) (ground arith) (ground arith) in
    (ground arith, same_f)

-- A name that operator/ appends behind a slash.
pub join_plain : (dir d : Text) → IsPlain d → join dir d ≡ dir ++ (slash ∷ d)
unfolding join has_slash
join_plain dir [] v = absurd (v.given refl)
join_plain dir (c ∷ d) v = ground arith

pub day_file_plain :
    (d f : Text) (s : Storage)
    → IsPlain d
    → IsPlain f
    → day_file d f s ≡ (s.data_dir ++ (slash ∷ [])) ++ (d ++ (slash ∷ f))
unfolding day_file
day_file_plain d f s vd vf = rw (
  join_plain s.data_dir d vd,
  join_plain (s.data_dir ++ (slash ∷ d)) f vf,
  append_assoc s.data_dir (slash ∷ d) (slash ∷ f),
  append_assoc s.data_dir (slash ∷ []) (d ++ (slash ∷ f)),
)

-- Files of days are apart: if the paths of two files are equal, and the days and the file names
-- are not empty and hold no slash, then the days are equal and the names are equal.
pub day_file-injective :
    (d e f g : Text) (s : Storage)
    → IsPlain d
    → IsPlain e
    → IsPlain f
    → IsPlain g
    → day_file d f s ≡ day_file e g s
    → (d ≡ e) × (f ≡ g)
day_file-injective d e f g s vd ve vf vg h = split_at_slash d e f g vd.flat ve.flat (
    append_cancel_left (s.data_dir ++ (slash ∷ [])) (d ++ (slash ∷ f)) (e ++ (slash ∷ g))
      (sym (day_file_plain d f s vd vf) ∙ h ∙ day_file_plain e g s ve vg))

-- Different days or different names give different paths.
pub day_file_differs :
    (d e f g : Text) (s : Storage)
    → IsPlain d
    → IsPlain e
    → IsPlain f
    → IsPlain g
    → ((d ≢ e) ⊎ (f ≢ g))
    → text_eq (day_file d f s) (day_file e g s) ≡ false
day_file_differs d e f g s vd ve vf vg other =
    elim (Bool-cases (text_eq (day_file d f s) (day_file e g s))) [
      | inl same ↦
          absurd (clash other (day_file-injective d e f g s vd ve vf vg (text_eq→eq _ _ same)))
      | inr differ ↦ differ
    ]
  where
    clash : ((d ≢ e) ⊎ (f ≢ g)) → (d ≡ e) × (f ≡ g) → ⊥
    clash (inl h) p = h p.0
    clash (inr h) p = h p.1

-- So paths to one file of two days are told apart as the days are.
pub day_file_eq :
    (d e f : Text) (s : Storage)
    → IsPlain d
    → IsPlain e
    → IsPlain f
    → text_eq (day_file d f s) (day_file e f s) ≡ text_eq d e
day_file_eq d e f s vd ve vf = elim (Bool-cases (text_eq d e)) [
  | inl same ↦ rw same (eq→text_eq _ _ (ap (λ x. day_file x f s) (text_eq→eq d e same)))
  | inr differ ↦
      rw differ (day_file_differs d e f f s vd ve vf vf (inl λ h. ground (arith, eq→text_eq d e h)))
]

-- The three file names of a day.
pub items-IsPlain : IsPlain (txt "items.jsonl")
unfolding txt has_slash
items-IsPlain = record { given = λ h. cc; flat = refl }

pub report-IsPlain : IsPlain (txt "report.md")
unfolding txt has_slash
report-IsPlain = record { given = λ h. cc; flat = refl }

pub summary-IsPlain : IsPlain (txt "summary.json")
unfolding txt has_slash
summary-IsPlain = record { given = λ h. cc; flat = refl }

pub items-ne-report : txt "items.jsonl" ≢ txt "report.md"
unfolding txt
items-ne-report h = ground arith

pub items-ne-summary : txt "items.jsonl" ≢ txt "summary.json"
unfolding txt
items-ne-summary h = ground arith

pub report-ne-summary : txt "report.md" ≢ txt "summary.json"
unfolding txt
report-ne-summary h = ground arith
