-- ===== src/Prelude/Order.antt =====
-- operator< on std::string (bytewise), and std::sort with std::greater as insertion sort: equal
-- strings cannot be told apart, so every sorting algorithm gives this list.
use mathlib.Core.Path.{◌≡◌, refl}
use mathlib.Core.Bool.{Bool, true, false, ◌&&◌, ◌||◌}
use mathlib.Core.List.{List, [], ◌∷◌, Perm}
use mathlib.Core.List.Perm
use native.Mathlib.Omega.{arith}
use lynne_social.Prelude.Tests.{ltb, ◌==◌, if◌then◌else◌, Bool-cases}
use mathlib.Core.Logic.{inl, inr}
use lynne_social.Prelude.Strings.{Text}
use lynne_social.Prelude.Lists.{All}

unfoldable pub text_lt : Text → Text → Bool
text_lt s [] = false
text_lt [] (d ∷ t) = true
text_lt (c ∷ s) (d ∷ t) = ltb c d || (c == d && text_lt s t)

pub text_lt_asymm : (s t : Text) → text_lt s t ≡ true → text_lt t s ≡ false
unfolding text_lt
text_lt_asymm [] [] h = refl
text_lt_asymm (c ∷ s) [] h = ground arith
text_lt_asymm [] (d ∷ t) h = refl
text_lt_asymm (c ∷ s) (d ∷ t) h = ground (arith, text_lt_asymm s t)

pub text_le_trans : (s t u : Text) → text_lt t s ≡ false → text_lt u t ≡ false → text_lt u s ≡ false
unfolding text_lt
text_le_trans [] t [] h k = refl
text_le_trans [] t (e ∷ u) h k = refl
text_le_trans (c ∷ s) [] u h k = ground arith
text_le_trans (c ∷ s) (d ∷ t) [] h k = ground arith
text_le_trans (c ∷ s) (d ∷ t) (e ∷ u) h k = ground (arith, text_le_trans s t u)

-- Insertion into a list in falling order.
unfoldable pub insert_desc : Text → List Text → List Text
insert_desc s [] = s ∷ []
insert_desc s (t ∷ l) = let rest = insert_desc s l in if text_lt s t then t ∷ rest else s ∷ (t ∷ l)

unfoldable pub sort_desc : List Text → List Text
sort_desc [] = []
sort_desc (s ∷ l) = insert_desc s (sort_desc l)

-- Every element is at most `s`.
abbrev pub AtMost : Text → List Text → Type 0
AtMost s = All (λ t. text_lt s t ≡ false)

abbrev pub IsDescending : List Text → Type 0
IsDescending [] = Unit {0}
IsDescending (s ∷ l) = AtMost s l × IsDescending l

AtMost-mono : (s t : Text) (l : List Text) → text_lt t s ≡ false → AtMost s l → AtMost t l
AtMost-mono s t [] h a = tt
AtMost-mono s t (u ∷ l) h a = (text_le_trans u s t a.0 h, AtMost-mono s t l h a.1)

insert_desc-AtMost :
    (s b : Text) (l : List Text) → text_lt b s ≡ false → AtMost b l → AtMost b (insert_desc s l)
unfolding insert_desc
insert_desc-AtMost s b [] h a = (h, tt)
insert_desc-AtMost s b (t ∷ l) h a = ground (arith, insert_desc-AtMost s b l h a.1)

insert_desc-IsDescending :
    (s : Text) (l : List Text) → IsDescending l → IsDescending (insert_desc s l)
unfolding insert_desc
insert_desc-IsDescending s [] d = (tt, tt)
insert_desc-IsDescending s (t ∷ l) d = elim (Bool-cases (text_lt s t)) [
  | inl lt ↦
      rw lt (insert_desc-AtMost s t l (text_lt_asymm s t lt) d.0, insert_desc-IsDescending s l d.1)
  | inr ge ↦ rw ge ((ge, AtMost-mono t s l ge d.0), d)
]

pub sort_desc-IsDescending : (l : List Text) → IsDescending (sort_desc l)
unfolding sort_desc
sort_desc-IsDescending [] = tt
sort_desc-IsDescending (s ∷ l) = insert_desc-IsDescending s (sort_desc l) (sort_desc-IsDescending l)

insert_desc-perm : (s : Text) (l : List Text) → Perm (insert_desc s l) (s ∷ l)
unfolding insert_desc
insert_desc-perm s [] = Perm.refl (s ∷ [])
insert_desc-perm s (t ∷ l) = elim (Bool-cases (text_lt s t)) [
  | inl lt ↦ rw lt (Perm.trans (Perm.cons t (insert_desc-perm s l)) (Perm.swap s t l))
  | inr ge ↦ rw ge (Perm.refl (s ∷ t ∷ l))
]

pub sort_desc-perm : (l : List Text) → Perm (sort_desc l) l
unfolding sort_desc
sort_desc-perm [] = Perm.nil
sort_desc-perm (s ∷ l) =
    Perm.trans (insert_desc-perm s (sort_desc l)) (Perm.cons s (sort_desc-perm l))
