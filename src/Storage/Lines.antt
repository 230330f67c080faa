-- ===== src/Storage/Lines.antt =====
-- std::getline in a loop: the lines of a text, a last one without a line break included.
use lynne_social.Prelude.{
  ℕ, ◌≡◌, ◌≢◌, refl, ap, ◌∙◌, List, [], ◌∷◌, ◌++◌, Text, All, ◌==◌, if◌then◌else◌, arith,
}

abbrev pub cons_head : ℕ → List Text → List Text
cons_head c [] = (c ∷ []) ∷ []
cons_head c (l ∷ ls) = (c ∷ l) ∷ ls

abbrev pub add_byte : ℕ → List Text → List Text
add_byte c ls = if c == 10 then [] ∷ ls else cons_head c ls

unfoldable pub lines : Text → List Text
lines [] = []
lines (c ∷ s) = add_byte c (lines s)

add_byte-append :
    (c : ℕ) (xs ys : List Text) → xs ≢ [] → add_byte c (xs ++ ys) ≡ add_byte c xs ++ ys
add_byte-append c [] ys h = absurd (h refl)
add_byte-append c (x ∷ xs) ys h = ground arith

lines-ne-nil : (c : ℕ) (s : Text) → lines (c ∷ s) ≢ []
unfolding lines
lines-ne-nil c [] h = ground arith
lines-ne-nil c (d ∷ s) h = ground (arith, lines-ne-nil d s)

-- Empty, or closed by a line break: what a completed save leaves.
abbrev pub IsComplete : Text → Type 0
IsComplete [] = Unit {0}
IsComplete (c ∷ []) = c ≡ 10
IsComplete (c ∷ d ∷ s) = IsComplete (d ∷ s)

-- A line that is written with its break is read back, and the reading goes on behind it.
pub lines-line : (l s : Text) → All (λ c. c ≢ 10) l → lines (l ++ (10 ∷ s)) ≡ l ∷ lines s
unfolding lines
lines-line [] s h = refl
lines-line (c ∷ l) s h = ground (arith, lines-line l s h.1)

-- A complete text ends a line: what is appended starts a new one.
pub lines-append : (s t : Text) → IsComplete s → lines (s ++ t) ≡ lines s ++ lines t
unfolding lines
lines-append [] t h = refl
lines-append (c ∷ []) t h = ground arith
lines-append (c ∷ d ∷ s) t h =
    ap (add_byte c) (lines-append (d ∷ s) t h)
    ∙ add_byte-append c (lines (d ∷ s)) (lines t) (lines-ne-nil d s)

pub append-IsComplete : (s t : Text) → IsComplete s → IsComplete t → IsComplete (s ++ t)
append-IsComplete [] t h k = k
append-IsComplete (c ∷ []) [] h k = h
append-IsComplete (c ∷ []) (d ∷ t) h k = k
append-IsComplete (c ∷ d ∷ s) t h k = append-IsComplete (d ∷ s) t h k
