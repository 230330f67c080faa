-- ===== src/Prelude/Numerals.antt =====
-- Numbers as texts: std::isspace, std::stoi and std::to_string.
use Prim.Native.Nat.{ℕ, zero, suc, ◌+◌, ◌-◌, ◌*◌, ◌/◌, ◌%◌, ◌^◌, ◌≤◌, ◌<◌}
use mathlib.Core.Path.{◌≡◌}
use mathlib.Core.Bool.{Bool, true, false, ◌&&◌, ◌||◌}
use mathlib.Core.Option.{Option, none, some}
use mathlib.Core.Logic.{inl, inr}
use mathlib.Core.List.{[], ◌∷◌, ◌++◌, append_assoc, append-nil}
use native.Mathlib.Omega.{arith}
use lynne_social.Prelude.Tests.{◌==◌, if◌then◌else◌, ltb, leb, Bool-cases, ltb→lt}
use lynne_social.Prelude.Lists.{All, All-append}
use lynne_social.Prelude.Strings.{Text}
use lynne_social.Prelude.Int.{ℤ, pos, negsuc}

-- std::isspace in the C locale
unfoldable pub is_space : ℕ → Bool
is_space c = c == 32 || (leb 9 c && leb c 13)

abbrev is_digit : ℕ → Bool
is_digit c = leb b'0' c && leb c b'9'

-- The digits at the front, as a number; `seen` says that there was one.
abbrev digits : Bool → ℕ → Text → Option ℕ
digits seen n [] = if seen then some n else none
digits seen n (c ∷ s) =
    let rest = digits true (n * 10 + (c - b'0')) s in
    if is_digit c then rest else if seen then some n else none

abbrev positive : Option ℕ → Option ℤ
positive none = none
positive (some n) = if ltb n 2147483648 then some (pos n) else none

abbrev negated : ℕ → ℤ
negated zero = pos zero
negated (suc n) = negsuc n

abbrev negative : Option ℕ → Option ℤ
negative none = none
negative (some n) = if leb n 2147483648 then some (negated n) else none

-- std::stoi: `none` for an exception
unfoldable pub stoi : Text → Option ℤ
unfolding is_space
stoi [] = none
stoi (c ∷ s) =
    let rest = stoi s in
    if is_space c
    then rest
    else if c == b'-'
    then negative (digits false 0 s)
    else if c == b'+'
    then positive (digits false 0 s)
    else positive (digits false 0 (c ∷ s))

-- std::to_string on numbers; a number below 10 to the power of the fuel is written in full
unfoldable pub decimal : ℕ → ℕ → Text
decimal zero n = []
decimal (suc f) n =
    let rest = decimal f (n / 10) in
    if ltb n 10 then (n + 48) ∷ [] else rest ++ ((n % 10 + 48) ∷ [])

-- An `int` has ten digits at most.
unfoldable pub to_string : ℤ → Text
unfolding decimal
to_string (pos n) = decimal 10 n
to_string (negsuc n) = b'-' ∷ decimal 10 (suc n)

-- A number below 10 to the power of the fuel is read back, and what follows it is left.
digits-decimal :
    (f n : ℕ) (seen : Bool) (r : Text)
    → n < 10 ^ suc f
    → digits seen 0 (decimal (suc f) n ++ r) ≡ digits true n r
unfolding decimal
digits-decimal zero n seen r h = ground arith
digits-decimal (suc f) n seen r h = ground (
  arith,
  append_assoc (decimal (suc f) (n / 10)) ((n % 10 + 48) ∷ []) r,
  digits-decimal f (n / 10) seen ((n % 10 + 48) ∷ r),
)

-- A text that starts with a digit.
abbrev IsNumeral : Text → Type 0
IsNumeral [] = ⊥
IsNumeral (c ∷ s) = (48 ≤ c) × (c ≤ 57)

append-IsNumeral : (s t : Text) → IsNumeral s → IsNumeral (s ++ t)
append-IsNumeral [] t h = absurd h
append-IsNumeral (c ∷ s) t h = h

decimal-IsNumeral : (f n : ℕ) → IsNumeral (decimal (suc f) n)
unfolding decimal
decimal-IsNumeral zero n = ground arith
decimal-IsNumeral (suc f) n = elim (Bool-cases (ltb n 10)) [
  | inl e ↦ rw e (omega (arith, ltb→lt n 10 e))
  | inr e ↦ rw e (
      append-IsNumeral (decimal (suc f) (n / 10)) ((n % 10 + 48) ∷ [])
        (decimal-IsNumeral f (n / 10)))
]

stoi-IsNumeral : (s : Text) → IsNumeral s → stoi s ≡ positive (digits false 0 s)
unfolding stoi is_space
stoi-IsNumeral [] h = absurd h
stoi-IsNumeral (c ∷ s) h = ground arith

-- std::stoi reads what std::to_string wrote for an `int` that is not negative.
pub stoi-to_string : (n : ℕ) → n < 2147483648 → stoi (to_string (pos n)) ≡ some (pos n)
unfolding to_string
stoi-to_string n h =
    rw
      (
        stoi-IsNumeral (decimal 10 n) (decimal-IsNumeral 9 n),
        ← append-nil (decimal 10 n),
        digits-decimal 9 n false [] (omega arith),
      )
      (ground arith)

decimal_digits : (f n : ℕ) → All (λ c. 48 ≤ c) (decimal f n)
unfolding decimal
decimal_digits zero n = tt
decimal_digits (suc f) n = elim (Bool-cases (ltb n 10)) [
  | inl e ↦ rw e (omega arith, tt)
  | inr e ↦ rw e (
      All-append (λ c. 48 ≤ c) (decimal f (n / 10)) ((n % 10 + 48) ∷ []) (decimal_digits f (n / 10))
        (omega arith, tt))
]

-- Every byte of it is a digit.
pub to_string_digits : (n : ℕ) → All (λ c. 48 ≤ c) (to_string (pos n))
unfolding to_string
to_string_digits n = decimal_digits 10 n
