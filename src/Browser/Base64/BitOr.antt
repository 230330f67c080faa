-- ===== src/Browser/Base64/BitOr.antt =====
-- Arithmetic for base64_decode: `|` of a number shifted by six places and a six-bit digit.
use Prim.Native.Nat.{bit_or, max, digits, bit_or-bitwise}
use lynne_social.Prelude.{ℕ, zero, suc, ◌+◌, ◌*◌, ◌/◌, ◌%◌, ◌≤◌, ◌<◌, ◌≡◌, refl, ap, ◌∙◌, arith}

-- The digits that `bit_or` stands for, with the fuel that they take.
abbrev joined : ℕ → ℕ → ℕ → ℕ
joined fuel a b = digits (λ rest. rest) max fuel a b

-- Any fuel from `a` on gives the same digits.
joined-fuel : (a f g b : ℕ) → a ≤ f → a ≤ g → joined f a b ≡ joined g a b
joined-fuel a zero zero b p q = refl
joined-fuel zero zero (suc g) b p q = refl
joined-fuel zero (suc f) zero b p q = refl
joined-fuel zero (suc f) (suc g) b p q = refl
joined-fuel (suc a) zero g b p q = absurd (omega arith)
joined-fuel (suc a) (suc f) zero b p q = absurd (omega arith)
joined-fuel (suc a) (suc f) (suc g) b p q =
    omega (arith, joined-fuel (suc a / 2) f g (b / 2) (omega arith) (omega arith))

-- The lowest digit, and the others.
bit_or_low : (a b : ℕ) → bit_or a b ≡ bit_or (a / 2) (b / 2) * 2 + max (a % 2) (b % 2)
bit_or_low zero b = omega (arith, bit_or-bitwise 0 b, bit_or-bitwise 0 (b / 2))
bit_or_low (suc a) b = omega (
  arith,
  bit_or-bitwise (suc a) b,
  bit_or-bitwise (suc a / 2) (b / 2),
  joined-fuel (suc a / 2) a (suc a / 2) (b / 2) (omega arith) (omega arith),
)

bit_or-zero_below : (bound a : ℕ) → a ≤ bound → bit_or a 0 ≡ a
bit_or-zero_below bound zero h = refl
bit_or-zero_below zero (suc a) h = absurd (omega arith)
bit_or-zero_below (suc bound) (suc a) h =
    omega (arith, bit_or_low (suc a) 0, bit_or-zero_below bound (suc a / 2) (omega arith))

-- One place: an even number and a digit.
bit_or_double : (q k s : ℕ) → bit_or q (k / 2) ≡ s → bit_or (q * 2) k ≡ s * 2 + k % 2
bit_or_double q k s h =
    let below : q * 2 / 2 ≡ q = omega arith in rw (bit_or_low (q * 2) k, below, h) (omega arith)

-- `n` places.
abbrev doubled : ℕ → ℕ → ℕ
doubled zero q = q
doubled (suc n) q = doubled n q * 2

abbrev Fits : ℕ → ℕ → Type 0
Fits zero k = k ≡ 0
Fits (suc n) k = Fits n (k / 2)

bit_or-doubled : (n q k : ℕ) → Fits n k → bit_or (doubled n q) k ≡ doubled n q + k
bit_or-doubled zero q k h = rw h (bit_or-zero_below q q (omega arith) ∙ omega arith)
bit_or-doubled (suc n) q k h =
    bit_or_double (doubled n q) k (doubled n q + k / 2) (bit_or-doubled n q (k / 2) h) ∙ omega arith

pub bit_or_six : (q k : ℕ) → k < 64 → bit_or (q * 64) k ≡ q * 64 + k
bit_or_six q k small =
    ap (λ a. bit_or a k) places ∙ bit_or-doubled 6 q k (omega arith) ∙ omega arith
  where
    places : q * 64 ≡ doubled 6 q
    places = omega arith
