-- ===== src/Browser/Base64/Roundtrip.antt =====
-- base64_decode (wheel/browser/imp/cdp_browser_manager.cpp) against the encoding of RFC 4648, for
-- data of any length.
use Prim.Native.Nat.{bit_or}
use lynne_social.Prelude.{
  ℕ, zero, suc, ◌+◌, ◌-◌, ◌*◌, ◌/◌, ◌%◌, ◌^◌, ◌<◌, ◌≡◌, refl, ap, ◌∙◌, Bool, true, false, not, ◌&&◌,
  Option, none, some, List, [], ◌∷◌, Text, txt, leb, ◌==◌, if◌then◌else◌, arith, All, Bool-cases,
  inl, inr,
}
use lynne_social.Browser.Base64.{base64_decode, decode_loop, strip_spaces, digit, chars}
use lynne_social.Prelude.Numerals.{is_space}
use lynne_social.Browser.Base64.BitOr.{bit_or_six}

abbrev nth : ℕ → Text → ℕ
nth i [] = 0
nth zero (c ∷ s) = c
nth (suc i) (c ∷ s) = nth i s

-- The character of a digit below 64.
unfoldable pub char : ℕ → ℕ
unfolding txt
char k = nth k chars

-- RFC 4648, section 4.
unfoldable pub encode : List ℕ → Text
unfolding char
encode [] = []
encode (x ∷ []) = char (x / 4) ∷ char (x % 4 * 16) ∷ b'=' ∷ b'=' ∷ []
encode (x ∷ y ∷ []) = char (x / 4) ∷ char (x % 4 * 16 + y / 16) ∷ char (y % 16 * 4) ∷ b'=' ∷ []
encode (x ∷ y ∷ z ∷ rest) =
    char (x / 4)
    ∷ char (x % 4 * 16 + y / 16)
    ∷ char (y % 16 * 4 + z / 64)
    ∷ char (z % 64)
    ∷ encode rest

-- A digit's character is read as that digit, and is no space and no padding.
abbrev is_digit : Option ℕ → ℕ → Bool
is_digit none k = false
is_digit (some i) k = i == k

good_char : ℕ → Bool
good_char k = is_digit (digit (char k)) k && (not (char k == b'=') && not (is_space (char k)))

all_good : ℕ → Bool
all_good zero = true
all_good (suc n) = good_char n && all_good n

all_good_sound : (n k : ℕ) → all_good n ≡ true → k < n → good_char k ≡ true
unfolding all_good
all_good_sound zero k h lt = absurd (omega arith)
all_good_sound (suc n) k h lt = elim (Bool-cases (k == n)) [
  | inl e ↦ ground arith
  | inr e ↦ all_good_sound n k (ground arith) (ground arith)
]

all_good_table : all_good 64 ≡ true
unfolding all_good good_char char digit is_space txt
all_good_table = refl

good : (k : ℕ) → k < 64 → good_char k ≡ true
good k h = all_good_sound 64 k all_good_table h

module _ (k : ℕ) (small : k < 64) where
  digit-char : digit (char k) ≡ some k
  digit-char = unfold good_char in ground (arith, good k small)

  char-not_padding : (char k == b'=') ≡ false
  char-not_padding = unfold good_char in ground (arith, good k small)

  char-not_space : is_space (char k) ≡ false
  char-not_space = unfold good_char in ground (arith, good k small)

abbrev shift_in : ℕ → ℕ → ℕ
shift_in v k = v % 2 ^ 26 * 64 + k

shifted : (v k : ℕ) → k < 64 → bit_or (v * 2 ^ 6 % 2 ^ 32) k ≡ shift_in v k
shifted v k small = ap (λ a. bit_or a k) top ∙ bit_or_six (v % 2 ^ 26) k small
  where
    top : v * 2 ^ 6 % 2 ^ 32 ≡ v % 2 ^ 26 * 64
    top = omega arith

abbrev fed : ℕ → ℕ → Text → List ℕ
fed val bits s =
    if leb 8 bits
    then (val / 2 ^ (bits - 8)) % 256 ∷ decode_loop val (bits - 8) s
    else decode_loop val bits s

decode_digit :
    (v b k : ℕ) (s : Text) → k < 64 → decode_loop v b (char k ∷ s) ≡ fed (shift_in v k) (b + 6) s
unfolding decode_loop
decode_digit v b k s small =
    rw (char-not_padding k small, digit-char k small, shifted v k small) refl

-- The byte that completes at the second, the third and the fourth digit of a group.
second_byte : (v a b : ℕ) → a < 64 → b < 64 → shift_in (shift_in v a) b / 16 % 256 ≡ a * 4 + b / 16
second_byte v a b ha hb = omega arith

third_byte :
    (v b c : ℕ) → b < 64 → c < 64 → shift_in (shift_in v b) c / 4 % 256 ≡ b % 16 * 16 + c / 4
third_byte v b c hb hc = omega arith

fourth_byte : (v c d : ℕ) → c < 64 → d < 64 → shift_in (shift_in v c) d / 1 % 256 ≡ c % 4 * 64 + d
fourth_byte v c d hc hd = omega arith

-- Four digits give three bytes, whatever stood in `val`.
decode_four :
    (v a b c d : ℕ) (s : Text)
    → a < 64
    → b < 64
    → c < 64
    → d < 64
    → (v' : ℕ) × (decode_loop v 0 (char a ∷ char b ∷ char c ∷ char d ∷ s)
        ≡ (a * 4 + b / 16) ∷ (b % 16 * 16 + c / 4) ∷ (c % 4 * 64 + d) ∷ decode_loop v' 0 s)
decode_four v a b c d s ha hb hc hd =
    let v1 = shift_in v a in
    let v2 = shift_in v1 b in
    let v3 = shift_in v2 c in
    let v4 = shift_in v3 d in
    (
      v4,
      rw
          (
            decode_digit v 0 a (char b ∷ char c ∷ char d ∷ s) ha,
            decode_digit v1 6 b (char c ∷ char d ∷ s) hb,
            decode_digit v2 4 c (char d ∷ s) hc,
            decode_digit v3 2 d s hd,
          )
          (λ i.
            second_byte v a b ha hb i
            ∷ third_byte v1 b c hb hc i
            ∷ fourth_byte v2 c d hc hd i
            ∷ decode_loop v4 0 s),
    )

abbrev pub IsByte : ℕ → Type 0
IsByte x = x < 256

-- The end of the input: two digits and padding give one byte, three give two.
decode_two :
    (v a b : ℕ) (s : Text)
    → a < 64
    → b < 64
    → decode_loop v 0 (char a ∷ char b ∷ b'=' ∷ s) ≡ (a * 4 + b / 16) ∷ []
decode_two v a b s ha hb =
    rw (decode_digit v 0 a (char b ∷ b'=' ∷ s) ha, decode_digit (shift_in v a) 6 b (b'=' ∷ s) hb)
      (unfold decode_loop in λ i. second_byte v a b ha hb i ∷ [])

decode_three :
    (v a b c : ℕ) (s : Text)
    → a < 64
    → b < 64
    → c < 64
    → decode_loop v 0 (char a ∷ char b ∷ char c ∷ b'=' ∷ s)
      ≡ (a * 4 + b / 16) ∷ (b % 16 * 16 + c / 4) ∷ []
decode_three v a b c s ha hb hc =
    rw
      (
        decode_digit v 0 a (char b ∷ char c ∷ b'=' ∷ s) ha,
        decode_digit (shift_in v a) 6 b (char c ∷ b'=' ∷ s) hb,
        decode_digit (shift_in (shift_in v a) b) 4 c (b'=' ∷ s) hc,
      )
      (unfold decode_loop in
        λ i. second_byte v a b ha hb i ∷ third_byte (shift_in v a) b c hb hc i ∷ [])

decode_loop-encode :
    (v : ℕ) (bytes : List ℕ) → All IsByte bytes → decode_loop v 0 (encode bytes) ≡ bytes
unfolding encode
decode_loop-encode v [] h = unfold decode_loop in refl
decode_loop-encode v (x ∷ []) h =
    decode_two v (x / 4) (x % 4 * 16) _ (omega arith) (omega arith) ∙ (λ i. one_byte i ∷ [])
  where
    one_byte : x / 4 * 4 + x % 4 * 16 / 16 ≡ x
    one_byte = omega arith
decode_loop-encode v (x ∷ y ∷ []) h =
    decode_three v (x / 4) (x % 4 * 16 + y / 16) (y % 16 * 4) _ (omega arith) (omega arith)
      (omega arith)
    ∙ (λ i. left i ∷ right i ∷ [])
  where
    left : x / 4 * 4 + (x % 4 * 16 + y / 16) / 16 ≡ x
    left = omega arith

    right : (x % 4 * 16 + y / 16) % 16 * 16 + y % 16 * 4 / 4 ≡ y
    right = omega arith
decode_loop-encode v (x ∷ y ∷ z ∷ rest) h =
    let (v', four) =
      decode_four v (x / 4) (x % 4 * 16 + y / 16) (y % 16 * 4 + z / 64) (z % 64) (encode rest)
        (omega arith) (omega arith) (omega arith) (omega arith) in
    let more = decode_loop-encode v' rest h.1.1.1 in
    four ∙ (λ i. left i ∷ middle i ∷ right i ∷ more i)
  where
    left : x / 4 * 4 + (x % 4 * 16 + y / 16) / 16 ≡ x
    left = omega arith

    middle : (x % 4 * 16 + y / 16) % 16 * 16 + (y % 16 * 4 + z / 64) / 4 ≡ y
    middle = omega arith

    right : (y % 16 * 4 + z / 64) % 4 * 64 + z % 64 ≡ z
    right = omega arith

-- A text that, white space left out, is the encoding of some bytes by RFC 4648 is decoded by
-- base64_decode to these bytes.
pub base64_decode-encode :
    (input : Text) (bytes : List ℕ)
    → All IsByte bytes
    → strip_spaces input ≡ encode bytes
    → base64_decode input ≡ bytes
unfolding base64_decode
base64_decode-encode input bytes h e = rw e (decode_loop-encode 0 bytes h)
