-- ===== src/Browser/Base64/Size.antt =====
-- How much base64_decode gives (cdp_browser_manager.cpp).
use Prim.Native.Nat.{bit_or}
use lynne_social.Prelude.{
  ℕ, ◌+◌, ◌-◌, ◌*◌, ◌/◌, ◌%◌, ◌^◌, ◌≤◌, ◌≡◌, none, some, [], ◌∷◌, Text, length, leb, ◌==◌,
  if◌then◌else◌, arith, Option-cases, inl, inr,
}
use lynne_social.Browser.Base64.{base64_decode, decode_loop, strip_spaces, digit}

-- A text of bits, as digits that bring six each, and bytes that take eight.
abbrev next_val : ℕ → ℕ → ℕ
next_val val k = bit_or (val * 2 ^ 6 % 2 ^ 32) k

decode_loop-digit :
    (val bits c k : ℕ) (s : Text)
    → digit c ≡ some k
    → decode_loop val bits (c ∷ s) ≡ (
        if c == b'='
        then []
        else if leb 8 (bits + 6)
        then (next_val val k / 2 ^ (bits + 6 - 8)) % 256
          ∷ decode_loop (next_val val k) (bits + 6 - 8) s
        else decode_loop (next_val val k) (bits + 6) s)
unfolding decode_loop
decode_loop-digit val bits c k s e = rw (e, decode_loop)

decode_loop_skip :
    (val bits c : ℕ) (s : Text)
    → digit c ≡ none
    → decode_loop val bits (c ∷ s) ≡ (if c == b'=' then [] else decode_loop val bits s)
unfolding decode_loop
decode_loop_skip val bits c s e = rw (e, decode_loop)

-- Each byte takes eight of the bits that wait, and each digit brings six.
decode_loop_size :
    (val bits : ℕ) (s : Text) → 8 * length (decode_loop val bits s) ≤ bits + 6 * length s
decode_loop_size val bits [] = unfold decode_loop in omega arith
decode_loop_size val bits (c ∷ s) = elim (Option-cases (digit c)) [
  | inl e ↦ rw (decode_loop_skip val bits c s e) (ground (arith, decode_loop_size val bits s))
  | inr (k, e) ↦ rw (decode_loop-digit val bits c k s e) (
      ground (
        arith,
        decode_loop_size (next_val val k) (bits + 6 - 8) s,
        decode_loop_size (next_val val k) (bits + 6) s,
      ))
]

-- base64_decode gives at most three bytes for four characters that are not white space, rounded
-- down: never more than it has reserved, whatever the input.
pub length-base64_decode-le :
    (input : Text) → length (base64_decode input) ≤ length (strip_spaces input) * 3 / 4
unfolding base64_decode
length-base64_decode-le input = omega (arith, decode_loop_size 0 0 (strip_spaces input))
