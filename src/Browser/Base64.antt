-- ===== src/Browser/Base64.antt =====
-- base64_decode (cdp_browser_manager.cpp), for screenshots. `val` is an `int` that is shifted left
-- without a bound: its 32-bit pattern is kept here, the rest falls off at the top.
mod BitOr
pub mod Roundtrip
pub mod Size
use Prim.Native.Nat.{bit_or}
use lynne_social.Prelude.{
  ℕ, zero, suc, ◌+◌, ◌-◌, ◌*◌, ◌/◌, ◌%◌, ◌^◌, ◌<◌, ◌≤◌, ◌≡◌, ◌≢◌, refl, ap, ◌∙◌, Bool, true, false,
  ◌||◌, ◌&&◌, Option, none, some, List, [], ◌∷◌, ◌++◌, Text, txt, ltb, leb, ◌==◌, if◌then◌else◌,
  arith, All, nat_eq, lookup,
}
use lynne_social.Prelude.Numerals.{is_space}

-- the first loop: `clean`
unfoldable pub strip_spaces : Text → Text
unfolding is_space
strip_spaces [] = []
strip_spaces (c ∷ s) = let rest = strip_spaces s in if is_space c then rest else c ∷ rest

abbrev chars : Text
chars = txt "ABCDEFGHIJKLMNOPQRSTUVWXYZabcdefghijklmnopqrstuvwxyz0123456789+/"

-- strchr from `i`: the terminating zero byte is found too
unfoldable pub index_from : ℕ → ℕ → Text → Option ℕ
index_from i c [] = if c == 0 then some i else none
index_from i c (d ∷ s) = let rest = index_from (suc i) c s in if c == d then some i else rest

unfoldable pub digit : ℕ → Option ℕ
unfolding index_from
digit c = index_from 0 c chars

-- `bits` counts from -8: the state keeps bits + 8
unfoldable pub decode_loop : ℕ → ℕ → Text → List ℕ
unfolding digit
decode_loop val bits [] = []
decode_loop val bits (c ∷ s) =
    let skip = decode_loop val bits s in
    let take_digit = λ (k : ℕ).
      let val' = bit_or (val * 2 ^ 6 % 2 ^ 32) k in
      let bits' = bits + 6 in
      let emit = (val' / 2 ^ (bits' - 8)) % 256 ∷ decode_loop val' (bits' - 8) s in
      let wait = decode_loop val' bits' s in if leb 8 bits' then emit else wait in
    if c == b'=' then [] else elim (digit c) [ none ↦ skip | some k ↦ take_digit k ]

unfoldable pub base64_decode : Text → List ℕ
unfolding strip_spaces decode_loop
base64_decode input = decode_loop 0 0 (strip_spaces input)

base64_hello : base64_decode (txt "aGV sbG8=") ≡ txt "hello"
unfolding base64_decode txt
base64_hello = refl
