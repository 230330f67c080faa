-- ===== src/Json/Value.antt =====
-- A value type with a prefix code for its text, which meets the laws of `JsonLib`. It serves the
-- examples only: the text that the library writes is another one.
use mathlib.Core.Path.{subst}
use mathlib.Core.List.{append-nil, append_assoc}
use lynne_social.Prelude.{
  ℕ, zero, suc, ◌+◌, ◌-◌, ◌<◌, ◌≤◌, ◌≡◌, refl, ap, ◌∙◌, ◌≢◌, Bool, true, false, Option, none, some,
  [], ◌∷◌, ◌++◌, Text, ℤ, pos, negsuc, All, All-append, arith, ◌==◌, if◌then◌else◌, length,
  length-append,
}

-- `obj` and `arr` hold a chain of `field` or `item` cells that `end` closes.
pub data Value : Type 0 where
  null end : Value
  bool : Bool → Value
  int : ℤ → Value
  str : Text → Value
  obj arr : Value → Value
  item : Value → Value → Value
  field : Text → Value → Value → Value

-- A text in the code: every byte shifted past the marks, and a closing mark.
code_text : Text → Text
code_text [] = 11 ∷ []
code_text (c ∷ s) = (c + 12) ∷ code_text s

abbrev code_bool : Bool → ℕ
code_bool false = 12
code_bool true = 13

unfoldable pub code : Value → Text
unfolding code_text
code null = 1 ∷ []
code end = 2 ∷ []
code (bool b) = 3 ∷ code_bool b ∷ []
code (int (pos n)) = 4 ∷ (n + 12) ∷ []
code (int (negsuc n)) = 5 ∷ (n + 12) ∷ []
code (str s) = 6 ∷ code_text s
code (obj v) = 7 ∷ code v
code (arr v) = 8 ∷ code v
code (item v w) = 9 ∷ (code v ++ code w)
code (field k v w) = 14 ∷ (code_text k ++ (code v ++ code w))

decode_text : Text → Option (Text × Text)
decode_text [] = none
decode_text (c ∷ s) =
    let rest = decode_text s in
    if c == 11
    then some ([], s)
    else elim rest [ none ↦ none | some (t, r) ↦ some ((c - 12) ∷ t, r) ]

decode_text-code_text : (s r : Text) → decode_text (code_text s ++ r) ≡ some (s, r)
unfolding decode_text code_text
decode_text-code_text [] r = refl
decode_text-code_text (c ∷ s) r = ground (arith, decode_text-code_text s r)

infixl 5 ◌>>=◌
abbrev ◌>>=◌ {ℓ κ} : {A : Type ℓ} {B : Type κ} → Option A → (A → Option B) → Option B
none >>= f = none
some a >>= f = f a

abbrev wrap : (Value → Value) → Value × Text → Option (Value × Text)
wrap f (v, r) = some (f v, r)

abbrev number : (ℕ → Value) → Text → Option (Value × Text)
number f [] = none
number f (c ∷ s) = some (f (c - 12), s)

abbrev flag : ℕ → Bool
flag c = c == 13

decode : ℕ → Text → Option (Value × Text)
unfolding decode_text
decode zero s = none
decode (suc f) [] = none
decode (suc f) (t ∷ s) =
    let rest = decode f s in
    if t == 1
    then some (null, s)
    else if t == 2
    then some (end, s)
    else if t == 3
    then number (λ c. bool (c == 1)) s
    else if t == 4
    then number (λ n. int (pos n)) s
    else if t == 5
    then number (λ n. int (negsuc n)) s
    else if t == 6
    then (decode_text s >>= λ (k, r). some (str k, r))
    else if t == 7
    then (rest >>= wrap obj)
    else if t == 8
    then (rest >>= wrap arr)
    else if t == 9
    then (rest >>= λ (v, r). decode f r >>= wrap (item v))
    else if t == 14
    then (decode_text s >>= λ (k, r). decode f r >>= λ (v, r'). decode f r' >>= wrap (field k v))
    else none

code_pos : (v : Value) → 0 < length (code v)
unfolding code
code_pos null = omega arith
code_pos (int (pos n)) = omega arith
code_pos (int (negsuc n)) = omega arith
code_pos _ = omega arith

decode-code :
    (f : ℕ) (v : Value) (r : Text) → length (code v) ≤ f → decode f (code v ++ r) ≡ some (v, r)
unfolding decode code
decode-code zero v r h = absurd (omega (arith, code_pos v))
decode-code (suc f) null r h = refl
decode-code (suc f) end r h = refl
decode-code (suc f) (bool false) r h = refl
decode-code (suc f) (bool true) r h = refl
decode-code (suc f) (int (pos n)) r h = ground arith
decode-code (suc f) (int (negsuc n)) r h = ground arith
decode-code (suc f) (str s) r h = rw (decode_text-code_text s r)
decode-code (suc f) (obj v) r h = rw (decode-code f v r (omega arith))
decode-code (suc f) (arr v) r h = rw (decode-code f v r (omega arith))
decode-code (suc f) (item v w) r h =
    let total = length-append (code v) (code w) in
    rw (
      append_assoc (code v) (code w) r,
      decode-code f v (code w ++ r) (omega arith),
      decode-code f w r (omega arith),
    )
decode-code (suc f) (field k v w) r h =
    let total = length-append (code_text k) (code v ++ code w) in
    let inner = length-append (code v) (code w) in
    rw (
      append_assoc (code_text k) (code v ++ code w) r,
      append_assoc (code v) (code w) r,
      decode_text-code_text k (code v ++ (code w ++ r)),
      decode-code f v (code w ++ r) (omega arith),
      decode-code f w r (omega arith),
    )

-- The text of a value, and back.
abbrev pub dump_value : Value → Option Text
dump_value v = some (code v)

abbrev drop_rest : Option (Value × Text) → Option Value
drop_rest none = none
drop_rest (some (v, r)) = some v

unfoldable pub parse_value : Text → Option Value
unfolding decode
parse_value t = drop_rest (decode (length t) t)

parse-code_self : (v : Value) → parse_value (code v) ≡ some v
unfolding parse_value
parse-code_self v =
    rw (append-nil (code v)) at
      (ap drop_rest (decode-code (length (code v ++ [])) v [] (omega (arith, same))))
  where
    same : length (code v ++ []) ≡ length (code v)
    same = ap length (append-nil (code v))

dumped : (v : Value) (t : Text) → dump_value v ≡ some t → code v ≡ t
dumped v t h = cc

pub parse-code : (v : Value) (t : Text) → dump_value v ≡ some t → parse_value t ≡ some v
parse-code v t h = subst (λ s. parse_value s ≡ some v) (dumped v t h) (parse-code_self v)

code_text-one_line : (s : Text) → All (λ c. c ≢ 10) (code_text s)
unfolding code_text
code_text-one_line [] = omega arith
code_text-one_line (c ∷ s) = (omega arith, code_text-one_line s)

code-one_line : (v : Value) → All (λ c. c ≢ 10) (code v)
unfolding code
code-one_line null = omega arith
code-one_line end = omega arith
code-one_line (bool false) = omega arith
code-one_line (bool true) = omega arith
code-one_line (int (pos n)) = omega arith
code-one_line (int (negsuc n)) = omega arith
code-one_line (str s) = (omega arith, code_text-one_line s)
code-one_line (obj v) = (omega arith, code-one_line v)
code-one_line (arr v) = (omega arith, code-one_line v)
code-one_line (item v w) =
    (omega arith, All-append _ (code v) (code w) (code-one_line v) (code-one_line w))
code-one_line (field k v w) = (
  omega arith,
  All-append _ (code_text k) (code v ++ code w) (code_text-one_line k)
      (All-append _ (code v) (code w) (code-one_line v) (code-one_line w)),
)

pub dump-one_line : (v : Value) (t : Text) → dump_value v ≡ some t → All (λ c. c ≢ 10) t
dump-one_line v t h = subst (All (λ c. c ≢ 10)) (dumped v t h) (code-one_line v)

pub dump-ne-nil : (v : Value) (t : Text) → dump_value v ≡ some t → t ≢ []
dump-ne-nil v t h e = omega (arith, code_pos v, ap (λ (u : Text). length u) (dumped v t h ∙ e))
