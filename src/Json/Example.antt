-- ===== src/Json/Example.antt =====
-- `Value` with its text as a value of `JsonLib`: the laws can be met together.
use lynne_social.Prelude.{
  ℕ, ◌≡◌, refl, ap, Bool, true, false, Option, none, some, List, [], ◌∷◌, Text, text_eq_instance,
  lookup, ℤ, pos, ◌∙◌, erase, Distinct, lookup-erase, lookup-erase_self, arith,
}
use lynne_social.Json.{JsonLib, value_of}
use lynne_social.Json.Value.{
  Value, null, end, bool, int, str, obj, arr, item, field, dump_value, parse_value, parse-code,
  dump-one_line, dump-ne-nil,
}

abbrev chain : List (Text × Value) → Value
chain [] = end
chain ((k, v) ∷ fs) = field k v (chain fs)

abbrev str_items : List Text → Value
str_items [] = end
str_items (s ∷ l) = item (str s) (str_items l)

abbrev fields : Value → List (Text × Value)
fields (field k v w) = (k, v) ∷ fields w
fields _ = []

abbrev cells : Value → List Value
cells (item v w) = v ∷ cells w
cells _ = []

-- Only the first member of a key counts.
abbrev first_only : List (Text × Value) → List (Text × Value)
first_only [] = []
first_only ((k, v) ∷ fs) = (k, v) ∷ erase k (first_only fs)

abbrev value_items : Value → List (Text × Value)
value_items (obj w) = first_only (fields w)
value_items _ = []

abbrev value_elements : Value → List Value
value_elements (arr w) = cells w
value_elements _ = []

abbrev is_obj : Value → Bool
is_obj (obj w) = true
is_obj _ = false

abbrev is_arr : Value → Bool
is_arr (arr w) = true
is_arr _ = false

abbrev is_nil : Value → Bool
is_nil null = true
is_nil _ = false

abbrev member : Text → Value → Option Value
member k v = lookup k (value_items v)

abbrev text_of : Value → Option Text
text_of (str s) = some s
text_of _ = none

abbrev int_of : Value → Option ℤ
int_of (int n) = some n
int_of _ = none

abbrev bool_of : Value → Option Bool
bool_of (bool b) = some b
bool_of _ = none

abbrev cons_text : Option Text → Option (List Text) → Option (List Text)
cons_text none l = none
cons_text (some s) none = none
cons_text (some s) (some l) = some (s ∷ l)

abbrev texts : List Value → Option (List Text)
texts [] = some []
texts (v ∷ l) = cons_text (text_of v) (texts l)

pub texts-str_items : (l : List Text) → texts (cells (str_items l)) ≡ some l
texts-str_items [] = refl
texts-str_items (s ∷ l) = rw (texts-str_items l)

abbrev texts_of : Value → Option (List Text)
texts_of (arr w) = texts (cells w)
texts_of _ = none

abbrev real_of : Value → Option ℕ
real_of (int (pos n)) = some n
real_of _ = none

fields-chain : (fs : List (Text × Value)) → fields (chain fs) ≡ fs
fields-chain [] = refl
fields-chain ((k, v) ∷ fs) = ap (λ l. (k, v) ∷ l) (fields-chain fs)

lookup-first_only : (k : Text) (fs : List (Text × Value)) → lookup k (first_only fs) ≡ lookup k fs
unfolding lookup
lookup-first_only k [] = refl
lookup-first_only k ((j, v) ∷ fs) =
    ground (arith, lookup-erase j k (first_only fs), lookup-first_only k fs)

erase-Distinct : (k : Text) (fs : List (Text × Value)) → Distinct fs → Distinct (erase k fs)
unfolding erase
erase-Distinct k [] h = tt
erase-Distinct k ((j, v) ∷ fs) h = ground (arith, erase-Distinct k fs h.1, lookup-erase k j fs, h.0)

first_only-Distinct : (fs : List (Text × Value)) → Distinct (first_only fs)
first_only-Distinct [] = tt
first_only-Distinct ((k, v) ∷ fs) =
    (lookup-erase_self k (first_only fs), erase-Distinct k (first_only fs) (first_only-Distinct fs))

pub member-object : (k : Text) (fs : List (Text × Value)) → member k (obj (chain fs)) ≡ lookup k fs
member-object k fs = ap (λ l. lookup k (first_only l)) (fields-chain fs) ∙ lookup-first_only k fs

pub items-Distinct : (v : Value) → is_obj v ≡ true → Distinct (value_items v)
items-Distinct (obj w) h = first_only-Distinct (fields w)
items-Distinct null h = cc
items-Distinct _ h = cc

pub member-not_object : (k : Text) (v : Value) → is_obj v ≡ false → member k v ≡ none
unfolding lookup
member-not_object k (obj w) h = cc
member-not_object k null h = refl
member-not_object k _ h = refl

-- A bare `end` stands for a value that cannot be dumped, as one with a broken UTF-8 text.
abbrev pub careful_dump : Value → Option Text
careful_dump end = none
careful_dump v = dump_value v

pub careful_dump_lem : (v : Value) (t : Text) → careful_dump v ≡ some t → dump_value v ≡ some t
careful_dump_lem end t h = cc
careful_dump_lem _ t h = h

-- Numbers of tenths stand for `double`.
abbrev pub example : JsonLib
example = record {
  Json = Value;
  Double = ℕ;
  null = null;
  object = λ fs. obj (chain fs);
  str = str;
  int = int;
  bool = bool;
  strs = λ l. arr (str_items l);
  real = λ n. int (pos n);
  seven_tenths = 7;
  parse = parse_value;
  dump = dump_value;
  dump_pretty = careful_dump;
  is_null = is_nil;
  is_object = is_obj;
  is_array = is_arr;
  find = member;
  items = value_items;
  elements = value_elements;
  get_str = text_of;
  get_int = int_of;
  get_bool = bool_of;
  get_strs = texts_of;
  get_real = real_of;
  value_str = λ j k d. value_of (is_obj j) d (member k j) text_of;
  value_int = λ j k d. value_of (is_obj j) d (member k j) int_of;
  value_bool = λ j k d. value_of (is_obj j) d (member k j) bool_of;
  value_real = λ j k d. value_of (is_obj j) d (member k j) real_of;
  value_str_lem = λ j k d. refl;
  value_int_lem = λ j k d. refl;
  value_bool_lem = λ j k d. refl;
  value_real_lem = λ j k d. refl;
  is_object-object = λ fs. refl;
  find-object = member-object;
  find-items = λ k j h. refl;
  items-Distinct = items-Distinct;
  find-not_object = member-not_object;
  is_null-null = refl;
  is_null-object = λ fs. refl;
  get_str-str = λ s. refl;
  get_int-int = λ n. refl;
  get_bool-bool = λ b. refl;
  get_strs-strs = texts-str_items;
  parse-dump = parse-code;
  parse-dump_pretty = λ v t h. parse-code v t (careful_dump_lem v t h);
  dump-one_line = dump-one_line;
  dump-ne-nil = dump-ne-nil;
  dump_pretty-ne-nil = λ v t h. dump-ne-nil v t (careful_dump_lem v t h);
}
