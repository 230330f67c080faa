-- ===== src/Json.antt =====
-- The calls of nlohmann::json (third_party/nlohmann) that the program makes, as an interface: the
-- development takes a value of `JsonLib` as a parameter. Each law is documented behaviour.
-- `none` stands for a thrown exception, or for a discarded result where the code asks for that.
pub mod Value
pub mod Example
use lynne_social.Prelude.{
  ◌≡◌, ◌≢◌, Bool, true, false, Option, none, some, List, [], ◌∷◌, Text, text_eq_instance, lookup, ℤ,
  All, Distinct,
}

-- The documented result of `j.value(key, default)`: the member where there is one, converted; the
-- default where there is none; an exception where `j` is no object or the conversion throws.
abbrev pub value_of {ℓ κ} :
    {Json : Type ℓ} {A : Type κ} → Bool → A → Option Json → (Json → Option A) → Option A
value_of false d m get = none
value_of true d none get = some d
value_of true d (some v) get = get v

abbrev pub is_some {ℓ} : {A : Type ℓ} → Option A → Bool
is_some none = false
is_some (some a) = true

pub record JsonLib : Type 1 where
  pub Json : Type 0
  pub Double : Type 0
  -- construction
  pub null : Json
  pub object : List (Text × Json) → Json
  pub str : Text → Json
  pub int : ℤ → Json
  pub bool : Bool → Json
  pub strs : List Text → Json
  pub real : Double → Json
  -- the literal 0.7
  pub seven_tenths : Double
  -- text
  pub parse : Text → Option Json
  pub dump : Json → Option Text
  pub dump_pretty : Json → Option Text
  -- queries
  pub is_null : Json → Bool
  pub is_object : Json → Bool
  pub is_array : Json → Bool
  -- contains(key) and at(key) of an object; `none` for any other value
  pub find : Text → Json → Option Json
  pub items : Json → List (Text × Json)
  pub elements : Json → List Json
  pub get_str : Json → Option Text
  pub get_int : Json → Option ℤ
  pub get_bool : Json → Option Bool
  pub get_strs : Json → Option (List Text)
  pub get_real : Json → Option Double
  -- value(key, default) at the types of the default
  pub value_str : Json → Text → Text → Option Text
  pub value_int : Json → Text → ℤ → Option ℤ
  pub value_bool : Json → Text → Bool → Option Bool
  pub value_real : Json → Text → Double → Option Double
  -- laws
  pub value_str_lem :
      (j : Json) (k d : Text) → value_str j k d ≡ value_of (is_object j) d (find k j) get_str
  pub value_int_lem :
      (j : Json) (k : Text) (d : ℤ) → value_int j k d ≡ value_of (is_object j) d (find k j) get_int
  pub value_bool_lem :
      (j : Json) (k : Text) (d : Bool)
      → value_bool j k d ≡ value_of (is_object j) d (find k j) get_bool
  pub value_real_lem :
      (j : Json) (k : Text) (d : Double)
      → value_real j k d ≡ value_of (is_object j) d (find k j) get_real
  pub is_object-object : (fs : List (Text × Json)) → is_object (object fs) ≡ true
  pub find-object : (k : Text) (fs : List (Text × Json)) → find k (object fs) ≡ lookup k fs
  pub find-not_object : (k : Text) (j : Json) → is_object j ≡ false → find k j ≡ none
  -- iteration meets each member once
  pub find-items : (k : Text) (j : Json) → is_object j ≡ true → find k j ≡ lookup k (items j)
  pub items-Distinct : (j : Json) → is_object j ≡ true → Distinct (items j)
  pub is_null-null : is_null null ≡ true
  pub is_null-object : (fs : List (Text × Json)) → is_null (object fs) ≡ false
  pub get_str-str : (s : Text) → get_str (str s) ≡ some s
  pub get_int-int : (n : ℤ) → get_int (int n) ≡ some n
  pub get_bool-bool : (b : Bool) → get_bool (bool b) ≡ some b
  pub get_strs-strs : (l : List Text) → get_strs (strs l) ≡ some l
  pub parse-dump : (j : Json) (t : Text) → dump j ≡ some t → parse t ≡ some j
  pub parse-dump_pretty : (j : Json) (t : Text) → dump_pretty j ≡ some t → parse t ≡ some j
  -- a compact dump has no raw line break (10), and no dump is empty
  pub dump-one_line : (j : Json) (t : Text) → dump j ≡ some t → All (λ c. c ≢ 10) t
  pub dump-ne-nil : (j : Json) (t : Text) → dump j ≡ some t → t ≢ []
  pub dump_pretty-ne-nil : (j : Json) (t : Text) → dump_pretty j ≡ some t → t ≢ []

-- contains(key)
abbrev pub contains : (J : JsonLib) → J.Json → Text → Bool
contains J j k = is_some (J.find k j)
