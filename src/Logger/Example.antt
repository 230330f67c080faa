-- ===== src/Logger/Example.antt =====
-- The calls of spdlog over an association list: the laws of `Spdlog` can be met together.
use lynne_social.Prelude.{
  ℕ, ◌≡◌, refl, Option, none, some, List, Text, txt, text_eq, leb, text_eq_instance, lookup, erase,
  insert, lookup-erase_self, lookup-insert_self, if◌then◌else◌,
}
use lynne_social.Logger.{Spdlog}

-- The numbers of the levels; an unknown name turns the logger off.
abbrev level_of : Text → ℕ
level_of s =
    if text_eq s (txt "debug")
    then 1
    else if text_eq s (txt "info")
    then 2
    else if text_eq s (txt "warn")
    then 3
    else if text_eq s (txt "error")
    then 4
    else 6

abbrev add :
    Text
    → ℕ × Text
    → List (Text × (ℕ × Text))
    → Option (ℕ × Text)
    → Option (List (Text × (ℕ × Text)))
add n l r none = some (insert n l r)
add n l r (some old) = none

pub add_taken :
    (n : Text) (l m : ℕ × Text) (r : List (Text × (ℕ × Text)))
    → lookup n r ≡ some m
    → add n l r (lookup n r) ≡ none
add_taken n l m r h = rw h

pub add_free :
    (n : Text) (l : ℕ × Text) (r : List (Text × (ℕ × Text)))
    → lookup n r ≡ none
    → (t : List (Text × (ℕ × Text))) × (add n l r (lookup n r) ≡ some t) × (lookup n t ≡ some l)
add_free n l r h = (insert n l r, rw h, lookup-insert_self n l r)

pub debug_name : level_of (txt "debug") ≡ 1
unfolding txt text_eq
debug_name = refl

pub info_name : level_of (txt "info") ≡ 2
unfolding txt text_eq
info_name = refl

pub warn_name : level_of (txt "warn") ≡ 3
unfolding txt text_eq
warn_name = refl

pub error_name : level_of (txt "error") ≡ 4
unfolding txt text_eq
error_name = refl

abbrev pub example : Spdlog
example = record {
  Level = ℕ;
  level_debug = 1;
  level_info = 2;
  level_warn = 3;
  level_err = 4;
  from_str = level_of;
  should_log = leb;
  Registry = List (Text × (ℕ × Text));
  get = lookup;
  register_logger = λ n l r. add n l r (lookup n r);
  drop = erase;
  register_logger-taken = add_taken;
  register_logger-free = add_free;
  get-drop = lookup-erase_self;
  from_str-debug = debug_name;
  from_str-info = info_name;
  from_str-warn = warn_name;
  from_str-error = error_name;
  rank = λ l. l;
  should_log_lem = λ a b. refl;
  rank_debug = refl;
  rank_info = refl;
  rank_warn = refl;
  rank_err = refl;
}
