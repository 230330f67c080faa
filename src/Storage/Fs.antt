-- ===== src/Storage/Fs.antt =====
-- The part of the file system that storage uses: std::filesystem and the file streams. Paths are
-- texts, and the names . and .. are not resolved. A disk that is full or a path without permission is not modelled: streams open and write.
pub mod Laws
use lynne_social.Prelude.{
  ℕ, ◌≡◌, Bool, true, false, not, ◌&&◌, ◌||◌, Option, none, some, List, [], ◌∷◌, ◌++◌, Text, txt,
  text_eq, text_eq_instance, lookup, insert, select, ◌==◌, if◌then◌else◌, map,
}

pub record Disk : Type 0 where
  pub dirs : List Text
  pub files : List (Text × Text)

abbrev pub slash : ℕ
slash = b'/'

unfoldable pub has_slash : Text → Bool
has_slash [] = false
has_slash (c ∷ s) = c == slash || has_slash s

-- operator/ of std::filesystem::path
unfoldable pub join : Text → Text → Text
join dir (c ∷ s) = if c == slash then c ∷ s else dir ++ (slash ∷ (c ∷ s))
join dir [] = dir ++ (slash ∷ [])

-- The path and its ancestors below the working directory or the root.
unfoldable pub ancestors : Text → Text → List Text
ancestors seen [] = seen ∷ []
ancestors seen (c ∷ s) =
    let rest = ancestors (seen ++ (c ∷ [])) s in if c == slash then seen ∷ rest else rest

unfoldable pub mem_text : Text → List Text → Bool
mem_text s [] = false
mem_text s (t ∷ l) = text_eq t s || mem_text s l

unfoldable pub add_dirs : List Text → List Text → List Text
unfolding mem_text
add_dirs [] l = l
add_dirs (p ∷ ps) l = add_dirs ps (if mem_text p l then l else p ∷ l)

-- std::filesystem::create_directories
unfoldable pub create_directories : Text → Disk → Disk
unfolding add_dirs ancestors
create_directories path d = record d { dirs = add_dirs (ancestors [] path) d.dirs }

abbrev pub is_some {ℓ} : {A : Type ℓ} → Option A → Bool
is_some none = false
is_some (some a) = true

-- std::filesystem::exists
unfoldable pub exists : Text → Disk → Bool
unfolding mem_text
exists path d = mem_text path d.dirs || is_some (lookup path d.files)

abbrev pub or_empty : Option Text → Text
or_empty none = []
or_empty (some t) = t

-- the content that a stream reads
unfoldable pub content : Text → Disk → Text
content path d = or_empty (lookup path d.files)

-- std::ofstream f(path); f << text
unfoldable pub overwrite : Text → Text → Disk → Disk
overwrite path text d = record d { files = insert path text d.files }

-- std::ofstream f(path, std::ios::app); f << text
unfoldable pub append : Text → Text → Disk → Disk
unfolding content
append path text d = record d { files = insert path (content path d ++ text) d.files }

-- what follows `prefix` in a text
unfoldable pub strip_prefix : Text → Text → Option Text
strip_prefix [] s = some s
strip_prefix (c ∷ p) [] = none
strip_prefix (c ∷ p) (d ∷ s) = let rest = strip_prefix p s in if c == d then rest else none

-- the name of a path's entry directly in `dir`
abbrev pub plain_name : Option Text → Option Text
plain_name none = none
plain_name (some []) = none
plain_name (some (c ∷ s)) = if has_slash (c ∷ s) then none else some (c ∷ s)

unfoldable pub names_in : Text → List Text → List Text
unfolding strip_prefix has_slash
names_in dir [] = []
names_in dir (p ∷ ps) = elim (plain_name (strip_prefix (dir ++ (slash ∷ [])) p)) [
  | none ↦ names_in dir ps
  | some n ↦ n ∷ names_in dir ps
]
