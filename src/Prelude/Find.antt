-- ===== src/Prelude/Find.antt =====
-- std::string::find of one byte.
use Prim.Native.Nat.{ℕ}
use mathlib.Core.Path.{◌≡◌, refl}
use mathlib.Core.Logic.{◌≢◌}
use mathlib.Core.Option.{Option, none, some}
use mathlib.Core.List.{[], ◌∷◌, ◌++◌}
use native.Mathlib.Omega.{arith}
use lynne_social.Prelude.Tests.{◌==◌, if◌then◌else◌}
use lynne_social.Prelude.Lists.{All}
use lynne_social.Prelude.Strings.{Text}

-- find(c): what stands before the first `c`, and what follows it
unfoldable pub split_at : ℕ → Text → Option (Text × Text)
split_at c [] = none
split_at c (d ∷ s) =
    let rest = split_at c s in
    if d == c
    then some ([], s)
    else elim rest [ none ↦ none | some (before, after) ↦ some (d ∷ before, after) ]

-- A text without a byte.
abbrev pub Without : ℕ → Text → Type 0
Without c s = All (λ d. d ≢ c) s

pub split_at-none : (c : ℕ) (s : Text) → Without c s → split_at c s ≡ none
unfolding split_at
split_at-none c [] h = refl
split_at-none c (d ∷ s) h = ground (arith, split_at-none c s h.1, h.0)

pub split_at-first : (c : ℕ) (s t : Text) → Without c s → split_at c (s ++ (c ∷ t)) ≡ some (s, t)
unfolding split_at
split_at-first c [] t h = ground arith
split_at-first c (d ∷ s) t h = rw (split_at-first c s t h.1) (ground (arith, h.0))
