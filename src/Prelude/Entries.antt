-- ===== src/Prelude/Entries.antt =====
-- Entries of maps with distinct keys: how many there are, and what holds of each.
use Prim.Native.Nat.{ℕ, suc, ◌<◌}
use mathlib.Core.Path.{◌≡◌, refl, sym, ap, ◌∙◌, subst}
use mathlib.Core.Logic.{inl, inr}
use mathlib.Core.Option.{none, some}
use mathlib.Core.List.{List, [], ◌∷◌}
use native.Mathlib.Omega.{arith}
use lynne_social.Prelude.Tests.{Bool-cases}
use lynne_social.Prelude.Lists.{length, All}
use lynne_social.Prelude.Assoc.{Eq, nat_eq, lookup, erase, lookup-erase, erase_missing, Distinct}

module _ {ℓ κ} {K : Type ℓ} {V : Type κ} ⦃e : Eq K⦄ where
  pub Distinct-erase : (k : K) (m : List (K × V)) → Distinct m → Distinct (erase k m)
  unfolding erase
  Distinct-erase k [] h = tt
  Distinct-erase k ((j, v) ∷ m) h = elim (Bool-cases (e.beq j k)) [
    | inl same ↦ rw same (Distinct-erase k m h.1)
    | inr other ↦ rw other (ground (arith, lookup-erase k j m, h.0), Distinct-erase k m h.1)
  ]

  pub length-erase_found :
      (k : K) (v : V) (m : List (K × V))
      → Distinct m
      → lookup k m ≡ some v
      → suc (length (erase k m)) ≡ length m
  unfolding lookup erase
  length-erase_found k v [] h f = cc
  length-erase_found k v ((j, w) ∷ m) h f = elim (Bool-cases (e.beq j k)) [
    | inl same ↦ rw same (
        ap (λ l. suc (length l))
          (erase_missing k m (ap (λ i. lookup i m) (sym ((e.beq_iff j k).0 same)) ∙ h.0)))
    | inr other ↦ rw other (ap (λ n. suc n) (length-erase_found k v m h.1 (rw (← f, other) refl)))
  ]

  module _ {μ} (P : K × V → Type μ) where
    pub All-erase : (k : K) (m : List (K × V)) → All P m → All P (erase k m)
    unfolding erase
    All-erase k [] h = tt
    All-erase k ((j, v) ∷ m) h = elim (Bool-cases (e.beq j k)) [
      | inl same ↦ rw same (All-erase k m h.1)
      | inr other ↦ rw other (h.0, All-erase k m h.1)
    ]

    pub All-lookup : (k : K) (v : V) (m : List (K × V)) → All P m → lookup k m ≡ some v → P (k, v)
    unfolding lookup
    All-lookup k v [] h f = cc
    All-lookup k v ((j, w) ∷ m) h f = elim (Bool-cases (e.beq j k)) [
      | inl same ↦
          let q = (e.beq_iff j k).0 same in
          let g : some w ≡ some v = rw (← f, same) refl in
          let r : w ≡ v = cc in subst P (λ i. (q i, r i)) h.0
      | inr other ↦ All-lookup k v m h.1 (rw (← f, other) refl)
    ]

-- A key above all others is not there.
pub lookup-above {κ} :
    {V : Type κ} (n : ℕ) (m : List (ℕ × V)) → All (λ x. x.0 < n) m → lookup n m ≡ none
unfolding lookup
lookup-above n [] h = refl
lookup-above n ((j, v) ∷ m) h = ground (arith, lookup-above n m h.1)
