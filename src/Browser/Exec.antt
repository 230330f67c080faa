-- ===== src/Browser/Exec.antt =====
-- Actions on the manager that may throw: `none` beside the state that the exception leaves.
use lynne_social.Prelude.{ℕ, true, Option, none, some, [], ◌∷◌, ◌++◌, nat_eq, ◌≡◌, ap}
use lynne_social.Json.{JsonLib}
use lynne_social.Browser.State.{Manager, Reply}

module _ (J : JsonLib) where
  abbrev pub Exec {ℓ} : Type ℓ → Type ℓ
  Exec A = Manager J → Option A × Manager J

module _ {J : JsonLib} where
  abbrev pub continue {ℓ κ} :
      {A : Type ℓ} {B : Type κ} → Option A → (A → Exec J B) → Manager J → Option B × Manager J
  continue none f s = (none, s)
  continue (some a) f s = f a s

  infixl 5 ◌>>=◌ ◌>>◌
  abbrev pub ◌>>=◌ {ℓ κ} : {A : Type ℓ} {B : Type κ} → Exec J A → (A → Exec J B) → Exec J B
  ◌>>=◌ m f s = let (r, s') = m s in continue r f s'

  abbrev pub ◌>>◌ {ℓ κ} : {A : Type ℓ} {B : Type κ} → Exec J A → Exec J B → Exec J B
  m >> k = m >>= λ _. k

  abbrev pub pure {ℓ} : {A : Type ℓ} → A → Exec J A
  pure a s = (some a, s)

  -- A call of the library that may throw.
  abbrev pub lift {ℓ} : {A : Type ℓ} → Option A → Exec J A
  lift r s = (r, s)

  abbrev pub modify : (Manager J → Manager J) → Exec J (Unit {0})
  modify f s = (some tt, f s)

  -- A client's callback is called.
  unfoldable pub call : ℕ → Reply J → Exec J (Unit {0})
  call c r s =
      (some tt, record s { events = s.events ++ (record { callback = c; reply = r } ∷ []) })

  -- A freed context is used.
  abbrev pub dangling {ℓ} : {A : Type ℓ} → Exec J A
  dangling s = (none, record s { fault = true })

  -- An action that returns is followed by the rest.
  pub bind_at {ℓ κ} :
      {A : Type ℓ} {B : Type κ} (m : Exec J A) (f : A → Exec J B) (s t : Manager J) (a : A)
      → m s ≡ (some a, t)
      → (m >>= f) s ≡ f a t
  bind_at m f s t a h = ap (λ r. continue r.0 f r.1) h
