-- ===== src/Browser/Fresh.antt =====
-- The ids of commands (cdp_browser_manager.cpp): no request waits under an id that is still to be
-- given. What keeps this, for the actions that the methods are made of.
pub mod Pages
pub mod Replies
pub mod Messages
pub mod Methods
pub mod Reach
use lynne_social.Prelude.{
  ℕ, suc, ◌≤◌, ◌≡◌, refl, ◌∙◌, Bool, true, false, Option, none, some, List, [], ◌∷◌, ◌++◌, Text,
  nat_eq, lookup, insert, erase, lookup-insert, lookup-erase, arith, if◌then◌else◌, ◌==◌,
  Bool-cases, Option-cases, inl, inr,
}
use lynne_social.Json.{JsonLib}
use lynne_social.Browser.State.{Manager, Context, Reply, OnOk, OnErr, PendingRequest}
use lynne_social.Browser.Exec.{Exec, ◌>>=◌, continue, pure, lift, modify, call, dangling}
use lynne_social.Browser.Commands.{send_command, send_frame, command_message}
use lynne_social.Browser.Pages.{this}

module _ {J : JsonLib} where
  abbrev pub IsFresh : Manager J → Type 0
  IsFresh s = (id : ℕ) → s.cmd_id ≤ id → lookup id s.pending ≡ none

  pub IsFresh-of_same :
      (s t : Manager J) → t.pending ≡ s.pending → t.cmd_id ≡ s.cmd_id → IsFresh s → IsFresh t
  IsFresh-of_same s t ep ec v id h = rw ep (v id (rw (← ec) h))

  -- Whether it returns or throws, the action keeps the ids fresh.
  abbrev pub Keeps {ℓ} : {A : Type ℓ} → Exec J A → Type 0
  Keeps m = (s : Manager J) → IsFresh s → IsFresh (m s).1

  continue-Keeps {ℓ κ} :
      {A : Type ℓ} {B : Type κ} (r : Option A) (f : A → Exec J B) (s : Manager J)
      → ((a : A) → Keeps (f a))
      → IsFresh s
      → IsFresh (continue r f s).1
  continue-Keeps none f s h v = v
  continue-Keeps (some a) f s h v = h a s v

  pub >>=-Keeps {ℓ κ} :
      {A : Type ℓ} {B : Type κ} (m : Exec J A) (f : A → Exec J B)
      → Keeps m
      → ((a : A) → Keeps (f a))
      → Keeps (m >>= f)
  >>=-Keeps m f h k s v = continue-Keeps (m s).0 f (m s).1 k (h s v)

  pub modify-Keeps :
      (f : Manager J → Manager J)
      → ((s : Manager J) → (f s).pending ≡ s.pending)
      → ((s : Manager J) → (f s).cmd_id ≡ s.cmd_id)
      → Keeps (modify f)
  modify-Keeps f ep ec s v = IsFresh-of_same s (f s) (ep s) (ec s) v

  pub call-Keeps : (c : ℕ) (r : Reply J) → Keeps (call c r)
  unfolding call
  call-Keeps c r s v = v

  pub cond-Keeps {ℓ} :
      {A : Type ℓ} (b : Bool) (m n : Exec J A) → Keeps m → Keeps n → Keeps (if b then m else n)
  cond-Keeps true m n h k = h
  cond-Keeps false m n h k = k

  -- The same, where the test reads the state.
  pub branch-Keeps {ℓ} :
      {A : Type ℓ} (b : Bool) (m n : Exec J A) (s : Manager J)
      → Keeps m
      → Keeps n
      → IsFresh s
      → IsFresh (if b then m s else n s).1
  branch-Keeps true m n s h k v = h s v
  branch-Keeps false m n s h k v = k s v

  pub if-IsFresh :
      (b : Bool) (s t : Manager J) → IsFresh s → IsFresh t → IsFresh (if b then s else t)
  if-IsFresh true s t v w = v
  if-IsFresh false s t v w = w

  pub this-Keeps : (p : ℕ) → Keeps (this J p)
  unfolding this
  this-Keeps p s v = elim (Option-cases (lookup p s.heap)) [
    | inl e ↦ rw (e, this) v
    | inr (c, e) ↦ rw (e, this) v
  ]

  pub send_frame-Keeps : (m : J.Json) → Keeps (send_frame J m)
  unfolding send_frame
  send_frame-Keeps m = >>=-Keeps (lift (J.dump m)) _ (λ s v. v) (λ f s v. v)

  -- A request is entered under the id that is next.
  pub entered-IsFresh :
      (r : PendingRequest J) (s t : Manager J)
      → t.pending ≡ insert s.cmd_id r s.pending
      → t.cmd_id ≡ suc s.cmd_id
      → IsFresh s
      → IsFresh t
  entered-IsFresh r s t ep ec v id h =
      rw ep (ground (arith, lookup-insert s.cmd_id id r s.pending, v id))

  pub send_command-Keeps :
      (method : Text) (params : J.Json) (on_ok : OnOk J) (on_error : OnErr J) (session_id : Text)
      → Keeps (send_command J method params on_ok on_error session_id)
  unfolding send_command
  send_command-Keeps method params on_ok on_error session_id s v =
      let msg = command_message J s.cmd_id method params session_id in
      let r : PendingRequest J = record { on_ok = on_ok; on_error = on_error } in
      let s' = record s { cmd_id = suc s.cmd_id; pending = insert s.cmd_id r s.pending } in
      branch-Keeps s.ws_ready (send_frame J msg)
        (modify (λ t. record t { pending_commands = t.pending_commands ++ (msg ∷ []) })) s'
        (send_frame-Keeps msg) (λ t w. w) (entered-IsFresh r s s' refl refl v)

  pub erased-IsFresh :
      (id : ℕ) (s : Manager J) → IsFresh s → IsFresh (record s { pending = erase id s.pending })
  erased-IsFresh id s v k h = ground (arith, lookup-erase id k s.pending, v k)
