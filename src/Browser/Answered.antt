-- ===== src/Browser/Answered.antt =====
-- Replies: what on_reply does to the request that waits.
use lynne_social.Prelude.{
  ℕ, ◌≡◌, refl, ◌∙◌, ap, Bool, Option, none, some, Text, txt, pos, nat_eq, lookup, erase,
  lookup-erase_self, Option-cases, inl, inr,
}
use lynne_social.Json.{JsonLib}
use lynne_social.Storage.Fs.{Disk}
use lynne_social.Browser.State.{Manager, PendingRequest, OnContext, target_created}
use lynne_social.Browser.Exec.{continue, modify}
use lynne_social.Browser.Callbacks.{run_ok, member}
use lynne_social.Browser.Messages.{on_reply, answer}

module _ (J : JsonLib) (can_open : Text → Disk → Bool) where
  open J use {Json, find}

  erased :
      (n : ℕ) (r : Option (Unit {0})) (t : Manager J)
      → (continue r (λ _. modify (λ s. record s { pending = erase n s.pending })) t).0 ≡ some tt
      → lookup n
          (continue r (λ _. modify (λ s. record s { pending = erase n s.pending })) t).1.pending
        ≡ none
  erased n none t h = cc
  erased n (some u) t h = lookup-erase_self n t.pending

  unknown_reply :
      (n : ℕ) (msg : Json) (s : Manager J)
      → lookup n s.pending ≡ none
      → on_reply J can_open (pos n) msg s ≡ (some tt, s)
  unfolding on_reply
  unknown_reply n msg s h = rw (h, on_reply) refl

  pub known_reply :
      (n : ℕ) (msg : Json) (s : Manager J) (r : PendingRequest J)
      → lookup n s.pending ≡ some r
      → on_reply J can_open (pos n) msg s
        ≡ continue
            (answer J can_open r msg s).0
            (λ _. modify (λ s. record s { pending = erase n s.pending }))
            (answer J can_open r msg s).1
  unfolding on_reply
  known_reply n msg s r h = rw (h, on_reply) refl

  taken :
      (n : ℕ) (msg : Json) (s : Manager J)
      → (on_reply J can_open (pos n) msg s).0 ≡ some tt
      → lookup n (on_reply J can_open (pos n) msg s).1.pending ≡ none
  taken n msg s h = elim (Option-cases (lookup n s.pending)) [
    | inl e ↦ rw (unknown_reply n msg s e) e
    | inr (r, e) ↦
        let k = known_reply n msg s r e in
        rw k (erased n (answer J can_open r msg s).0 (answer J can_open r msg s).1 (rw (← k) h))
  ]

  -- When a reply has been handled without an exception, its id waits no more: a second reply with
  -- the same id changes nothing and calls nobody.
  pub on_reply_once :
      (n : ℕ) (msg again : Json) (s : Manager J)
      → (on_reply J can_open (pos n) msg s).0 ≡ some tt
      → (lookup n (on_reply J can_open (pos n) msg s).1.pending ≡ none)
        × (on_reply J can_open (pos n) again (on_reply J can_open (pos n) msg s).1
            ≡ (some tt, (on_reply J can_open (pos n) msg s).1))
  on_reply_once n msg again s h =
      let gone = taken n msg s h in
      (gone, unknown_reply n again (on_reply J can_open (pos n) msg s).1 gone)

  answer_throws :
      (r : PendingRequest J) (msg result : Json) (s : Manager J) (platform : Text)
      (on_ok : OnContext J) (on_error : ℕ)
      → r.on_ok ≡ target_created platform on_ok on_error
      → find (txt "error") msg ≡ none
      → find (txt "result") msg ≡ some result
      → find (txt "targetId") result ≡ none
      → answer J can_open r msg s ≡ (none, s)
  unfolding answer run_ok member
  answer_throws r msg result s platform on_ok on_error o e f g = rw (e, answer, f, o, g) refl

  -- A reply to Target.createTarget that has a result without targetId, and no error, throws: no
  -- callback of the client is called, nothing is sent, and the request waits on.
  pub missing_target_silent :
      (n : ℕ) (msg result : Json) (s : Manager J) (r : PendingRequest J) (platform : Text)
      (on_ok : OnContext J) (on_error : ℕ)
      → lookup n s.pending ≡ some r
      → r.on_ok ≡ target_created platform on_ok on_error
      → find (txt "error") msg ≡ none
      → find (txt "result") msg ≡ some result
      → find (txt "targetId") result ≡ none
      → on_reply J can_open (pos n) msg s ≡ (none, s)
  missing_target_silent n msg result s r platform on_ok on_error h o e f g =
      known_reply n msg s r h
      ∙ ap (λ x. continue x.0 (λ _. modify (λ s. record s { pending = erase n s.pending })) x.1)
          (answer_throws r msg result s platform on_ok on_error o e f g)
