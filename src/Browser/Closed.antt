-- ===== src/Browser/Closed.antt =====
-- The methods of a context that is being closed (wheel/browser/imp/cdp_browser_manager.cpp).
use lynne_social.Prelude.{
  ℕ, ◌≡◌, refl, ◌∙◌, true, false, some, Text, txt, ℤ, nat_eq, lookup, insert, lookup-insert_self,
  arith, ◌∷◌, [],
}
use lynne_social.Json.{JsonLib}
use lynne_social.Browser.State.{Manager, Context, OnOk, OnErr, error, target_closed, call_error}
use lynne_social.Browser.Exec.{Exec, call, bind_at}
use lynne_social.Browser.Commands.{send_command, send_frame}
use lynne_social.Browser.Pages.{
  this, this_at, close_open, unless_closed, click, type_text, scroll, press_key, hover, exists,
  wait_for_selector, close,
}

module _ (J : JsonLib) where
  open J use {Json, object, str}

  abbrev context_closed : ℕ → Exec J (Unit {0})
  context_closed = λ k. call k (error (txt "context closed"))

  unless_closed_refuses :
      (p on_error : ℕ) (act : Context → Exec J (Unit {0})) (s : Manager J) (c : Context)
      → lookup p s.heap ≡ some c
      → c.closed ≡ true
      → unless_closed J p on_error act s ≡ context_closed on_error s
  unfolding unless_closed
  unless_closed_refuses p on_error act s c h k =
      bind_at (this J p) _ s s c (this_at J p s c h) ∙ rw k refl

  close_refuses :
      (p ok fail : ℕ) (s : Manager J) (c : Context)
      → lookup p s.heap ≡ some c
      → c.closed ≡ true
      → close J p ok fail s ≡ call {J = J} fail (error (txt "already closed")) s
  unfolding close close_open
  close_refuses p ok fail s c h k =
      bind_at (this J p) (λ c. close_open J p c ok fail) s s c (this_at J p s c h) ∙ rw k refl

  heap-send_command :
      (method : Text) (params : Json) (ok : OnOk J) (fail : OnErr J) (session : Text)
      (s : Manager J)
      → (send_command J method params ok fail session s).1.heap ≡ s.heap
  unfolding send_command send_frame
  heap-send_command method params ok fail session s = ground arith

  abbrev shut : Context → Context
  shut c = record c { closed = true }

  heap-close :
      (p ok fail : ℕ) (s : Manager J) (c : Context)
      → lookup p s.heap ≡ some c
      → c.closed ≡ false
      → lookup p (close J p ok fail s).1.heap ≡ some (shut c)
  unfolding close close_open
  heap-close p ok fail s c h k =
      rw (this_at J p s c h, k)
        (rw
          (heap-send_command (txt "Target.closeTarget")
            (object ((txt "targetId", str c.target_id) ∷ [])) (target_closed p ok) (call_error fail)
            [] (record s { heap = insert p (shut c) s.heap }))
          (lookup-insert_self p (shut c) s.heap))

  -- After a close of an open context, whatever becomes of its command, click, type, scroll,
  -- press_key, hover, exists and wait_for_selector on the same context only call their error
  -- callback with the text context closed, and a second close with already closed: nothing more is
  -- sent or posted, and nothing else changes, before the reply.
  pub close_refuses_later :
      (p ok fail : ℕ) (text value : Text) (dx dy : ℤ) (ms a b : ℕ) (s : Manager J) (c : Context)
      → lookup p s.heap ≡ some c
      → c.closed ≡ false
      → let t = (close J p ok fail s).1 in
        (click J p text a b t ≡ context_closed b t)
        × (type_text J p text value a b t ≡ context_closed b t)
        × (scroll J p dx dy a b t ≡ context_closed b t)
        × (press_key J p text a b t ≡ context_closed b t)
        × (hover J p text a b t ≡ context_closed b t)
        × (exists J p text a b t ≡ context_closed b t)
        × (wait_for_selector J p text ms a b t ≡ context_closed b t)
        × (close J p a b t ≡ call {J = J} b (error (txt "already closed")) t)
  unfolding click type_text scroll press_key hover exists wait_for_selector
  close_refuses_later p ok fail text value dx dy ms a b s c h k =
      let t = (close J p ok fail s).1 in
      let now = heap-close p ok fail s c h k in
      let refuses =
        λ (act : Context → Exec J (Unit {0})). unless_closed_refuses p b act t (shut c) now refl in
      (
        refuses _,
        refuses _,
        refuses _,
        refuses _,
        refuses _,
        refuses _,
        refuses _,
        close_refuses p a b t (shut c) now refl,
      )
