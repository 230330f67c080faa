-- ===== src/Browser/Awaits.antt =====
-- Commands that have been sent, and the replies that answer them (cdp_browser_manager.cpp).
use mathlib.Core.Path.{subst}
use lynne_social.Prelude.{
  ℕ, suc, ◌≡◌, ◌≢◌, refl, ap, ◌∙◌, Bool, Option, none, some, Text, pos, nat_eq, text_eq_instance,
  lookup, insert, erase, lookup-insert_self, lookup-insert_ne, lookup-erase_ne, arith,
}
use lynne_social.Json.{JsonLib}
use lynne_social.Storage.Fs.{Disk}
use lynne_social.Browser.State.{Manager, OnOk, OnErr, PendingRequest, ignore, ignore_error}
use lynne_social.Browser.Exec.{continue, modify}
use lynne_social.Browser.Commands.{send_command, send_frame}
use lynne_social.Browser.Messages.{on_reply, answer}
use lynne_social.Browser.Answered.{known_reply}

module _ (J : JsonLib) where
  open J use {Json}

  -- The states agree on contexts, on the heap and on what clients have heard.
  pub record Like (s t : Manager J) : Type 0 where
    pub heap : t.heap ≡ s.heap
    pub contexts : t.contexts ≡ s.contexts
    pub fresh : t.next ≡ s.next
    pub events : t.events ≡ s.events

  module _ (method : Text) (params : Json) (on_ok : OnOk J) (on_error : OnErr J) (session_id : Text)
      (s : Manager J) where
    abbrev pub sent_command : Manager J
    sent_command = (send_command J method params on_ok on_error session_id s).1

    send_command-Like : Like s sent_command
    unfolding send_command send_frame
    send_command-Like = record {
      heap = ground arith;
      contexts = ground arith;
      fresh = ground arith;
      events = ground arith;
    }

    pending-send_command :
        sent_command.pending
        ≡ insert s.cmd_id (record { on_ok = on_ok; on_error = on_error }) s.pending
    unfolding send_command send_frame
    pending-send_command = ground arith

    cmd_id-send_command : sent_command.cmd_id ≡ suc s.cmd_id
    unfolding send_command send_frame
    cmd_id-send_command = ground arith

  -- A reply does what its callback does, and takes its own request out.
  pub record Replied (n : ℕ) (u t : Manager J) : Type 0 where
    pub like : Like u t
    pub others : (k : ℕ) → n ≢ k → lookup k t.pending ≡ lookup k u.pending
    pub ids : t.cmd_id ≡ u.cmd_id

  erased-Replied :
      (n : ℕ) (r : Option (Unit {0})) (u : Manager J)
      → Replied n u (continue r (λ _. modify (λ s. record s { pending = erase n s.pending })) u).1
  erased-Replied n none u = record {
    like = record { heap = refl; contexts = refl; fresh = refl; events = refl };
    others = λ k h. refl;
    ids = refl;
  }
  erased-Replied n (some v) u = record {
    like = record { heap = refl; contexts = refl; fresh = refl; events = refl };
    others = λ k h. lookup-erase_ne n k u.pending h;
    ids = refl;
  }

  pub Like-trans : (s t u : Manager J) → Like s t → Like t u → Like s u
  Like-trans s t u v w = record {
    heap = w.heap ∙ v.heap;
    contexts = w.contexts ∙ v.contexts;
    fresh = w.fresh ∙ v.fresh;
    events = w.events ∙ v.events;
  }

  -- The state waits for the reply `n`, its last one, with this continuation, and is as `s` was.
  pub record Awaits (s : Manager J) (n : ℕ) (on_ok : OnOk J) (on_error : OnErr J) (t : Manager J)
      : Type 0 where
    pub like : Like s t
    pub waiting : lookup n t.pending ≡ some (record { on_ok = on_ok; on_error = on_error })
    pub ids : t.cmd_id ≡ suc n

  pub sent-Awaits :
      (method : Text) (params : Json) (on_ok : OnOk J) (on_error : OnErr J) (session_id : Text)
      (s : Manager J)
      → Awaits s s.cmd_id on_ok on_error (sent_command method params on_ok on_error session_id s)
  sent-Awaits method params on_ok on_error session_id s = record {
    like = send_command-Like method params on_ok on_error session_id s;
    waiting =
        ap (lookup s.cmd_id) (pending-send_command method params on_ok on_error session_id s)
        ∙ lookup-insert_self s.cmd_id (record { on_ok = on_ok; on_error = on_error }) s.pending;
    ids = cmd_id-send_command method params on_ok on_error session_id s;
  }

  -- A reply whose callback sends the next command.
  pub Replied-Awaits :
      (n : ℕ) (s u t : Manager J) (on_ok : OnOk J) (on_error : OnErr J)
      → Awaits s (suc n) on_ok on_error u
      → Replied n u t
      → Awaits s (suc n) on_ok on_error t
  Replied-Awaits n s u t on_ok on_error w r = record {
    like = Like-trans s u t w.like r.like;
    waiting = r.others (suc n) (λ e. omega (arith, e)) ∙ w.waiting;
    ids = r.ids ∙ w.ids;
  }

  pub Awaits-sent :
      (n : ℕ) (method : Text) (params : Json) (on_ok : OnOk J) (on_error : OnErr J)
      (session_id : Text) (s t : Manager J)
      → Like s t
      → t.cmd_id ≡ n
      → Awaits s n on_ok on_error (sent_command method params on_ok on_error session_id t)
  Awaits-sent n method params on_ok on_error session_id s t l e =
      let w = sent-Awaits method params on_ok on_error session_id t in
      subst
        (λ n. Awaits s n on_ok on_error (sent_command method params on_ok on_error session_id t)) e
        (record { like = Like-trans s t _ l w.like; waiting = w.waiting; ids = w.ids })

  -- A further command, if the one before it did not throw, touches no earlier request.
  pub another :
      (r : Option (Unit {0})) (method : Text) (params : Json) (session_id : Text) (v : Manager J)
      (k : ℕ)
      → v.cmd_id ≢ k
      → let u =
          (continue r (λ _. send_command J method params ignore ignore_error session_id) v).1 in
        Like v u × (lookup k u.pending ≡ lookup k v.pending)
  another none method params session_id v k h =
      (record { heap = refl; contexts = refl; fresh = refl; events = refl }, refl)
  another (some q) method params session_id v k h =
      let new : PendingRequest J = record { on_ok = ignore; on_error = ignore_error } in
      (
        send_command-Like method params ignore ignore_error session_id v,
        ap (lookup k) (pending-send_command method params ignore ignore_error session_id v)
            ∙ lookup-insert_ne v.cmd_id k new v.pending h,
      )

module _ (J : JsonLib) (can_open : Text → Disk → Bool) where
  open J use {Json}

  pub on_reply-Replied :
      (n : ℕ) (msg : Json) (s : Manager J) (r : PendingRequest J)
      → lookup n s.pending ≡ some r
      → Replied J n (answer J can_open r msg s).1 (on_reply J can_open (pos n) msg s).1
  on_reply-Replied n msg s r h =
      rw (known_reply J can_open n msg s r h)
        (erased-Replied J n (answer J can_open r msg s).0 (answer J can_open r msg s).1)
