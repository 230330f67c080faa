-- ===== src/Browser/Granted.antt =====
-- get_context from the call to the client's callback (cdp_browser_manager.cpp).
mod Answers
use lynne_social.Prelude.{
  ℕ, suc, ◌≡◌, refl, ap, ◌∙◌, Bool, true, false, Option, none, some, [], ◌∷◌, ◌++◌, Text, txt, pos,
  nat_eq, text_eq_instance, lookup, insert, lookup-insert_self, arith,
}
use lynne_social.Json.{JsonLib}
use lynne_social.Storage.Fs.{Disk}
use lynne_social.Browser.State.{
  Manager, Context, OnErr, OnContext, give, target_created, target_attached, script_added,
  call_error, discard_context, context,
}
use lynne_social.Browser.Exec.{call}
use lynne_social.Browser.Commands.{send_command}
use lynne_social.Browser.Contexts.{
  get_context, do_get_context, on_target_created, on_target_attached, on_script_added, put_context,
  with_context,
}
use lynne_social.Browser.Callbacks.{run_ok, member}
use lynne_social.Browser.Messages.{on_reply, answer}
use lynne_social.Browser.Awaits.{
  Like, Like-trans, Awaits, sent-Awaits, Replied-Awaits, Awaits-sent, another, on_reply-Replied,
}
use lynne_social.Browser.Granted.Answers.{
  HasResult, do_get_context_new, answer_created, answer_attached, answer_script, script_added_call,
}

abbrev pub new_context : Text → Text → Text → Context
new_context platform target session = record {
  platform = platform;
  target_id = target;
  session_id = session;
  closed = false;
  after_guards = [];
}

module _ (J : JsonLib) (can_open : Text → Disk → Bool) where
  open J use {Json, find}

  get_context-Awaits :
      (platform : Text) (a b : ℕ) (s : Manager J)
      → s.started ≡ true
      → lookup platform s.contexts ≡ none
      → Awaits J s s.cmd_id
          (target_created platform (give a) b)
          (call_error b)
          (get_context J platform a b s).1
  unfolding get_context
  get_context-Awaits platform a b s h e =
      rw (do_get_context_new J can_open platform (give a) b s h e) (sent-Awaits J _ _ _ _ [] s)

  created-Awaits :
      (platform x : Text) (k : OnContext J) (b n : ℕ) (e : OnErr J) (msg : Json) (s t : Manager J)
      → Awaits J s n (target_created platform k b) e t
      → HasResult J can_open msg (txt "targetId") x
      → Awaits J s
          (suc n)
          (target_attached platform x k b)
          (call_error b)
          (on_reply J can_open (pos n) msg t).1
  unfolding on_target_created
  created-Awaits platform x k b n e msg s t w h =
      let r = on_reply-Replied J can_open n msg t _ w.waiting in
      Replied-Awaits J n s
        (answer J can_open (record { on_ok = target_created platform k b; on_error = e }) msg t).1 _
        _ _
        (rw (answer_created J can_open platform x k b e msg t h)
          (Awaits-sent J (suc n) _ _ _ _ [] s t w.like w.ids))
        r

  abbrev grown : Context → Manager J → Manager J
  grown c s = record s { heap = insert s.next c s.heap; next = suc s.next }

  -- The state waits for the script of the context `p`.
  record AwaitsScript (s : Manager J) (n p : ℕ) (platform : Text) (k : OnContext J) (t : Manager J)
      : Type 0 where
    like : Like J s t
    waiting :
        lookup n t.pending
        ≡ some (record { on_ok = script_added platform p k; on_error = discard_context p })

  attached-AwaitsScript :
      (platform target x : Text) (k : OnContext J) (n : ℕ) (t : Manager J)
      → t.cmd_id ≡ n
      → AwaitsScript
          (grown (new_context platform target x) t)
          n
          t.next
          platform
          k
          (on_target_attached J platform target k x t).1
  unfolding on_target_attached
  attached-AwaitsScript platform target x k n t e =
      let g = grown (new_context platform target x) t in
      let w =
        Awaits-sent J n (txt "Page.addScriptToEvaluateOnNewDocument") _
          (script_added platform t.next k) (discard_context t.next) x g g
          (record { heap = refl; contexts = refl; fresh = refl; events = refl }) e in
      let (l, q) = another J _ (txt "Page.enable") _ x _ n (λ same. omega (arith, w.ids, same)) in
      record { like = Like-trans J g _ _ w.like l; waiting = q ∙ w.waiting }

  asked-AwaitsScript :
      (platform target x : Text) (k : OnContext J) (b n : ℕ) (e : OnErr J) (msg : Json)
      (s t : Manager J)
      → Awaits J s n (target_attached platform target k b) e t
      → HasResult J can_open msg (txt "sessionId") x
      → AwaitsScript
          (grown (new_context platform target x) s)
          (suc n)
          s.next
          platform
          k
          (on_reply J can_open (pos n) msg t).1
  asked-AwaitsScript platform target x k b n e msg s t w h =
      let c = new_context platform target x in
      let r = on_reply-Replied J can_open n msg t _ w.waiting in
      let u =
        (answer J can_open (record { on_ok = target_attached platform target k b; on_error = e })
          msg t).1 in
      let v : AwaitsScript (grown c t) (suc n) s.next platform k u =
        rw (answer_attached J can_open platform target x k b e msg t h, ← w.like.fresh)
          (attached-AwaitsScript platform target x k (suc n) t w.ids) in
      let f : Like J (grown c s) (grown c t) = record {
        heap = rw (w.like.fresh, w.like.heap) refl;
        contexts = w.like.contexts;
        fresh = ap (λ m. suc m) w.like.fresh;
        events = w.like.events;
      } in
      record {
        like =
            Like-trans J (grown c s) u _ (Like-trans J (grown c s) (grown c t) u f v.like) r.like;
        waiting = r.others (suc n) (λ same. omega (arith, same)) ∙ v.waiting;
      }

  -- The client has the context `p` and nothing else has changed for it.
  record Granted (platform : Text) (a p : ℕ) (s t : Manager J) : Type 0 where
    events : t.events ≡ s.events ++ (record { callback = a; reply = context p } ∷ [])
    contexts : t.contexts ≡ insert platform p s.contexts
    heap : t.heap ≡ s.heap

  script-Granted :
      (platform : Text) (a n p : ℕ) (msg : Json) (s t : Manager J)
      → AwaitsScript s n p platform (give a) t
      → lookup platform s.contexts ≡ none
      → find (txt "error") msg ≡ none
      → Granted platform a p s (on_reply J can_open (pos n) msg t).1
  unfolding call
  script-Granted platform a n p msg s t w h e =
      let r = on_reply-Replied J can_open n msg t _ w.waiting in
      let u =
        (answer J can_open
          (record { on_ok = script_added platform p (give a); on_error = discard_context p }) msg
          t).1 in
      let q =
        ap (λ (x : Option (Unit {0}) × Manager J). x.1)
          (answer_script J can_open platform p (give a) (discard_context p) msg t e
            ∙ script_added_call J can_open platform p a t
                (ap (lookup platform) w.like.contexts ∙ h)) in
      record {
        events =
            r.like.events
            ∙ ap (λ (m : Manager J). m.events) q
            ∙ ap (λ l. l ++ (record { callback = a; reply = context p } ∷ [])) w.like.events;
        contexts =
            r.like.contexts
            ∙ ap (λ (m : Manager J). m.contexts) q
            ∙ ap (insert platform p) w.like.contexts;
        heap = r.like.heap ∙ ap (λ (m : Manager J). m.heap) q ∙ w.like.heap;
      }

  -- When get_context is called on a started manager for a platform without a context, and Chrome
  -- answers the three commands that follow in turn, with a targetId, a sessionId and no error,
  -- then in the end exactly one more call of a client has been made, that of on_ok with the new
  -- context; the context is the one of its platform, and it holds the target and the session of
  -- the replies.
  pub get_context_granted :
      (platform target session : Text) (a b : ℕ) (created attached scripted : Json) (s : Manager J)
      → s.started ≡ true
      → lookup platform s.contexts ≡ none
      → HasResult J can_open created (txt "targetId") target
      → HasResult J can_open attached (txt "sessionId") session
      → find (txt "error") scripted ≡ none
      → let end =
          (on_reply J can_open
            (pos (suc (suc s.cmd_id)))
            scripted
            (on_reply J can_open
              (pos (suc s.cmd_id))
              attached
              (on_reply J can_open
                (pos s.cmd_id)
                created
                (get_context J platform a b s).1).1).1).1 in
        (end.events ≡ s.events ++ (record { callback = a; reply = context s.next } ∷ []))
        × (lookup platform end.contexts ≡ some s.next)
        × (lookup s.next end.heap ≡ some (new_context platform target session))
  get_context_granted platform target session a b created attached scripted s h e i j k =
      let c = new_context platform target session in
      let w = get_context-Awaits platform a b s h e in
      let v = created-Awaits platform target (give a) b s.cmd_id _ created s _ w i in
      let u =
        asked-AwaitsScript platform target session (give a) b (suc s.cmd_id) _ attached s _ v j in
      let g = script-Granted platform a (suc (suc s.cmd_id)) s.next scripted (grown c s) _ u e k in
      (
        g.events,
        ap (lookup platform) g.contexts ∙ lookup-insert_self platform s.next s.contexts,
        ap (lookup s.next) g.heap ∙ lookup-insert_self s.next c s.heap,
      )
