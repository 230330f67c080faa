-- ===== src/Browser/Granted/Answers.antt =====
-- What the replies that get_context waits for make on_reply call (cdp_browser_manager.cpp).
use lynne_social.Prelude.{
  ℕ, ◌≡◌, refl, Bool, true, none, some, [], ◌∷◌, Text, txt, nat_eq, text_eq_instance, lookup,
  insert, arith,
}
use lynne_social.Json.{JsonLib}
use lynne_social.Storage.Fs.{Disk}
use lynne_social.Browser.State.{
  Manager, OnErr, OnContext, give, target_created, target_attached, script_added, call_error,
  context,
}
use lynne_social.Browser.Exec.{call}
use lynne_social.Browser.Commands.{send_command}
use lynne_social.Browser.Contexts.{
  do_get_context, on_target_created, on_target_attached, on_script_added, put_context, with_context,
}
use lynne_social.Browser.Callbacks.{run_ok, member}
use lynne_social.Browser.Messages.{answer}

module _ (J : JsonLib) (can_open : Text → Disk → Bool) where
  open J use {Json, find}

  -- A reply with the text `t` at `key` of its result, and no error.
  pub record HasResult (msg : Json) (key t : Text) : Type 0 where
    pub result : Json
    pub held : Json
    pub no_error : find (txt "error") msg ≡ none
    pub has_result : find (txt "result") msg ≡ some result
    pub has_key : find key result ≡ some held
    pub is_text : J.get_str held ≡ some t

  pub do_get_context_new :
      (platform : Text) (k : OnContext J) (b : ℕ) (s : Manager J)
      → s.started ≡ true
      → lookup platform s.contexts ≡ none
      → do_get_context J platform k b s
        ≡ send_command J
            (txt "Target.createTarget")
            (J.object ((txt "url", J.str (txt "about:blank")) ∷ []))
            (target_created platform k b)
            (call_error b)
            []
            s
  unfolding do_get_context
  do_get_context_new platform k b s h e = ground arith

  pub answer_created :
      (platform t : Text) (k : OnContext J) (b : ℕ) (e : OnErr J) (msg : Json) (s : Manager J)
      → HasResult msg (txt "targetId") t
      → answer J can_open (record { on_ok = target_created platform k b; on_error = e }) msg s
        ≡ on_target_created J platform k b t s
  unfolding answer run_ok member
  answer_created platform t k b e msg s h =
      rw (h.no_error, answer, h.has_result, h.has_key, h.is_text) refl

  pub answer_attached :
      (platform target t : Text) (k : OnContext J) (b : ℕ) (e : OnErr J) (msg : Json)
      (s : Manager J)
      → HasResult msg (txt "sessionId") t
      → answer J can_open
          (record { on_ok = target_attached platform target k b; on_error = e })
          msg
          s
        ≡ on_target_attached J platform target k t s
  unfolding answer run_ok member
  answer_attached platform target t k b e msg s h =
      rw (h.no_error, answer, h.has_result, h.has_key, h.is_text) refl

  pub answer_script :
      (platform : Text) (p : ℕ) (k : OnContext J) (e : OnErr J) (msg : Json) (s : Manager J)
      → find (txt "error") msg ≡ none
      → answer J can_open (record { on_ok = script_added platform p k; on_error = e }) msg s
        ≡ on_script_added J platform p k s
  unfolding answer run_ok
  answer_script platform p k e msg s h = rw (h, answer) refl

  pub script_added_call :
      (platform : Text) (p a : ℕ) (s : Manager J)
      → lookup platform s.contexts ≡ none
      → on_script_added J platform p (give a) s
        ≡ call a (context p) (record s { contexts = insert platform p s.contexts })
  unfolding on_script_added put_context with_context
  script_added_call platform p a s h = rw h refl
