-- ===== src/Browser/Contexts.antt =====
-- Contexts of the manager: get_context, remove_context, and the end of a context's life.
use lynne_social.Prelude.{
  ℕ, suc, Bool, true, false, Option, none, some, List, [], ◌∷◌, Text, txt, nat_eq, text_eq_instance,
  lookup, insert, erase, if◌then◌else◌,
}
use lynne_social.Json.{JsonLib}
use lynne_social.Browser.Scripts.{stealth_js}
use lynne_social.Browser.State.{
  Manager, OnContext, give, save_cookies, restore_cookies, target_created, target_attached,
  script_added, cookies_got, cookies_set, ignore, ignore_error, call_error, discard_context,
  context, error,
}
use lynne_social.Browser.Exec.{Exec, ◌>>=◌, ◌>>◌, call, modify}
use lynne_social.Browser.Commands.{send_command}
use lynne_social.Browser.Pages.{this}

module _ (J : JsonLib) where
  open J use {Json, object, str, bool, null}

  abbrev pub clear_all : List ℕ → List (ℕ × Bool) → List (ℕ × Bool)
  clear_all [] flags = flags
  clear_all (g ∷ gs) flags = clear_all gs (insert g false flags)

  -- ~CdpBrowserContext and the end of its memory
  unfoldable pub delete_context : ℕ → Manager J → Manager J
  delete_context p s = elim (lookup p s.heap) [
    | none ↦ record s { fault = true }
    | some c ↦ record s { flags = clear_all c.after_guards s.flags; heap = erase p s.heap }
  ]

  abbrev pub delete_found : Option ℕ → Manager J → Manager J
  delete_found none s = s
  delete_found (some p) s = delete_context p s

  -- contexts_.erase(platform): the unique_ptr deletes its context
  unfoldable pub remove_context : Text → Manager J → Manager J
  unfolding delete_context
  remove_context platform s =
      delete_found (lookup platform s.contexts) (record s { contexts = erase platform s.contexts })

  -- contexts_.clear()
  unfoldable pub delete_contexts : List (Text × ℕ) → Manager J → Manager J
  unfolding delete_context
  delete_contexts [] s = s
  delete_contexts ((n, p) ∷ cs) s = delete_contexts cs (delete_context p s)

  -- contexts_[platform].reset(raw_ctx)
  unfoldable pub put_context : Text → ℕ → Manager J → Manager J
  unfolding delete_context
  put_context platform p s =
      delete_found (lookup platform s.contexts)
        (record s { contexts = insert platform p s.contexts })

  -- The callback of do_get_context, called with a context.
  unfoldable pub with_context : OnContext J → ℕ → Exec J (Unit {0})
  unfolding this
  with_context (give c) p = call c (context p)
  with_context (save_cookies platform on_done on_error) p = do
    c ← this J p
    send_command J (txt "Storage.getCookies") null (cookies_got platform on_done)
        (call_error on_error) c.session_id
  with_context (restore_cookies cookies on_done on_error) p = do
    c ← this J p
    send_command J (txt "Storage.setCookies") (object ((txt "cookies", cookies) ∷ []))
        (cookies_set on_done) (call_error on_error) c.session_id

  unfoldable pub do_get_context : Text → OnContext J → ℕ → Exec J (Unit {0})
  unfolding with_context
  do_get_context platform on_ok on_error s =
      if s.started
      then elim (lookup platform s.contexts) [
        | some p ↦ with_context on_ok p s
        | none ↦
            send_command J (txt "Target.createTarget")
              (object ((txt "url", str (txt "about:blank")) ∷ []))
              (target_created platform on_ok on_error) (call_error on_error) [] s
      ]
      else call on_error (error (txt "not started")) s

  unfoldable pub get_context : Text → ℕ → ℕ → Exec J (Unit {0})
  unfolding do_get_context
  get_context platform on_ok on_error = do_get_context platform (give on_ok) on_error

  -- the lambda of Target.createTarget
  unfoldable pub on_target_created : Text → OnContext J → ℕ → Text → Exec J (Unit {0})
  on_target_created platform on_ok on_error target_id =
      send_command J (txt "Target.attachToTarget")
        (object ((txt "targetId", str target_id) ∷ (txt "flatten", bool true) ∷ []))
        (target_attached platform target_id on_ok on_error) (call_error on_error) []

  -- the lambda of Target.attachToTarget: a new context, the stealth script, and Page.enable
  unfoldable pub on_target_attached : Text → Text → OnContext J → Text → Exec J (Unit {0})
  on_target_attached platform target_id on_ok session_id s =
      let p = s.next in
      (do
        modify (λ s. record s {
          heap =
              insert p
                (record {
                  platform = platform;
                  target_id = target_id;
                  session_id = session_id;
                  closed = false;
                  after_guards = [];
                })
                s.heap;
          next = suc p;
        })
        send_command J (txt "Page.addScriptToEvaluateOnNewDocument")
            (object ((txt "source", str stealth_js) ∷ [])) (script_added platform p on_ok)
            (discard_context p) session_id
        send_command J (txt "Page.enable") null ignore ignore_error session_id)
        s

  -- the lambda of Page.addScriptToEvaluateOnNewDocument
  unfoldable pub on_script_added : Text → ℕ → OnContext J → Exec J (Unit {0})
  unfolding put_context with_context
  on_script_added platform p on_ok = do modify (put_context platform p); with_context on_ok p
