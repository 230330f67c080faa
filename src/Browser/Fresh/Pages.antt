-- ===== src/Browser/Fresh/Pages.antt =====
-- The methods of contexts and of the manager keep the ids of commands fresh
-- (cdp_browser_manager.cpp).
use lynne_social.Prelude.{
  ℕ, suc, true, false, Option, none, some, List, [], ◌∷◌, Text, txt, ℤ, nat_eq, text_eq_instance,
  lookup, insert, Option-cases, inl, inr,
}
use lynne_social.Json.{JsonLib}
use lynne_social.Browser.State.{
  Manager, Context, OnOk, OnErr, OnContext, give, save_cookies, restore_cookies, target_created,
  call_error, error, context, target_closed, script_added, discard_context, ignore, ignore_error,
}
use lynne_social.Browser.Exec.{Exec, call}
use lynne_social.Browser.Commands.{send_command}
use lynne_social.Browser.Fresh.{
  IsFresh, Keeps, >>=-Keeps, call-Keeps, cond-Keeps, branch-Keeps, this-Keeps, send_command-Keeps,
}
use lynne_social.Browser.Pages.{
  this, evaluate_with, navigate, evaluate, add_init_script, current_url, screenshot, page_command,
  close, unless_closed, click, type_text, scroll, press_key, hover, exists, wait_for_selector,
  after, dump_page_structure,
}
use lynne_social.Browser.Contexts.{
  delete_context, delete_found, remove_context, put_context, with_context, do_get_context,
  on_target_created, on_target_attached, on_script_added, delete_contexts,
}

module _ (J : JsonLib) where
  pub evaluate_with-Keeps :
      (p : ℕ) (js : Text) (on_ok : OnOk J) (on_error : OnErr J)
      → Keeps (evaluate_with J p js on_ok on_error)
  unfolding evaluate_with
  evaluate_with-Keeps p js on_ok on_error =
      >>=-Keeps (this J p) _ (this-Keeps p)
        (λ c. send_command-Keeps _ _ on_ok on_error c.session_id)

  pub navigate-Keeps :
      (p : ℕ) (url : Text) (on_loaded on_error : ℕ) → Keeps (navigate J p url on_loaded on_error)
  unfolding navigate
  navigate-Keeps p url on_loaded on_error =
      >>=-Keeps (this J p) _ (this-Keeps p) (λ c. send_command-Keeps _ _ _ _ c.session_id)

  pub add_init_script-Keeps :
      (p : ℕ) (js : Text) (on_done on_error : ℕ) → Keeps (add_init_script J p js on_done on_error)
  unfolding add_init_script
  add_init_script-Keeps p js on_done on_error =
      >>=-Keeps (this J p) _ (this-Keeps p) (λ c. send_command-Keeps _ _ _ _ c.session_id)

  pub screenshot-Keeps :
      (p : ℕ) (path : Text) (on_done on_error : ℕ) → Keeps (screenshot J p path on_done on_error)
  unfolding screenshot
  screenshot-Keeps p path on_done on_error =
      >>=-Keeps (this J p) _ (this-Keeps p) (λ c. send_command-Keeps _ _ _ _ c.session_id)

  pub page_command-Keeps :
      (p : ℕ) (method : Text) (params : J.Json) (on_ok on_error : ℕ)
      → Keeps (page_command J p method params on_ok on_error)
  unfolding page_command
  page_command-Keeps p method params on_ok on_error =
      >>=-Keeps (this J p) _ (this-Keeps p) (λ c. send_command-Keeps _ _ _ _ c.session_id)

  pub evaluate-Keeps :
      (p : ℕ) (js : Text) (on_result on_error : ℕ) → Keeps (evaluate J p js on_result on_error)
  unfolding evaluate
  evaluate-Keeps p js on_result on_error = evaluate_with-Keeps p _ _ _

  pub current_url-Keeps : (p : ℕ) (on_url on_error : ℕ) → Keeps (current_url J p on_url on_error)
  unfolding current_url
  current_url-Keeps p on_url on_error = evaluate_with-Keeps p _ _ _

  pub dump_page_structure-Keeps :
      (p on_result on_error : ℕ) → Keeps (dump_page_structure J p on_result on_error)
  unfolding dump_page_structure
  dump_page_structure-Keeps p on_result on_error = evaluate_with-Keeps p _ _ _

  unless_closed-Keeps :
      (p on_error : ℕ) (act : Context → Exec J (Unit {0}))
      → ((c : Context) → Keeps (act c))
      → Keeps (unless_closed J p on_error act)
  unfolding unless_closed
  unless_closed-Keeps p on_error act h = >>=-Keeps (this J p) _ (this-Keeps p) λ c.
      cond-Keeps c.closed (call on_error (error (txt "context closed"))) (act c)
        (call-Keeps on_error _) (h c)

  pub click-Keeps :
      (p : ℕ) (selector : Text) (on_done on_error : ℕ) → Keeps (click J p selector on_done on_error)
  unfolding click
  click-Keeps p selector on_done on_error =
      unless_closed-Keeps p on_error _ (λ c. evaluate_with-Keeps p _ _ _)

  pub type_text-Keeps :
      (p : ℕ) (selector text : Text) (on_done on_error : ℕ)
      → Keeps (type_text J p selector text on_done on_error)
  unfolding type_text
  type_text-Keeps p selector text on_done on_error =
      unless_closed-Keeps p on_error _ (λ c. evaluate_with-Keeps p _ _ _)

  pub scroll-Keeps :
      (p : ℕ) (dx dy : ℤ) (on_done on_error : ℕ) → Keeps (scroll J p dx dy on_done on_error)
  unfolding scroll
  scroll-Keeps p dx dy on_done on_error =
      unless_closed-Keeps p on_error _ (λ c. evaluate_with-Keeps p _ _ _)

  pub press_key-Keeps :
      (p : ℕ) (key : Text) (on_done on_error : ℕ) → Keeps (press_key J p key on_done on_error)
  unfolding press_key
  press_key-Keeps p key on_done on_error =
      unless_closed-Keeps p on_error _ (λ c. send_command-Keeps _ _ _ _ c.session_id)

  pub hover-Keeps :
      (p : ℕ) (selector : Text) (on_done on_error : ℕ) → Keeps (hover J p selector on_done on_error)
  unfolding hover
  hover-Keeps p selector on_done on_error =
      unless_closed-Keeps p on_error _ (λ c. evaluate_with-Keeps p _ _ _)

  pub exists-Keeps :
      (p : ℕ) (selector : Text) (on_result on_error : ℕ)
      → Keeps (exists J p selector on_result on_error)
  unfolding exists
  exists-Keeps p selector on_result on_error =
      unless_closed-Keeps p on_error _ (λ c. evaluate_with-Keeps p _ _ _)

  pub wait_for_selector-Keeps :
      (p : ℕ) (selector : Text) (timeout on_found on_timeout : ℕ)
      → Keeps (wait_for_selector J p selector timeout on_found on_timeout)
  unfolding wait_for_selector
  wait_for_selector-Keeps p selector timeout on_found on_timeout =
      unless_closed-Keeps p on_timeout _ (λ c s v. v)

  pub after-Keeps : (p delay callback : ℕ) → Keeps (after J p delay callback)
  unfolding after
  after-Keeps p delay callback = >>=-Keeps (this J p) _ (this-Keeps p) (λ c s v. v)

  pub close-Keeps : (p on_done on_error : ℕ) → Keeps (close J p on_done on_error)
  unfolding close
  close-Keeps p on_done on_error = >>=-Keeps (this J p) _ (this-Keeps p) λ c.
      cond-Keeps c.closed (call on_error (error (txt "already closed"))) _ (call-Keeps on_error _)
        (λ s v.
          send_command-Keeps (txt "Target.closeTarget") _ (target_closed p on_done)
            (call_error on_error) []
            (record s { heap = insert p (record c { closed = true }) s.heap }) v)

  -- The end of a context touches neither.
  pub delete_context-IsFresh : (p : ℕ) (s : Manager J) → IsFresh s → IsFresh (delete_context J p s)
  unfolding delete_context
  delete_context-IsFresh p s v = elim (Option-cases (lookup p s.heap)) [
    | inl e ↦ rw (e, delete_context) v
    | inr (c, e) ↦ rw (e, delete_context) v
  ]

  delete_found-IsFresh : (o : Option ℕ) (s : Manager J) → IsFresh s → IsFresh (delete_found J o s)
  delete_found-IsFresh none s v = v
  delete_found-IsFresh (some p) s v = delete_context-IsFresh p s v

  pub remove_context-IsFresh :
      (platform : Text) (s : Manager J) → IsFresh s → IsFresh (remove_context J platform s)
  unfolding remove_context
  remove_context-IsFresh platform s v = delete_found-IsFresh (lookup platform s.contexts) _ v

  put_context-IsFresh :
      (platform : Text) (p : ℕ) (s : Manager J) → IsFresh s → IsFresh (put_context J platform p s)
  unfolding put_context
  put_context-IsFresh platform p s v = delete_found-IsFresh (lookup platform s.contexts) _ v

  pub delete_contexts-IsFresh :
      (cs : List (Text × ℕ)) (s : Manager J) → IsFresh s → IsFresh (delete_contexts J cs s)
  unfolding delete_contexts
  delete_contexts-IsFresh [] s v = v
  delete_contexts-IsFresh ((n, p) ∷ cs) s v =
      delete_contexts-IsFresh cs _ (delete_context-IsFresh p s v)

  with_context-Keeps : (k : OnContext J) (p : ℕ) → Keeps (with_context J k p)
  unfolding with_context
  with_context-Keeps (give c) p = call-Keeps c (context p)
  with_context-Keeps (save_cookies platform on_done on_error) p =
      >>=-Keeps (this J p) _ (this-Keeps p) (λ c. send_command-Keeps _ _ _ _ c.session_id)
  with_context-Keeps (restore_cookies cookies on_done on_error) p =
      >>=-Keeps (this J p) _ (this-Keeps p) (λ c. send_command-Keeps _ _ _ _ c.session_id)

  -- The started manager's part of do_get_context.
  abbrev get_started : Text → OnContext J → ℕ → Option ℕ → Exec J (Unit {0})
  get_started platform k on_error o s = elim o [
    | some p ↦ with_context J k p s
    | none ↦
        send_command J (txt "Target.createTarget")
          (J.object ((txt "url", J.str (txt "about:blank")) ∷ []))
          (target_created platform k on_error) (call_error on_error) [] s
  ]

  get_started-Keeps :
      (platform : Text) (k : OnContext J) (on_error : ℕ) (o : Option ℕ)
      → Keeps (get_started platform k on_error o)
  get_started-Keeps platform k on_error none s v = send_command-Keeps _ _ _ _ [] s v
  get_started-Keeps platform k on_error (some p) s v = with_context-Keeps k p s v

  pub do_get_context-Keeps :
      (platform : Text) (k : OnContext J) (on_error : ℕ)
      → Keeps (do_get_context J platform k on_error)
  unfolding do_get_context
  do_get_context-Keeps platform k on_error s v =
      branch-Keeps s.started (get_started platform k on_error (lookup platform s.contexts))
        (call on_error (error (txt "not started"))) s
        (get_started-Keeps platform k on_error (lookup platform s.contexts))
        (call-Keeps on_error (error (txt "not started"))) v

  pub on_target_created-Keeps :
      (platform : Text) (k : OnContext J) (on_error : ℕ) (target : Text)
      → Keeps (on_target_created J platform k on_error target)
  unfolding on_target_created
  on_target_created-Keeps platform k on_error target = send_command-Keeps _ _ _ _ []

  pub on_target_attached-Keeps :
      (platform target : Text) (k : OnContext J) (session : Text)
      → Keeps (on_target_attached J platform target k session)
  unfolding on_target_attached
  on_target_attached-Keeps platform target k session s v =
      >>=-Keeps (send_command J (txt "Page.addScriptToEvaluateOnNewDocument") _ _ _ session) _
        (send_command-Keeps _ _ (script_added platform s.next k) (discard_context s.next) session)
        (λ _. send_command-Keeps _ _ ignore ignore_error session)
        (record s {
          heap =
              insert s.next
                (record {
                  platform = platform;
                  target_id = target;
                  session_id = session;
                  closed = false;
                  after_guards = [];
                })
                s.heap;
          next = suc s.next;
        })
        v

  pub on_script_added-Keeps :
      (platform : Text) (p : ℕ) (k : OnContext J) → Keeps (on_script_added J platform p k)
  unfolding on_script_added
  on_script_added-Keeps platform p k s v =
      with_context-Keeps k p (put_context J platform p s) (put_context-IsFresh platform p s v)
