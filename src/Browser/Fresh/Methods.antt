-- ===== src/Browser/Fresh/Methods.antt =====
-- The methods that a client may call keep the ids of commands fresh (cdp_browser_manager.cpp).
use lynne_social.Prelude.{
  ℕ, Bool, false, Option, none, some, Text, ℤ, nat_eq, text_eq_instance, empty,
}
use lynne_social.Json.{JsonLib}
use lynne_social.Storage.Fs.{Disk, content}
use lynne_social.Browser.State.{OnOk, OnErr, save_cookies, restore_cookies, give, flag}
use lynne_social.Browser.Exec.{Exec, call}
use lynne_social.Browser.Commands.{send_command}
use lynne_social.Browser.Pages.{
  navigate, evaluate, add_init_script, current_url, screenshot, page_command, close, click,
  type_text, scroll, press_key, hover, exists, wait_for_selector, after, dump_page_structure,
}
use lynne_social.Browser.Contexts.{get_context, do_get_context}
use lynne_social.Browser.Sessions.{save_session, restore_session, session_cookies}
use lynne_social.Browser.Callbacks.{session_path}
use lynne_social.Browser.Fresh.{Keeps, call-Keeps, branch-Keeps, send_command-Keeps}
use lynne_social.Browser.Fresh.Pages

module _ (J : JsonLib) (can_open : Text → Disk → Bool) where
  -- A method that a client may call.
  pub data Method : Exec J (Unit {0}) → Type 0 where
    navigates : (p : ℕ) (url : Text) (a b : ℕ) → Method (navigate J p url a b)
    evaluates : (p : ℕ) (js : Text) (a b : ℕ) → Method (evaluate J p js a b)
    adds_init_script : (p : ℕ) (js : Text) (a b : ℕ) → Method (add_init_script J p js a b)
    reads_url : (p a b : ℕ) → Method (current_url J p a b)
    takes_screenshot : (p : ℕ) (path : Text) (a b : ℕ) → Method (screenshot J p path a b)
    sends_on_page :
        (p : ℕ) (method : Text) (params : J.Json) (a b : ℕ)
        → Method (page_command J p method params a b)
    closes : (p a b : ℕ) → Method (close J p a b)
    clicks : (p : ℕ) (selector : Text) (a b : ℕ) → Method (click J p selector a b)
    types : (p : ℕ) (selector text : Text) (a b : ℕ) → Method (type_text J p selector text a b)
    scrolls : (p : ℕ) (dx dy : ℤ) (a b : ℕ) → Method (scroll J p dx dy a b)
    presses : (p : ℕ) (key : Text) (a b : ℕ) → Method (press_key J p key a b)
    hovers : (p : ℕ) (selector : Text) (a b : ℕ) → Method (hover J p selector a b)
    asks_exists : (p : ℕ) (selector : Text) (a b : ℕ) → Method (exists J p selector a b)
    waits : (p : ℕ) (selector : Text) (ms a b : ℕ) → Method (wait_for_selector J p selector ms a b)
    arms : (p ms c : ℕ) → Method (after J p ms c)
    dumps : (p a b : ℕ) → Method (dump_page_structure J p a b)
    sends :
        (method : Text) (params : J.Json) (on_ok : OnOk J) (on_error : OnErr J) (session_id : Text)
        → Method (send_command J method params on_ok on_error session_id)
    gets_context : (platform : Text) (a b : ℕ) → Method (get_context J platform a b)
    saves_session : (platform : Text) (a b : ℕ) → Method (save_session J platform a b)
    restores_session : (platform : Text) (a b : ℕ) → Method (restore_session J platform a b)

  -- restore_session behind the file that it read.
  abbrev restore_found : Text → ℕ → ℕ → Option J.Json → Exec J (Unit {0})
  restore_found platform a b o s = elim o [
    | none ↦ call a (flag false) s
    | some cookies ↦ do_get_context J platform (restore_cookies cookies a b) b s
  ]

  restore_found-Keeps :
      (platform : Text) (a b : ℕ) (o : Option J.Json) → Keeps (restore_found platform a b o)
  restore_found-Keeps platform a b none s v = call-Keeps a (flag false) s v
  restore_found-Keeps platform a b (some cookies) s v =
      Pages.do_get_context-Keeps J platform (restore_cookies cookies a b) b s v

  restore_session-Keeps : (platform : Text) (a b : ℕ) → Keeps (restore_session J platform a b)
  unfolding restore_session
  restore_session-Keeps platform a b s v =
      let file = content (session_path s.config.sessions_dir platform) s.disk in
      branch-Keeps (empty file) (call a (flag false))
        (restore_found platform a b (session_cookies J file)) s (call-Keeps a (flag false))
        (restore_found-Keeps platform a b (session_cookies J file)) v

  pub Method-Keeps : {m : Exec J (Unit {0})} → Method m → Keeps m
  Method-Keeps (navigates p url a b) = Pages.navigate-Keeps J p url a b
  Method-Keeps (evaluates p js a b) = Pages.evaluate-Keeps J p js a b
  Method-Keeps (adds_init_script p js a b) = Pages.add_init_script-Keeps J p js a b
  Method-Keeps (reads_url p a b) = Pages.current_url-Keeps J p a b
  Method-Keeps (takes_screenshot p path a b) = Pages.screenshot-Keeps J p path a b
  Method-Keeps (sends_on_page p method params a b) = Pages.page_command-Keeps J p method params a b
  Method-Keeps (closes p a b) = Pages.close-Keeps J p a b
  Method-Keeps (clicks p selector a b) = Pages.click-Keeps J p selector a b
  Method-Keeps (types p selector text a b) = Pages.type_text-Keeps J p selector text a b
  Method-Keeps (scrolls p dx dy a b) = Pages.scroll-Keeps J p dx dy a b
  Method-Keeps (presses p key a b) = Pages.press_key-Keeps J p key a b
  Method-Keeps (hovers p selector a b) = Pages.hover-Keeps J p selector a b
  Method-Keeps (asks_exists p selector a b) = Pages.exists-Keeps J p selector a b
  Method-Keeps (waits p selector ms a b) = Pages.wait_for_selector-Keeps J p selector ms a b
  Method-Keeps (arms p ms c) = Pages.after-Keeps J p ms c
  Method-Keeps (dumps p a b) = Pages.dump_page_structure-Keeps J p a b
  Method-Keeps (sends method params on_ok on_error session_id) =
      send_command-Keeps method params on_ok on_error session_id
  Method-Keeps (gets_context platform a b) =
      unfold get_context in Pages.do_get_context-Keeps J platform (give a) b
  Method-Keeps (saves_session platform a b) =
      unfold save_session in Pages.do_get_context-Keeps J platform (save_cookies platform a b) b
  Method-Keeps (restores_session platform a b) = restore_session-Keeps platform a b
