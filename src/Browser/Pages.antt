-- ===== src/Browser/Pages.antt =====
-- The methods of CdpBrowserContext. A context is an address; a method of a freed one is a fault.
use lynne_social.Prelude.{
  ℕ, suc, ◌≡◌, refl, Bool, true, false, none, some, [], ◌∷◌, ◌++◌, Text, txt, text_eq, ltb, ℤ, pos,
  nat_eq, lookup, insert, if◌then◌else◌,
}
use lynne_social.Json.{JsonLib}
use lynne_social.Browser.Scripts.{click_js, hover_js, type_js, scroll_js, exists_js, dump_js}
use lynne_social.Browser.State.{
  Manager, Context, OnOk, OnErr, check, call_done, call_json, call_result, call_url,
  write_screenshot, target_closed, acted, call_exists, call_dump, key_is_down, call_error, error,
}
use lynne_social.Browser.Exec.{Exec, ◌>>=◌, ◌>>◌, call, dangling, modify}
use lynne_social.Browser.Commands.{send_command}

module _ (J : JsonLib) where
  open J use {Json, object, str, int, bool}

  -- `this`
  unfoldable pub this : ℕ → Exec J Context
  this p s = elim (lookup p s.heap) [ none ↦ dangling s | some c ↦ (some c, s) ]

  pub this_at :
      (p : ℕ) (s : Manager J) (c : Context) → lookup p s.heap ≡ some c → this p s ≡ (some c, s)
  unfolding this
  this_at p s c h = rw (h, this) refl

  -- the params of Runtime.evaluate
  unfoldable pub evaluate_params : Text → Json
  evaluate_params js = object ((txt "expression", str js) ∷ (txt "returnByValue", bool true) ∷ [])

  -- evaluate, with what is done with the "result" of the reply
  unfoldable pub evaluate_with : ℕ → Text → OnOk J → OnErr J → Exec J (Unit {0})
  unfolding this evaluate_params
  evaluate_with p js on_result on_error = do
    c ← this p
    send_command J (txt "Runtime.evaluate") (evaluate_params js) on_result on_error c.session_id

  unfoldable pub navigate : ℕ → Text → ℕ → ℕ → Exec J (Unit {0})
  unfolding this
  navigate p url on_loaded on_error = do
    c ← this p
    send_command J (txt "Page.navigate") (object ((txt "url", str url) ∷ [])) (call_done on_loaded)
        (call_error on_error) c.session_id

  unfoldable pub evaluate : ℕ → Text → ℕ → ℕ → Exec J (Unit {0})
  unfolding evaluate_with
  evaluate p js on_result on_error =
      evaluate_with p js (call_result on_result) (call_error on_error)

  unfoldable pub add_init_script : ℕ → Text → ℕ → ℕ → Exec J (Unit {0})
  unfolding this
  add_init_script p js on_done on_error = do
    c ← this p
    send_command J (txt "Page.addScriptToEvaluateOnNewDocument")
        (object ((txt "source", str js) ∷ [])) (call_done on_done) (call_error on_error)
        c.session_id

  unfoldable pub current_url : ℕ → ℕ → ℕ → Exec J (Unit {0})
  unfolding evaluate_with
  current_url p on_url on_error =
      evaluate_with p (txt "document.URL") (call_url on_url) (call_error on_error)

  unfoldable pub screenshot : ℕ → Text → ℕ → ℕ → Exec J (Unit {0})
  unfolding this
  screenshot p filepath on_done on_error = do
    c ← this p
    send_command J (txt "Page.captureScreenshot") (object ((txt "format", str (txt "png")) ∷ []))
        (write_screenshot filepath on_done on_error) (call_error on_error) c.session_id

  unfoldable pub page_command : ℕ → Text → Json → ℕ → ℕ → Exec J (Unit {0})
  unfolding this
  page_command p method params on_ok on_error = do
    c ← this p
    send_command J method params (call_json on_ok) (call_error on_error) c.session_id

  -- close, behind its `this`
  unfoldable pub close_open : ℕ → Context → ℕ → ℕ → Exec J (Unit {0})
  close_open p c on_done on_error =
      if c.closed then call on_error (error (txt "already closed")) else (do
        modify (λ s. record s { heap = insert p (record c { closed = true }) s.heap })
        send_command J (txt "Target.closeTarget") (object ((txt "targetId", str c.target_id) ∷ []))
            (target_closed p on_done) (call_error on_error) [])

  unfoldable pub close : ℕ → ℕ → ℕ → Exec J (Unit {0})
  unfolding this close_open
  close p on_done on_error = do c ← this p; close_open p c on_done on_error

  -- `if (closed_) { on_error("context closed"); return; }`
  unfoldable pub unless_closed : ℕ → ℕ → (Context → Exec J (Unit {0})) → Exec J (Unit {0})
  unfolding this
  unless_closed p on_error act = do
    c ← this p
    if c.closed then call on_error (error (txt "context closed")) else act c

  unfoldable pub click : ℕ → Text → ℕ → ℕ → Exec J (Unit {0})
  unfolding unless_closed evaluate_with
  click p selector on_done on_error = unless_closed p on_error λ c.
      evaluate_with p (click_js selector) (acted (txt "click: element not found") on_done on_error)
        (call_error on_error)

  unfoldable pub type_text : ℕ → Text → Text → ℕ → ℕ → Exec J (Unit {0})
  unfolding unless_closed evaluate_with
  type_text p selector text on_done on_error = unless_closed p on_error λ c.
      evaluate_with p (type_js selector text)
        (acted (txt "type: element not found") on_done on_error) (call_error on_error)

  unfoldable pub scroll : ℕ → ℤ → ℤ → ℕ → ℕ → Exec J (Unit {0})
  unfolding unless_closed evaluate_with
  scroll p delta_x delta_y on_done on_error =
      unless_closed p on_error
        λ c. evaluate_with p (scroll_js delta_x delta_y) (call_done on_done) (call_error on_error)

  -- the virtual key codes that press_key knows
  unfoldable pub virtual_key : Text → ℕ
  virtual_key key =
      if text_eq key (txt "Enter")
      then 13
      else if text_eq key (txt "Tab")
      then 9
      else if text_eq key (txt "Escape")
      then 27
      else if text_eq key (txt "Backspace")
      then 8
      else if text_eq key (txt "Delete")
      then 46
      else 0

  -- the params of a key event; `text` is added for Enter going down
  unfoldable pub key_params : Text → Text → ℕ → Bool → Json
  key_params kind key vk enter = object (
      (txt "type", str kind)
      ∷ (txt "key", str key)
      ∷ ((if ltb 0 vk then (txt "windowsVirtualKeyCode", int (pos vk)) ∷ [] else [])
          ++ (if enter then (txt "text", str (13 ∷ [])) ∷ [] else [])))

  unfoldable pub press_key : ℕ → Text → ℕ → ℕ → Exec J (Unit {0})
  unfolding unless_closed virtual_key key_params
  press_key p key on_done on_error = unless_closed p on_error λ c.
      let vk = virtual_key key in
      send_command J (txt "Input.dispatchKeyEvent")
        (key_params (txt "keyDown") key vk (text_eq key (txt "Enter")))
        (key_is_down key vk p on_done on_error) (call_error on_error) c.session_id

  unfoldable pub hover : ℕ → Text → ℕ → ℕ → Exec J (Unit {0})
  unfolding unless_closed evaluate_with
  hover p selector on_done on_error = unless_closed p on_error λ c.
      evaluate_with p (hover_js selector) (acted (txt "hover: element not found") on_done on_error)
        (call_error on_error)

  unfoldable pub exists : ℕ → Text → ℕ → ℕ → Exec J (Unit {0})
  unfolding unless_closed evaluate_with
  exists p selector on_result on_error =
      unless_closed p on_error
        λ c. evaluate_with p (exists_js selector) (call_exists on_result) (call_error on_error)

  -- wait_for_selector allocates `done` and posts the check
  unfoldable pub wait_for_selector : ℕ → Text → ℕ → ℕ → ℕ → Exec J (Unit {0})
  unfolding unless_closed
  wait_for_selector p selector timeout_ms on_found on_timeout = unless_closed p on_timeout λ c.
      modify λ s. record s {
        flags = insert s.next false s.flags;
        next = suc s.next;
        posted =
            s.posted
            ++ (check (record {
              ctx = p;
              selector = selector;
              timeout_ms = timeout_ms;
              on_found = on_found;
              on_timeout = on_timeout;
              start = s.clock;
              finished = s.next;
            })
                ∷ []);
      }

  -- after allocates `alive`, arms a timer and keeps the guard
  unfoldable pub after : ℕ → ℕ → ℕ → Exec J (Unit {0})
  unfolding this
  after p delay_ms callback = do
    c ← this p
    modify λ s. record s {
      flags = insert s.next true s.flags;
      next = suc s.next;
      timers = s.timers ++ ((delay_ms, s.next, callback) ∷ []);
      heap = insert p (record c { after_guards = c.after_guards ++ (s.next ∷ []) }) s.heap;
    }

  -- dump_page_structure of browser_helpers.cpp
  unfoldable pub dump_page_structure : ℕ → ℕ → ℕ → Exec J (Unit {0})
  unfolding evaluate_with
  dump_page_structure p on_result on_error =
      evaluate_with p dump_js (call_dump on_result) (call_error on_error)
