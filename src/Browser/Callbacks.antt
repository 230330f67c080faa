-- ===== src/Browser/Callbacks.antt =====
-- What runs when a reply, an event or a posted task arrives: the lambdas given to send_command,
-- on_ws_message, the check of wait_for_selector, and a timer of `after`.
use lynne_social.Prelude.{
  ◌-◌, Bool, true, false, Option, none, some, [], ◌∷◌, ◌++◌, Text, txt, leb, ◌==◌, nat_eq,
  text_eq_instance, lookup, insert, if◌then◌else◌,
}
use lynne_social.Json.{JsonLib}
use lynne_social.Storage.Fs.{Disk, overwrite}
use lynne_social.Browser.Base64.{base64_decode}
use lynne_social.Browser.Scripts.{exists_js}
use lynne_social.Browser.State.{
  Manager, Wait, OnOk, OnErr, done, value, text, flag, error, ignore, call_done, call_json,
  call_result, call_url, write_screenshot, target_closed, acted, call_exists, call_dump,
  key_is_down, waited, target_created, target_attached, script_added, cookies_got, cookies_set,
  ignore_error, call_error, discard_context, wait_again,
}
use lynne_social.Browser.Exec.{Exec, ◌>>=◌, ◌>>◌, pure, lift, call, modify}
use lynne_social.Browser.Commands.{send_command}
use lynne_social.Browser.Pages.{this, evaluate_with, key_params}
use lynne_social.Browser.Contexts.{
  remove_context, delete_context, on_target_created, on_target_attached, on_script_added,
}

-- `dir`, closed by a slash unless it is empty
unfoldable pub session_dir : Text → Text
session_dir [] = []
session_dir (c ∷ []) = if c == b'/' then c ∷ [] else c ∷ b'/' ∷ []
session_dir (c ∷ d ∷ s) = c ∷ session_dir (d ∷ s)

-- dir + platform + "_state.json"
unfoldable pub session_path : Text → Text → Text
unfolding session_dir
session_path dir platform = session_dir dir ++ (platform ++ txt "_state.json")

module _ (J : JsonLib) (can_open : Text → Disk → Bool) where
  open J use {Json, object, find, is_null, get_str, get_bool, dump_pretty}

  -- std::ofstream f(path); f << data; an open that fails is not noticed
  unfoldable pub write_file : Text → Text → Manager J → Manager J
  write_file path content s =
      if can_open path s.disk then record s { disk = overwrite path content s.disk } else s

  -- result[key] on a const value: to be there is a precondition
  unfoldable pub member : Text → Json → Exec J Json
  member k j = lift (find k j)

  abbrev pub truth : Option Json → Option Bool
  truth none = some false
  truth (some v) = if is_null v then some false else get_bool v

  -- `res.contains("value") && !res["value"].is_null() && res["value"].get<bool>()`
  unfoldable pub value_is_true : Json → Option Bool
  value_is_true res = truth (find (txt "value") res)

  abbrev pub dump_text : Option Json → Option Text
  dump_text none = some (txt "{}")
  dump_text (some v) = if is_null v then some (txt "{}") else get_str v

  abbrev pub flag_at : Option Bool → Bool
  flag_at none = false
  flag_at (some b) = b

  -- `evaluate` of a check: the context has been read before
  unfoldable pub run_check : Wait → Exec J (Unit {0})
  unfolding this evaluate_with
  run_check w s =
      if flag_at (lookup w.finished s.flags)
      then (some tt, s)
      else (do
        c ← this J w.ctx
        λ s.
            if c.closed
            then (some tt, record s { flags = insert w.finished true s.flags })
            else if leb w.timeout_ms (s.clock - w.start)
            then call w.on_timeout
                (error (txt "wait_for_selector timeout (" ++ (w.selector ++ txt ")")))
                (record s { flags = insert w.finished true s.flags })
            else evaluate_with J w.ctx (exists_js w.selector) (waited w) (wait_again w) s)
          s

  -- The lambdas given as on_ok.
  unfoldable pub run_ok : OnOk J → Json → Exec J (Unit {0})
  unfolding run_check member value_is_true write_file this
  run_ok ignore result = pure tt
  run_ok (call_done c) result = call c done
  run_ok (call_json c) result = call c (value result)
  run_ok (call_result c) result = do r ← member (txt "result") result; call c (value r)
  run_ok (call_url c) result = do
    r ← member (txt "result") result
    v ← member (txt "value") r
    u ← lift (get_str v)
    call c (text u)
  run_ok (write_screenshot filepath on_done on_error) result = do
    v ← member (txt "data") result
    b64 ← lift (get_str v)
    λ s.
        if can_open filepath s.disk
        then call on_done done (record s { disk = overwrite filepath (base64_decode b64) s.disk })
        else call on_error (error (txt "screenshot: cannot write file")) s
  run_ok (target_closed p on_done) result = do
    c ← this J p
    modify (remove_context J c.platform)
    call on_done done
  run_ok (acted missing on_done on_error) result = do
    r ← member (txt "result") result
    hit ← lift (value_is_true r)
    if hit then call on_done done else call on_error (error missing)
  run_ok (call_exists c) result = do
    r ← member (txt "result") result
    found ← lift (value_is_true r)
    call c (flag found)
  run_ok (call_dump c) result = do
    r ← member (txt "result") result
    t ← lift (dump_text (find (txt "value") r))
    call c (text t)
  run_ok (key_is_down key vk p on_done on_error) result = do
    c ← this J p
    send_command J (txt "Input.dispatchKeyEvent") (key_params J (txt "keyUp") key vk false)
        (call_done on_done) (call_error on_error) c.session_id
  run_ok (waited w) result = do
    r ← member (txt "result") result
    λ s.
        if flag_at (lookup w.finished s.flags)
        then (some tt, s)
        else (do
          found ← lift (value_is_true r)
          λ s.
              if found
              then call w.on_found done (record s { flags = insert w.finished true s.flags })
              else run_check w s)
            s
  run_ok (target_created platform on_ok on_error) result = do
    v ← member (txt "targetId") result
    target_id ← lift (get_str v)
    on_target_created J platform on_ok on_error target_id
  run_ok (target_attached platform target_id on_ok on_error) result = do
    v ← member (txt "sessionId") result
    session_id ← lift (get_str v)
    on_target_attached J platform target_id on_ok session_id
  run_ok (script_added platform p on_ok) result = on_script_added J platform p on_ok
  run_ok (cookies_got platform on_done) result = do
    cookies ← member (txt "cookies") result
    content ← lift (dump_pretty (object ((txt "cookies", cookies) ∷ [])))
    modify (λ s. write_file (session_path s.config.sessions_dir platform) content s)
    call on_done done
  run_ok (cookies_set on_done) result = call on_done (flag true)

  -- The lambdas given as on_error.
  unfoldable pub run_err : OnErr J → Text → Exec J (Unit {0})
  unfolding run_check
  run_err ignore_error err = pure tt
  run_err (call_error c) err = call c (error err)
  run_err (discard_context p) err = modify (delete_context J p)
  run_err (wait_again w) err =
      λ s. if flag_at (lookup w.finished s.flags) then (some tt, s) else run_check w s
