-- ===== src/Browser/Fresh/Replies.antt =====
-- What a reply, an event or a posted task runs keeps the ids of commands fresh
-- (cdp_browser_manager.cpp).
use lynne_social.Prelude.{
  ◌-◌, leb, Bool, true, false, Option, some, ◌++◌, Text, txt, nat_eq, text_eq_instance, lookup,
  insert, if◌then◌else◌,
}
use lynne_social.Json.{JsonLib}
use lynne_social.Storage.Fs.{Disk, overwrite}
use lynne_social.Browser.State
use lynne_social.Browser.State.{
  Manager, Context, OnOk, OnErr, OnContext, Wait, Task, PendingRequest, opened, message, check,
  done, value, error,
}
use lynne_social.Browser.Exec.{Exec, ◌>>=◌, modify, call, lift, pure}
use lynne_social.Browser.Scripts.{exists_js}
use lynne_social.Browser.Base64.{base64_decode}
use lynne_social.Browser.Pages.{this, evaluate_with}
use lynne_social.Browser.Contexts.{remove_context}
use lynne_social.Browser.Callbacks.{
  run_check, run_ok, run_err, write_file, member, session_path, value_is_true, flag_at,
}
use lynne_social.Browser.Fresh.{
  IsFresh, if-IsFresh, Keeps, >>=-Keeps, call-Keeps, cond-Keeps, branch-Keeps, this-Keeps,
  send_command-Keeps,
}
use lynne_social.Browser.Fresh.Pages.{
  evaluate_with-Keeps, delete_context-IsFresh, remove_context-IsFresh, on_target_created-Keeps,
  on_target_attached-Keeps, on_script_added-Keeps,
}

module _ (J : JsonLib) (can_open : Text → Disk → Bool) where
  open J use {Json}

  -- The accesses that may throw.
  after_member :
      (k : Text) (j : Json) (f : Json → Exec J (Unit {0}))
      → ((r : Json) → Keeps (f r))
      → Keeps (member J can_open k j >>= f)
  unfolding member
  after_member k j f h = >>=-Keeps (member J can_open k j) f (λ s v. v) h

  pub after_lift {ℓ} :
      {A : Type ℓ} (r : Option A) (f : A → Exec J (Unit {0}))
      → ((a : A) → Keeps (f a))
      → Keeps (lift r >>= f)
  after_lift r f h = >>=-Keeps (lift r) f (λ s v. v) h

  abbrev end_wait : Wait → Manager J → Manager J
  end_wait w s = record s { flags = insert w.finished true s.flags }

  -- The parts of a check: whether its time is over, and whether its context is closed.
  abbrev check_time : Wait → Exec J (Unit {0})
  check_time w s =
      if leb w.timeout_ms (s.clock - w.start)
      then call w.on_timeout (error (txt "wait_for_selector timeout (" ++ (w.selector ++ txt ")")))
          (end_wait w s)
      else evaluate_with J w.ctx (exists_js w.selector) (State.waited w) (State.wait_again w) s

  abbrev check_closed : Wait → Context → Exec J (Unit {0})
  check_closed w c s = if c.closed then (some tt, end_wait w s) else check_time w s

  check_time-Keeps : (w : Wait) → Keeps (check_time w)
  check_time-Keeps w s v =
      branch-Keeps (leb w.timeout_ms (s.clock - w.start))
        (λ s.
          call w.on_timeout (error (txt "wait_for_selector timeout (" ++ (w.selector ++ txt ")")))
            (end_wait w s))
        (evaluate_with J w.ctx (exists_js w.selector) (State.waited w) (State.wait_again w)) s
        (λ s v. call-Keeps w.on_timeout _ (end_wait w s) v)
        (evaluate_with-Keeps J w.ctx (exists_js w.selector) (State.waited w) (State.wait_again w)) v

  check_closed-Keeps : (w : Wait) (c : Context) → Keeps (check_closed w c)
  check_closed-Keeps w c s v =
      branch-Keeps c.closed (modify (end_wait w)) (check_time w) s (λ s v. v) (check_time-Keeps w) v

  pub run_check-Keeps : (w : Wait) → Keeps (run_check J can_open w)
  unfolding run_check
  run_check-Keeps w s v =
      branch-Keeps (flag_at J can_open (lookup w.finished s.flags)) (pure tt)
        (this J w.ctx >>= check_closed w) s (λ s v. v)
        (>>=-Keeps (this J w.ctx) (check_closed w) (this-Keeps w.ctx) (check_closed-Keeps w)) v

  -- What waits for an element goes on with, when the page has answered.
  abbrev hit_or_again : Wait → Bool → Exec J (Unit {0})
  hit_or_again w found s =
      if found then call w.on_found done (end_wait w s) else run_check J can_open w s

  hit_or_again-Keeps : (w : Wait) (found : Bool) → Keeps (hit_or_again w found)
  hit_or_again-Keeps w true s v = call-Keeps w.on_found done (end_wait w s) v
  hit_or_again-Keeps w false s v = run_check-Keeps w s v

  write_file-IsFresh :
      (path content : Text) (s : Manager J)
      → IsFresh s
      → IsFresh (write_file J can_open path content s)
  unfolding write_file
  write_file-IsFresh path content s v =
      if-IsFresh (can_open path s.disk) (record s { disk = overwrite path content s.disk }) s v v

  pub run_ok-Keeps : (k : OnOk J) (result : Json) → Keeps (run_ok J can_open k result)
  unfolding run_ok
  run_ok-Keeps State.ignore result = λ s v. v
  run_ok-Keeps (State.call_done c) result = call-Keeps c _
  run_ok-Keeps (State.call_json c) result = call-Keeps c _
  run_ok-Keeps (State.call_result c) result =
      after_member (txt "result") result _ (λ r. call-Keeps c _)
  run_ok-Keeps (State.call_url c) result =
      after_member (txt "result") result _
        λ r. after_member (txt "value") r _ λ u. after_lift (J.get_str u) _ (λ t. call-Keeps c _)
  run_ok-Keeps (State.write_screenshot path on_done on_error) result =
      after_member (txt "data") result _ λ u. after_lift (J.get_str u) _ λ t s v.
        branch-Keeps (can_open path s.disk)
          (λ s. call on_done done (record s { disk = overwrite path (base64_decode t) s.disk }))
          (call on_error (error (txt "screenshot: cannot write file"))) s
          (λ s v.
            call-Keeps on_done done (record s { disk = overwrite path (base64_decode t) s.disk }) v)
          (call-Keeps on_error _) v
  run_ok-Keeps (State.target_closed p on_done) result =
      >>=-Keeps (this J p) _ (this-Keeps p) λ c s v.
        call-Keeps on_done done (remove_context J c.platform s)
          (remove_context-IsFresh J c.platform s v)
  run_ok-Keeps (State.acted missing on_done on_error) result =
      after_member (txt "result") result _ λ r. after_lift (value_is_true J can_open r) _ λ hit.
        cond-Keeps hit (call on_done done) (call on_error (error missing)) (call-Keeps on_done done)
          (call-Keeps on_error _)
  run_ok-Keeps (State.call_exists c) result =
      after_member (txt "result") result _
        λ r. after_lift (value_is_true J can_open r) _ (λ hit. call-Keeps c _)
  run_ok-Keeps (State.call_dump c) result =
      after_member (txt "result") result _ λ r. after_lift _ _ (λ t. call-Keeps c _)
  run_ok-Keeps (State.key_is_down key vk p on_done on_error) result =
      >>=-Keeps (this J p) _ (this-Keeps p) (λ c. send_command-Keeps _ _ _ _ c.session_id)
  run_ok-Keeps (State.waited w) result = after_member (txt "result") result _ λ r s v.
      branch-Keeps (flag_at J can_open (lookup w.finished s.flags)) (pure tt)
        (lift (value_is_true J can_open r) >>= hit_or_again w) s (λ s v. v)
        (after_lift (value_is_true J can_open r) (hit_or_again w) (hit_or_again-Keeps w)) v
  run_ok-Keeps (State.target_created platform k on_error) result =
      after_member (txt "targetId") result _
        λ u. after_lift (J.get_str u) _ λ t. on_target_created-Keeps J platform k on_error t
  run_ok-Keeps (State.target_attached platform target k on_error) result =
      after_member (txt "sessionId") result _
        λ u. after_lift (J.get_str u) _ λ t. on_target_attached-Keeps J platform target k t
  run_ok-Keeps (State.script_added platform p k) result = on_script_added-Keeps J platform p k
  run_ok-Keeps (State.cookies_got platform on_done) result =
      after_member (txt "cookies") result _ λ cookies. after_lift _ _ λ content s v.
        call-Keeps on_done done
          (write_file J can_open (session_path s.config.sessions_dir platform) content s)
          (write_file-IsFresh (session_path s.config.sessions_dir platform) content s v)
  run_ok-Keeps (State.cookies_set on_done) result = call-Keeps on_done _

  pub run_err-Keeps : (k : OnErr J) (err : Text) → Keeps (run_err J can_open k err)
  unfolding run_err
  run_err-Keeps State.ignore_error err = λ s v. v
  run_err-Keeps (State.call_error c) err = call-Keeps c (error err)
  run_err-Keeps (State.discard_context p) err = delete_context-IsFresh J p
  run_err-Keeps (State.wait_again w) err = λ s v.
      branch-Keeps (flag_at J can_open (lookup w.finished s.flags)) (pure tt)
        (run_check J can_open w) s (λ s v. v) (run_check-Keeps w) v
