-- ===== src/Browser/Fresh/Messages.antt =====
-- What arrives on the WebSocket and in the post queue keeps the ids of commands fresh
-- (cdp_browser_manager.cpp).
use lynne_social.Prelude.{
  ℕ, suc, refl, Bool, true, Option, none, some, List, [], ◌∷◌, Text, txt, ℤ, pos, negsuc, nat_eq,
  text_eq_instance, lookup, insert, erase, Option-cases, inl, inr,
}
use lynne_social.Json.{JsonLib}
use lynne_social.Storage.Fs.{Disk}
use lynne_social.Browser.State.{
  Manager, Task, PendingRequest, opened, message, check, done, value, ignore, ignore_error,
}
use lynne_social.Browser.Exec.{modify, call}
use lynne_social.Browser.Commands.{ws_open, send_frames, send_frame, event_key}
use lynne_social.Browser.Callbacks.{run_err, flag_at}
use lynne_social.Browser.Messages.{
  answer, on_reply, on_method, on_ws_message, run_task, run_tasks, drain_posted, fire, dispatch,
  at_id, erase_id, run_timer, or_else, error_text,
}
use lynne_social.Browser.Fresh.{
  IsFresh, Keeps, >>=-Keeps, call-Keeps, branch-Keeps, send_frame-Keeps, erased-IsFresh,
  entered-IsFresh,
}
use lynne_social.Browser.Fresh.Replies.{run_ok-Keeps, run_err-Keeps, run_check-Keeps, after_lift}

module _ (J : JsonLib) (can_open : Text → Disk → Bool) where
  open J use {Json, find, get_str, get_int, value_str}

  answer-Keeps : (r : PendingRequest J) (msg : Json) → Keeps (answer J can_open r msg)
  unfolding answer
  answer-Keeps r msg s v = elim (Option-cases (find (txt "error") msg)) [
    | inl e ↦
        rw (e, answer)
          (run_ok-Keeps J can_open r.on_ok (or_else J can_open (find (txt "result") msg) J.null) s
            v)
    | inr (err, e) ↦
        rw (e, answer)
          (after_lift J can_open (error_text J can_open err) (run_err J can_open r.on_error)
            (run_err-Keeps J can_open r.on_error) s v)
  ]

  erase_id-IsFresh :
      (id : ℤ) (s : Manager J)
      → IsFresh s
      → IsFresh (record s { pending = erase_id J can_open id s.pending })
  erase_id-IsFresh (pos n) s v = erased-IsFresh n s v
  erase_id-IsFresh (negsuc n) s v = v

  on_reply-Keeps : (id : ℤ) (msg : Json) → Keeps (on_reply J can_open id msg)
  unfolding on_reply
  on_reply-Keeps id msg s v = elim (Option-cases (at_id J can_open id s.pending)) [
    | inl e ↦ rw (e, on_reply) v
    | inr (r, e) ↦
        rw (e, on_reply)
          (>>=-Keeps (answer J can_open r msg)
            (λ _. modify (λ s. record s { pending = erase_id J can_open id s.pending }))
            (answer-Keeps r msg) (λ _. erase_id-IsFresh id) s v)
  ]

  fire-Keeps : (c : Option ℕ) (key : Text) (params : Json) → Keeps (fire J can_open c key params)
  fire-Keeps none key params s v = v
  fire-Keeps (some c) key params s v =
      call-Keeps c (value params) (record s { event_handlers = erase key s.event_handlers }) v

  on_method-Keeps : (m msg : Json) → Keeps (on_method J can_open m msg)
  unfolding on_method
  on_method-Keeps m msg = after_lift J can_open (get_str m) _ λ method.
      after_lift J can_open (value_str msg (txt "sessionId") []) _ λ sid s v.
        fire-Keeps (lookup (event_key J sid method) s.event_handlers) (event_key J sid method)
          (or_else J can_open (find (txt "params") msg) (J.object [])) s v

  dispatch-Keeps : (i m : Option Json) (msg : Json) → Keeps (dispatch J can_open i m msg)
  dispatch-Keeps (some i) m msg =
      after_lift J can_open (get_int i) (λ id. on_reply J can_open id msg)
        (λ id. on_reply-Keeps id msg)
  dispatch-Keeps none (some m) msg = on_method-Keeps m msg
  dispatch-Keeps none none msg = λ s v. v

  on_ws_message-Keeps : (text : Text) → Keeps (on_ws_message J can_open text)
  unfolding on_ws_message
  on_ws_message-Keeps text s v = elim (Option-cases (J.parse text)) [
    | inl e ↦ rw (e, on_ws_message) v
    | inr (msg, e) ↦
        rw (e, on_ws_message)
          (dispatch-Keeps (find (txt "id") msg) (find (txt "method") msg) msg s v)
  ]

  send_frames-Keeps : (ms : List Json) → Keeps (send_frames J ms)
  unfolding send_frames
  send_frames-Keeps [] = λ s v. v
  send_frames-Keeps (m ∷ ms) =
      >>=-Keeps (send_frame J m) (λ _. send_frames J ms) (send_frame-Keeps m)
        (λ _. send_frames-Keeps ms)

  -- The queue is empty, and the id of Page.enable is entered.
  abbrev flushed : Manager J → Manager J
  flushed s = record s {
    pending_commands = [];
    cmd_id = suc s.cmd_id;
    pending = insert s.cmd_id (record { on_ok = ignore; on_error = ignore_error }) s.pending;
  }

  ws_open-Keeps : Keeps (ws_open J)
  unfolding ws_open
  ws_open-Keeps s v =
      >>=-Keeps (send_frames J s.pending_commands) _ (send_frames-Keeps s.pending_commands)
        (λ _ s v. send_frame-Keeps _ (flushed s) (
          entered-IsFresh (record { on_ok = ignore; on_error = ignore_error }) s (flushed s) refl
            refl v))
        (record s { ws_ready = true }) v

  run_task-Keeps : (t : Task J) → Keeps (run_task J can_open t)
  unfolding run_task
  run_task-Keeps opened = ws_open-Keeps
  run_task-Keeps (message text) = on_ws_message-Keeps text
  run_task-Keeps (check w) = run_check-Keeps J can_open w

  run_tasks-IsFresh :
      (ts : List (Task J)) (s : Manager J) → IsFresh s → IsFresh (run_tasks J can_open ts s)
  unfolding run_tasks
  run_tasks-IsFresh [] s v = v
  run_tasks-IsFresh (t ∷ ts) s v =
      run_tasks-IsFresh ts (run_task J can_open t s).1 (run_task-Keeps t s v)

  pub drain_posted-IsFresh : (s : Manager J) → IsFresh s → IsFresh (drain_posted J can_open s)
  unfolding drain_posted
  drain_posted-IsFresh s v = run_tasks-IsFresh s.posted (record s { posted = [] }) v

  pub run_timer-Keeps : (guard callback : ℕ) → Keeps (run_timer J can_open guard callback)
  unfolding run_timer
  run_timer-Keeps guard callback s v =
      branch-Keeps (flag_at J can_open (lookup guard s.flags)) (call callback done)
        (modify (λ s. s)) s (call-Keeps callback done) (λ s v. v) v
