-- ===== src/Browser/Messages.antt =====
-- on_ws_message, and the loop's side: the posted tasks and the timers of `after`.
use lynne_social.Prelude.{
  ℕ, Bool, Option, none, some, List, [], ◌∷◌, Text, txt, ℤ, pos, negsuc, nat_eq, text_eq_instance,
  lookup, erase, if◌then◌else◌,
}
use lynne_social.Json.{JsonLib}
use lynne_social.Storage.Fs.{Disk}
use lynne_social.Browser.State.{Manager, Task, PendingRequest, opened, message, check, value, done}
use lynne_social.Browser.Exec.{Exec, ◌>>=◌, ◌>>◌, pure, lift, call, modify}
use lynne_social.Browser.Commands.{ws_open, event_key}
use lynne_social.Browser.Callbacks.{run_ok, run_err, run_check, flag_at}

module _ (J : JsonLib) (can_open : Text → Disk → Bool) where
  open J use {Json, object, parse, find, get_int, get_str, null, value_str}

  abbrev pub or_else : Option Json → Json → Json
  or_else none d = d
  or_else (some j) d = j

  abbrev pub at_id : ℤ → List (ℕ × PendingRequest J) → Option (PendingRequest J)
  at_id (pos n) pending = lookup n pending
  at_id (negsuc n) pending = none

  abbrev pub erase_id : ℤ → List (ℕ × PendingRequest J) → List (ℕ × PendingRequest J)
  erase_id (pos n) pending = erase n pending
  erase_id (negsuc n) pending = pending

  -- msg["error"]["message"].get<std::string>()
  abbrev pub error_text : Json → Option Text
  error_text err = elim (find (txt "message") err) [ none ↦ none | some m ↦ get_str m ]

  -- the callback of a pending request, for an error or a result
  unfoldable pub answer : PendingRequest J → Json → Exec J (Unit {0})
  answer r msg = elim (find (txt "error") msg) [
    | some err ↦ do t ← lift (error_text err); run_err J can_open r.on_error t
    | none ↦ run_ok J can_open r.on_ok (or_else (find (txt "result") msg) null)
  ]

  -- a message with an id: the callback runs, then the request is erased
  unfoldable pub on_reply : ℤ → Json → Exec J (Unit {0})
  unfolding answer
  on_reply id msg s = elim (at_id id s.pending) [
    | none ↦ (some tt, s)
    | some r ↦ (do answer r msg; modify (λ s. record s { pending = erase_id id s.pending })) s
  ]

  abbrev pub fire : Option ℕ → Text → Json → Exec J (Unit {0})
  fire none key params = pure tt
  fire (some c) key params = do
    modify (λ s. record s { event_handlers = erase key s.event_handlers })
    call c (value params)

  -- an event: its handler is taken out and called, once
  unfoldable pub on_method : Json → Json → Exec J (Unit {0})
  unfolding event_key
  on_method m msg = do
    method ← lift (get_str m)
    sid ← lift (value_str msg (txt "sessionId") [])
    λ s.
        let key = event_key J sid method in
        fire (lookup key s.event_handlers) key (or_else (find (txt "params") msg) (object [])) s

  abbrev pub dispatch : Option Json → Option Json → Json → Exec J (Unit {0})
  dispatch (some i) m msg = do id ← lift (get_int i); on_reply id msg
  dispatch none (some m) msg = on_method m msg
  dispatch none none msg = pure tt

  unfoldable pub on_ws_message : Text → Exec J (Unit {0})
  unfolding on_reply on_method
  on_ws_message text s = elim (parse text) [
    | none ↦ (some tt, s)
    | some msg ↦ dispatch (find (txt "id") msg) (find (txt "method") msg) msg s
  ]

  unfoldable pub run_task : Task J → Exec J (Unit {0})
  run_task opened = ws_open J
  run_task (message text) = on_ws_message text
  run_task (check w) = run_check J can_open w

  -- drain_post_queue of the scheduler: exceptions are swallowed
  unfoldable pub run_tasks : List (Task J) → Manager J → Manager J
  run_tasks [] s = s
  run_tasks (t ∷ ts) s = run_tasks ts (run_task t s).1

  unfoldable pub drain_posted : Manager J → Manager J
  unfolding run_tasks
  drain_posted s = run_tasks s.posted (record s { posted = [] })

  -- The lambda that `after` gives to the scheduler: the callback, if the context is still there.
  unfoldable pub run_timer : ℕ → ℕ → Exec J (Unit {0})
  run_timer guard callback s =
      if flag_at J can_open (lookup guard s.flags) then call callback done s else (some tt, s)
