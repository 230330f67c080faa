-- ===== src/Browser/Fresh/Reach.antt =====
-- Every order of calls, replies, events, tasks and timers on a manager (cdp_browser_manager.cpp).
use lynne_social.Prelude.{
  ℕ, ◌≡◌, refl, ap, ◌∙◌, lookup-insert_ne, lookup-insert_self, Bool, false, none, some, [], Text,
  nat_eq, text_eq_instance, lookup, insert, arith,
}
use lynne_social.Json.{JsonLib}
use lynne_social.Storage.Fs.{Disk}
use lynne_social.Browser.Config.{BrowserConfig}
use lynne_social.Browser.State.{Manager, OnOk, OnErr, PendingRequest}
use lynne_social.Browser.Exec.{Exec}
use lynne_social.Browser.Commands.{
  send_command, on_event, remove_event, WsEvent, open_event, message_event, error_event,
  other_event, on_ws_event, send_frame,
}
use lynne_social.Browser.Contexts.{remove_context, delete_contexts}
use lynne_social.Browser.Messages.{drain_posted, run_timer}
use lynne_social.Browser.Lifecycle.{manager, start, Launch, on_launched, stop, health_check}
use lynne_social.Browser.Fresh.{IsFresh, IsFresh-of_same, if-IsFresh}
use lynne_social.Browser.Fresh.Pages
use lynne_social.Browser.Fresh.Methods.{Method, Method-Keeps}
use lynne_social.Browser.Fresh.Messages.{drain_posted-IsFresh, run_timer-Keeps}

module _ (J : JsonLib) (can_open : Text → Disk → Bool) where
  -- What may happen to a manager. `ticks` lets time pass.
  pub data Step : Manager J → Manager J → Type 0 where
    runs : {m : Exec J (Unit {0})} (s : Manager J) → Method J can_open m → Step s (m s).1
    listens :
        (s : Manager J) (session_id method : Text) (c : ℕ)
        → Step s (on_event J session_id method c s)
    unlistens :
        (s : Manager J) (session_id method : Text) → Step s (remove_event J session_id method s)
    removes : (s : Manager J) (platform : Text) → Step s (remove_context J platform s)
    starts : (s : Manager J) → Step s (start J s)
    launches : (s : Manager J) (l : Launch J) → Step s (on_launched J l s)
    stops : (s : Manager J) → Step s (stop J s)
    checks : (s : Manager J) (alive : ℕ → Bool) → Step s (health_check J alive s).1
    receives : (s : Manager J) (e : WsEvent J) → Step s (on_ws_event J e s)
    drains : (s : Manager J) → Step s (drain_posted J can_open s)
    fires : (s : Manager J) (guard c : ℕ) → Step s (run_timer J can_open guard c s).1
    ticks : (s : Manager J) (now : ℕ) → Step s (record s { clock = now })

  pub data Reach (s : Manager J) : Manager J → Type 0 where
    here : Reach s s
    next : {t u : Manager J} → Reach s t → Step t u → Reach s u

  on_ws_event-IsFresh : (e : WsEvent J) (s : Manager J) → IsFresh s → IsFresh (on_ws_event J e s)
  unfolding on_ws_event
  on_ws_event-IsFresh open_event s v = v
  on_ws_event-IsFresh (message_event t) s v = v
  on_ws_event-IsFresh error_event s v = v
  on_ws_event-IsFresh other_event s v = v

  start-IsFresh : (s : Manager J) → IsFresh s → IsFresh (start J s)
  unfolding start
  start-IsFresh s v = IsFresh-of_same s (start J s) (ground arith) (ground arith) v

  on_launched-IsFresh : (l : Launch J) (s : Manager J) → IsFresh s → IsFresh (on_launched J l s)
  unfolding on_launched
  on_launched-IsFresh l s v = IsFresh-of_same s (on_launched J l s) (ground arith) (ground arith) v

  health_check-IsFresh :
      (alive : ℕ → Bool) (s : Manager J) → IsFresh s → IsFresh (health_check J alive s).1
  unfolding health_check
  health_check-IsFresh alive s v =
      IsFresh-of_same s (health_check J alive s).1 (ground arith) (ground arith) v

  stop-IsFresh : (s : Manager J) → IsFresh s → IsFresh (stop J s)
  unfolding stop
  stop-IsFresh s v =
      let t = delete_contexts J s.contexts s in
      if-IsFresh s.started
        (record t {
          contexts = [];
          timers = [];
          ws_running = false;
          chrome_pid = none;
          scheduler_started = false;
          started = false;
          chrome_crashed = false;
        })
        s (Pages.delete_contexts-IsFresh J s.contexts s v) v

  Step-IsFresh : {s t : Manager J} → Step s t → IsFresh s → IsFresh t
  Step-IsFresh (runs s m) v = Method-Keeps J can_open m s v
  Step-IsFresh (listens s session_id method c) v = unfold on_event in v
  Step-IsFresh (unlistens s session_id method) v = unfold remove_event in v
  Step-IsFresh (removes s platform) v = Pages.remove_context-IsFresh J platform s v
  Step-IsFresh (starts s) v = start-IsFresh s v
  Step-IsFresh (launches s l) v = on_launched-IsFresh l s v
  Step-IsFresh (stops s) v = stop-IsFresh s v
  Step-IsFresh (checks s alive) v = health_check-IsFresh alive s v
  Step-IsFresh (receives s e) v = on_ws_event-IsFresh e s v
  Step-IsFresh (drains s) v = drain_posted-IsFresh J can_open s v
  Step-IsFresh (fires s guard c) v = run_timer-Keeps J can_open guard c s v
  Step-IsFresh (ticks s now) v = v

  Reach-IsFresh : {s t : Manager J} → Reach s t → IsFresh s → IsFresh t
  Reach-IsFresh here v = v
  Reach-IsFresh (next r st) v = Step-IsFresh st (Reach-IsFresh r v)

  manager-IsFresh : (config : BrowserConfig) (disk : Disk) → IsFresh (manager J config disk)
  unfolding manager lookup
  manager-IsFresh config disk id h = refl

  pending-send_command :
      (method : Text) (params : J.Json) (on_ok : OnOk J) (on_error : OnErr J) (session_id : Text)
      (s : Manager J)
      → (send_command J method params on_ok on_error session_id s).1.pending
        ≡ insert s.cmd_id (record { on_ok = on_ok; on_error = on_error }) s.pending
  unfolding send_command send_frame
  pending-send_command method params on_ok on_error session_id s = ground arith

  -- In every state that calls of the methods, replies, events, tasks, timers, starts and stops can
  -- reach from a new manager, in any order, send_command enters its request under the next id and
  -- leaves every request that waits under its own id.
  pub send_command_keeps_waiting :
      (config : BrowserConfig) (disk : Disk) {s : Manager J} (method : Text) (params : J.Json)
      (on_ok : OnOk J) (on_error : OnErr J) (session_id : Text) (id : ℕ) (r : PendingRequest J)
      → Reach (manager J config disk) s
      → lookup id s.pending ≡ some r
      → let t = (send_command J method params on_ok on_error session_id s).1 in
        (lookup id t.pending ≡ some r)
        × (lookup s.cmd_id t.pending ≡ some (record { on_ok = on_ok; on_error = on_error }))
  send_command_keeps_waiting config disk {s} method params on_ok on_error session_id id r reach h =
      let new : PendingRequest J = record { on_ok = on_ok; on_error = on_error } in
      let v = Reach-IsFresh reach (manager-IsFresh config disk) in
      let e = pending-send_command method params on_ok on_error session_id s in
      (
        ap (lookup id) e
            ∙ (lookup-insert_ne s.cmd_id id new s.pending (λ same. ground (arith, v id, same)) ∙ h),
        ap (lookup s.cmd_id) e ∙ lookup-insert_self s.cmd_id new s.pending,
      )
