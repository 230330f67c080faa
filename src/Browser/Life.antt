-- ===== src/Browser/Life.antt =====
-- The manager's state machine: launch, crash, stop.
use lynne_social.Prelude.{ℕ, ◌≡◌, refl, Bool, true, false, some, [], arith, Text, empty}
use lynne_social.Json.{JsonLib}
use lynne_social.Browser.State.{Manager}
use lynne_social.Browser.Commands.{on_ws_event, error_event}
use lynne_social.Browser.Lifecycle.{start, stop, health_check, on_launched, launched}

module _ (J : JsonLib) where
  health_crashed :
      (alive : ℕ → Bool) (s : Manager J)
      → s.chrome_crashed ≡ true
      → (health_check J alive s).0 ≡ false
  unfolding health_check
  health_crashed alive s h = ground arith

  -- A started manager that fails a health check fails the next one, whatever processes are alive
  -- by then, and start leaves it as it is.
  pub health_check_latches :
      (alive later : ℕ → Bool) (s : Manager J)
      → s.started ≡ true
      → (health_check J alive s).0 ≡ false
      → ((health_check J later (health_check J alive s).1).0 ≡ false)
        × (start J (health_check J alive s).1 ≡ (health_check J alive s).1)
  unfolding health_check start
  health_check_latches alive later s h k = ground arith

  -- On a started manager an error of the WebSocket makes the health check fail; stop and then
  -- start clear the crash, launch anew, and leave no command waiting.
  pub crash-stop-start :
      (alive : ℕ → Bool) (s : Manager J)
      → s.started ≡ true
      → ((health_check J alive (on_ws_event J error_event s)).0 ≡ false)
        × ((start J (stop J (on_ws_event J error_event s))).chrome_crashed ≡ false)
        × ((start J (stop J (on_ws_event J error_event s))).launching ≡ true)
        × ((start J (stop J (on_ws_event J error_event s))).pending_commands ≡ [])
  unfolding on_ws_event start stop health_check
  crash-stop-start alive s h = rw h (refl, refl, refl, refl)

  -- A stop while a manager that was not started is launching Chrome changes nothing; when the
  -- launch ends with a process and a url that is not empty, the manager is started all the same,
  -- with that process and with its WebSocket running.
  pub stop_while_launching :
      (pid : ℕ) (url : Text) (s : Manager J)
      → s.started ≡ false
      → empty url ≡ false
      → let t = on_launched J (launched pid url) (stop J (start J s)) in
        (stop J (start J s) ≡ start J s)
        × (t.started ≡ true)
        × (t.chrome_pid ≡ some pid)
        × (t.ws_running ≡ true)
  unfolding start stop on_launched empty
  stop_while_launching pid url s h k = (ground arith, ground arith, ground arith, ground arith)
