-- ===== src/Browser/Lifecycle.antt =====
-- The manager's life: its constructor, start with the launch of Chrome, stop, health_check.
-- Processes are not modelled: `alive` is the answer of kill(pid, 0).
use lynne_social.Prelude.{
  ℕ, Bool, true, false, not, ◌||◌, Option, none, some, List, [], ◌∷◌, Text, txt, empty,
  if◌then◌else◌,
}
use lynne_social.Json.{JsonLib}
use lynne_social.Storage.Fs.{Disk}
use lynne_social.Browser.Config.{BrowserConfig}
use lynne_social.Browser.State.{Manager}
use lynne_social.Browser.Contexts.{delete_contexts}

-- name()
unfoldable pub name : Text
name = txt "browser"

-- the candidates of find_chrome
unfoldable pub candidates : List Text
candidates =
    txt "google-chrome"
    ∷ txt "google-chrome-stable"
    ∷ txt "chromium"
    ∷ txt "chromium-browser"
    ∷ txt "/usr/bin/google-chrome"
    ∷ txt "/usr/bin/google-chrome-stable"
    ∷ txt "/usr/bin/chromium"
    ∷ txt "/usr/bin/chromium-browser"
    ∷ txt "/snap/bin/chromium"
    ∷ []

-- the first path that access(path, X_OK) grants
unfoldable pub first_executable : (Text → Bool) → List Text → Text
first_executable executable [] = []
first_executable executable (c ∷ cs) =
    let rest = first_executable executable cs in if executable c then c else rest

unfoldable pub find_chrome : (Text → Bool) → BrowserConfig → Text
unfolding first_executable candidates
find_chrome executable config =
    if not (empty config.chrome_path)
    then config.chrome_path
    else first_executable executable candidates

module _ (J : JsonLib) where
  -- CdpBrowserManager(config)
  unfoldable pub manager : BrowserConfig → Disk → Manager J
  manager config disk = record {
    config = config;
    chrome_pid = none;
    ws_url = [];
    ws_running = false;
    sent = [];
    cmd_id = 0;
    started = false;
    ws_ready = false;
    chrome_crashed = false;
    pending = [];
    event_handlers = [];
    contexts = [];
    pending_commands = [];
    scheduler_started = false;
    launching = false;
    posted = [];
    timers = [];
    heap = [];
    flags = [];
    next = 0;
    disk = disk;
    clock = 0;
    events = [];
    fault = false;
  }

  -- start, up to the launch that it queues; a stale Chrome is killed first
  unfoldable pub start : Manager J → Manager J
  start s = if s.started then s else record s {
    chrome_pid = none;
    ws_ready = false;
    pending_commands = [];
    chrome_crashed = false;
    scheduler_started = true;
    launching = true;
  }

  -- launch_chrome's end on the worker: it leaves the process and the url, or an error
  pub data Launch : Type 0 where
    launched : ℕ → Text → Launch
    failed : Text → Launch

  abbrev pub launch_error : Launch → Text
  launch_error (launched pid url) = []
  launch_error (failed err) = err

  abbrev pub launch_url : Launch → Text
  launch_url (launched pid url) = url
  launch_url (failed err) = []

  abbrev pub launch_pid : Launch → Option ℕ
  launch_pid (launched pid url) = some pid
  launch_pid (failed err) = none

  -- The worker's part, then the lambda `on_done`. A failed launch leaves no process: start has
  -- reset chrome_pid_ before it. (Where no child was made the source does not touch chrome_pid_,
  -- which differs only if a second start was called before the first launch had ended.)
  unfoldable pub on_launched : Launch → Manager J → Manager J
  on_launched l s =
      let s' = record s { chrome_pid = launch_pid l; launching = false } in
      if not (empty (launch_error l)) || empty (launch_url l)
      then s'
      else record s' { ws_url = launch_url l; ws_running = true; started = true }

  -- stop: the contexts go, then the WebSocket, Chrome and the scheduler with its timers
  unfoldable pub stop : Manager J → Manager J
  stop s =
      if s.started
      then record (delete_contexts J s.contexts s) {
        contexts = [];
        timers = [];
        ws_running = false;
        chrome_pid = none;
        scheduler_started = false;
        started = false;
        chrome_crashed = false;
      }
      else s

  abbrev pub is_dead : (ℕ → Bool) → Option ℕ → Bool
  is_dead alive none = false
  is_dead alive (some pid) = not (alive pid)

  unfoldable pub health_check : (ℕ → Bool) → Manager J → Bool × Manager J
  health_check alive s =
      if not s.started
      then (false, s)
      else if s.chrome_crashed
      then (false, s)
      else if is_dead alive s.chrome_pid
      then (false, record s { chrome_crashed = true })
      else (true, s)
