-- ===== src/Browser/State.antt =====
-- The state of CdpBrowserManager and of its contexts. A closure of the source is a constructor with
-- what it captures (`OnOk`, `OnErr`, `OnContext`), and a client's callback is a number; `events`
-- records each call of one with what it was given. What a client does in a callback comes as later
-- operations. Pointers to contexts and shared flags are addresses, and `fault` says that a freed
-- one was used.
use lynne_social.Prelude.{ℕ, Bool, Option, List, Text}
use lynne_social.Json.{JsonLib}
use lynne_social.Storage.Fs.{Disk}
use lynne_social.Browser.Config.{BrowserConfig}

-- CdpBrowserContext's fields; `after_guards` are the addresses of the shared flags
pub record Context : Type 0 where
  pub platform : Text
  pub target_id : Text
  pub session_id : Text
  pub closed : Bool
  pub after_guards : List ℕ

-- What the check of wait_for_selector captures: the context, and `done` as a flag's address.
pub record Wait : Type 0 where
  pub ctx : ℕ
  pub selector : Text
  pub timeout_ms : ℕ
  pub on_found : ℕ
  pub on_timeout : ℕ
  pub start : ℕ
  pub finished : ℕ

module _ (J : JsonLib) where
  open J use {Json}

  -- What a client's callback is called with.
  pub data Reply : Type 0 where
    done : Reply
    value : Json → Reply
    text : Text → Reply
    flag : Bool → Reply
    context : ℕ → Reply
    error : Text → Reply

  pub record Event : Type 0 where
    pub callback : ℕ
    pub reply : Reply

  -- The on_ok of do_get_context: of get_context, save_session and restore_session.
  pub data OnContext : Type 0 where
    give : ℕ → OnContext
    save_cookies : Text → ℕ → ℕ → OnContext
    restore_cookies : Json → ℕ → ℕ → OnContext

  -- The lambdas given to send_command as on_ok.
  pub data OnOk : Type 0 where
    ignore : OnOk
    call_done : ℕ → OnOk
    call_json : ℕ → OnOk
    call_result : ℕ → OnOk
    call_url : ℕ → OnOk
    write_screenshot : Text → ℕ → ℕ → OnOk
    target_closed : ℕ → ℕ → OnOk
    acted : Text → ℕ → ℕ → OnOk
    call_exists : ℕ → OnOk
    call_dump : ℕ → OnOk
    key_is_down : Text → ℕ → ℕ → ℕ → ℕ → OnOk
    waited : Wait → OnOk
    target_created : Text → OnContext → ℕ → OnOk
    target_attached : Text → Text → OnContext → ℕ → OnOk
    script_added : Text → ℕ → OnContext → OnOk
    cookies_got : Text → ℕ → OnOk
    cookies_set : ℕ → OnOk

  -- The lambdas given to send_command as on_error.
  pub data OnErr : Type 0 where
    ignore_error : OnErr
    call_error : ℕ → OnErr
    discard_context : ℕ → OnErr
    wait_again : Wait → OnErr

  -- struct PendingRequest
  pub record PendingRequest : Type 0 where
    pub on_ok : OnOk
    pub on_error : OnErr

  -- What the WebSocket callback and wait_for_selector post to the scheduler.
  pub data Task : Type 0 where
    opened : Task
    message : Text → Task
    check : Wait → Task

  -- The fields of CdpBrowserManager, with the frames handed to the WebSocket (`sent`), its url, the
  -- tasks posted and the one-shot timers armed on the scheduler (a delay, a guard and a callback each), the
  -- heaps of contexts and flags, the disk, and the clock in milliseconds.
  pub record Manager : Type 0 where
    pub config : BrowserConfig
    pub chrome_pid : Option ℕ
    pub ws_url : Text
    pub ws_running : Bool
    pub sent : List Text
    pub cmd_id : ℕ
    pub started : Bool
    pub ws_ready : Bool
    pub chrome_crashed : Bool
    pub pending : List (ℕ × PendingRequest)
    pub event_handlers : List (Text × ℕ)
    pub contexts : List (Text × ℕ)
    pub pending_commands : List Json
    pub scheduler_started : Bool
    pub launching : Bool
    pub posted : List Task
    pub timers : List (ℕ × ℕ × ℕ)
    pub heap : List (ℕ × Context)
    pub flags : List (ℕ × Bool)
    pub next : ℕ
    pub disk : Disk
    pub clock : ℕ
    pub events : List Event
    pub fault : Bool
