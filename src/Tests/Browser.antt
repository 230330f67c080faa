-- ===== src/Tests/Browser.antt =====
-- The browser, at a manager with one context.
use lynne_social.Prelude.{
  erase, ℕ, ◌≡◌, refl, Bool, true, false, Option, none, some, List, [], ◌∷◌, ◌++◌, Text, txt,
  nat_eq, text_eq_instance, lookup, pos, arith, text_eq, empty,
}
use lynne_social.Json.Example.{example}
use lynne_social.Json.Value.{null, end, obj, field, str}
use lynne_social.Storage.Fs.{Disk}
use lynne_social.Browser.Selector.{
  js_text, js_selector, read_string, quote, read_string-js_text, read_string-js_selector_feed,
}
use lynne_social.Browser.Base64.{base64_decode, strip_spaces}
use lynne_social.Browser.Base64.Roundtrip.{encode, base64_decode-encode}
use lynne_social.Browser.Config.{default_config}
use lynne_social.Browser.State.{
  Event, done, Manager, Context, Wait, error, call_done, ignore_error, give, cookies_got,
  restore_cookies, waited, wait_again,
}
use lynne_social.Browser.Exec.{call}
use lynne_social.Browser.Commands.{ws_open, command_message}
use lynne_social.Browser.Callbacks.{run_ok, run_err, run_check}
use lynne_social.Browser.Messages.{on_reply, run_timer}
use lynne_social.Browser.Contexts.{do_get_context, delete_context, on_script_added}
use lynne_social.Browser.Sessions.{restore_session}
use lynne_social.Browser.Pages.{
  navigate, after, click, type_text, scroll, press_key, hover, exists, wait_for_selector, close,
}
use lynne_social.Browser.Lifecycle.{manager}
use lynne_social.Browser.Replies.{Request, send_all, enable_message, send_all-ws_open}
use lynne_social.Browser.Answered.{on_reply_once}
use lynne_social.Browser.Waiting.{wait_ends_once, late, at_first}
use lynne_social.Browser.Closed.{close_refuses_later}
use lynne_social.Browser.Replaced.{second_context_frees_first, after-delete_context}
use lynne_social.Browser.Cookies.{restore_session-cookies_got}

read_string-js_text_example :
    read_string false (js_text (txt "it's") ++ (quote ∷ txt ");")) ≡ some (txt "it's", txt ");")
read_string-js_text_example = read_string-js_text (txt "it's") (txt ");")

read_string-js_selector_feed_example :
    read_string false (js_selector (txt "a" ++ (10 ∷ txt "b")) ++ (quote ∷ txt ")")) ≡ none
unfolding txt
read_string-js_selector_feed_example =
    read_string-js_selector_feed (txt "a") (txt "b") (txt ")") ((omega arith, omega arith), tt)

base64_decode-encode_example : base64_decode (txt "aG k=") ≡ txt "hi"
unfolding txt encode strip_spaces
base64_decode-encode_example =
    base64_decode-encode (txt "aG k=") (txt "hi") (omega arith, (omega arith, tt)) refl

abbrev open_always : Text → Disk → Bool
open_always p d = true

abbrev open_never : Text → Disk → Bool
open_never p d = false

abbrev disk : Disk
disk = record { dirs = []; files = [] }

abbrev fresh : Manager example
fresh = manager example default_config disk

abbrev request : Request example
request = record {
  method = txt "m";
  params = null;
  on_ok = call_done 1;
  on_error = ignore_error;
  session_id = [];
}

abbrev requests : List (Request example)
requests = request ∷ request ∷ []

abbrev or_nil : Option Text → Text
or_nil none = []
or_nil (some t) = t

abbrev first_text : Text
first_text = or_nil (example.dump (command_message example 0 (txt "m") null []))

abbrev second_text : Text
second_text = or_nil (example.dump (command_message example 1 (txt "m") null []))

abbrev enable_text : Text
enable_text = or_nil (example.dump (enable_message example 2))

send_all-ws_open_example :
    (ws_open example (send_all example requests fresh)).1.sent
    ≡ (fresh.sent ++ (first_text ∷ second_text ∷ [])) ++ (enable_text ∷ [])
unfolding manager command_message empty
send_all-ws_open_example =
    send_all-ws_open example requests fresh (first_text ∷ second_text ∷ []) enable_text refl refl
      (refl, (refl, tt)) refl

abbrev page : Context
page = record {
  platform = txt "x";
  target_id = txt "t";
  session_id = txt "s";
  closed = false;
  after_guards = [];
}

-- A started manager whose only context is at address 0, with one command that waits for a reply.
abbrev running : Manager example
running = record (fresh) {
  started = true;
  next = 4;
  cmd_id = 1;
  heap = (0, page) ∷ [];
  contexts = (txt "x", 0) ∷ [];
  flags = (2, false) ∷ (3, true) ∷ [];
  pending = (0, record { on_ok = call_done 1; on_error = ignore_error }) ∷ [];
  clock = 50;
}

on_reply_once_example :
    (lookup 0 (on_reply example open_always (pos 0) (obj end) running).1.pending ≡ none)
    × (on_reply example open_always
          (pos 0)
          null
          (on_reply example open_always (pos 0) (obj end) running).1
        ≡ (some tt, (on_reply example open_always (pos 0) (obj end) running).1))
unfolding on_reply lookup run_ok call
on_reply_once_example = on_reply_once example open_always 0 (obj end) null running refl

abbrev wait : ℕ → Wait
wait flag = record {
  ctx = 0;
  selector = txt "a";
  timeout_ms = 30;
  on_found = 7;
  on_timeout = 8;
  start = 10;
  finished = flag;
}

-- The time of the wait is over.
abbrev over : Option (Unit {0}) × Manager example
over = run_check example open_always (wait 2) running

abbrev over_told : List (Event example)
over_told =
    record {
      callback = 8;
      reply = error (txt "wait_for_selector timeout (" ++ (txt "a" ++ txt ")"));
    }
    ∷ []

wait_ends_once_example :
    (over.1.events ≡ running.events ++ over_told)
    × (run_check example open_always (wait 2) over.1 ≡ (some tt, over.1))
    × (run_err example open_always (wait_again (wait 2)) [] over.1 ≡ (some tt, over.1))
    × (run_ok example open_always (waited (wait 2)) (obj (field (txt "result") null end)) over.1
        ≡ (some tt, over.1))
unfolding lookup text_eq txt erase
wait_ends_once_example =
    wait_ends_once example open_always (wait 2) running over over_told
      (obj (field (txt "result") null end)) null [] refl (late page at_first refl refl refl) refl

second_context_frees_first_example :
    (lookup 0 (on_script_added example (txt "x") 1 (give 5) running).1.heap ≡ none)
    × ((navigate example 0
          (txt "u")
          6
          7
          (on_script_added example (txt "x") 1 (give 5) running).1).1.fault
        ≡ true)
unfolding lookup text_eq txt erase
second_context_frees_first_example =
    second_context_frees_first example (txt "x") (txt "u") 1 0 5 6 7 running page refl refl

after-delete_context_example :
    ((delete_context example 0 (after example 0 100 9 running).1).timers
      ≡ running.timers ++ ((100, 4, 9) ∷ []))
    × (run_timer example open_always 4 9 (after example 0 100 9 running).1
        ≡ call {J = example} 9 done (after example 0 100 9 running).1)
    × (run_timer example open_always 4 9
          (delete_context example 0 (after example 0 100 9 running).1)
        ≡ (some tt, delete_context example 0 (after example 0 100 9 running).1))
unfolding lookup
after-delete_context_example = after-delete_context example open_always 0 100 9 running page refl

abbrev cookies : Text
cookies = txt "cookies"

abbrev file_text : Text
file_text = or_nil (example.dump_pretty (example.object ((cookies, str cookies) ∷ [])))

restore_session-cookies_got_example :
    restore_session example
      (txt "x")
      5
      6
      (run_ok example open_always
        (cookies_got (txt "x") 4)
        (obj (field cookies (str cookies) end))
        running).1
    ≡ do_get_context example
        (txt "x")
        (restore_cookies (str cookies) 5 6)
        6
        (run_ok example open_always
          (cookies_got (txt "x") 4)
          (obj (field cookies (str cookies) end))
          running).1
unfolding lookup text_eq txt erase
restore_session-cookies_got_example =
    restore_session-cookies_got example open_always (txt "x") file_text
      (obj (field cookies (str cookies) end)) (str cookies) 4 5 6 running refl refl refl

abbrev closing : Manager example
closing = (close example 0 11 12 running).1

abbrev refused : Option (Unit {0}) × Manager example
refused = call {J = example} 2 (error (txt "context closed")) closing

close_refuses_later_example :
    (click example 0 (txt "a") 1 2 closing ≡ refused)
    × (type_text example 0 (txt "a") (txt "v") 1 2 closing ≡ refused)
    × (scroll example 0 (pos 3) (pos 4) 1 2 closing ≡ refused)
    × (press_key example 0 (txt "a") 1 2 closing ≡ refused)
    × (hover example 0 (txt "a") 1 2 closing ≡ refused)
    × (exists example 0 (txt "a") 1 2 closing ≡ refused)
    × (wait_for_selector example 0 (txt "a") 30 1 2 closing ≡ refused)
    × (close example 0 1 2 closing ≡ call {J = example} 2 (error (txt "already closed")) closing)
unfolding lookup
close_refuses_later_example =
    close_refuses_later example 0 11 12 (txt "a") (txt "v") (pos 3) (pos 4) 30 1 2 running page refl
      refl

abbrev dead : ℕ → Bool
dead pid = false

abbrev alive : ℕ → Bool
alive pid = true

abbrev killed : Manager example
killed = record running { chrome_pid = some 77 }
