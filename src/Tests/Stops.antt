-- ===== src/Tests/Stops.antt =====
-- A manager with a command that cannot be dumped, and one that stops.
use lynne_social.Prelude.{
  empty, ℕ, ◌≡◌, ◌≢◌, refl, true, none, some, false, [], ◌∷◌, ◌++◌, Text, txt, nat_eq,
  text_eq_instance, lookup, All, arith, Option,
}
use lynne_social.Json.{JsonLib}
use lynne_social.Json.Example.{example, careful_dump, careful_dump_lem}
use lynne_social.Json.Value.{Value, null, end, parse-code, dump-one_line, dump-ne-nil}
use lynne_social.Browser.State.{Manager, Context, OnOk, OnErr}
use lynne_social.Browser.Config.{default_config}
use lynne_social.Browser.Lifecycle.{manager, start, stop, on_launched, launched}
use lynne_social.Browser.Commands.{send_command, command_message, ws_open}
use lynne_social.Browser.Life.{stop_while_launching}
use lynne_social.Browser.Stuck.{ws_open_stuck}
use lynne_social.Browser.Stopped.{stop_frees}

-- A library in which a bare `end` cannot be dumped.
abbrev careful : JsonLib
careful = record example {
  dump = careful_dump;
  parse-dump = λ v t h. parse-code v t (careful_dump_lem v t h);
  dump-one_line = λ v t h. dump-one_line v t (careful_dump_lem v t h);
  dump-ne-nil = λ v t h. dump-ne-nil v t (careful_dump_lem v t h);
}

abbrev or_nil : Option Text → Text
or_nil none = []
or_nil (some t) = t

abbrev good : Value
good = command_message careful 0 (txt "m") null []

abbrev good_text : Text
good_text = or_nil (careful_dump good)

abbrev waiting : Manager careful
waiting = record (manager careful default_config (record { dirs = []; files = [] })) {
  pending_commands = good ∷ end ∷ [];
}

ws_open_stuck_example :
    let stuck : Manager careful = record waiting {
      ws_ready = true;
      sent = waiting.sent ++ (good_text ∷ []);
    } in
    (ws_open careful waiting ≡ (none, stuck))
    × (ws_open careful stuck
        ≡ (none, record stuck { sent = (waiting.sent ++ (good_text ∷ [])) ++ (good_text ∷ []) }))
    × ((method : Text) (params : Value) (on_ok : OnOk careful) (on_error : OnErr careful)
          (session_id t : Text)
        → careful_dump (command_message careful waiting.cmd_id method params session_id) ≡ some t
        → (send_command careful method params on_ok on_error session_id stuck).1.sent
          ≡ (waiting.sent ++ (good_text ∷ [])) ++ (t ∷ []))
unfolding command_message
ws_open_stuck_example =
    ws_open_stuck careful (good ∷ []) [] end (good_text ∷ []) waiting refl (refl, tt) refl

abbrev page : Text → Context
page name = record {
  platform = name;
  target_id = txt "t";
  session_id = txt "s";
  closed = false;
  after_guards = [];
}

abbrev two_pages : Manager example
two_pages = record (manager example default_config (record { dirs = []; files = [] })) {
  started = true;
  heap = (0, page (txt "x")) ∷ (1, page (txt "y")) ∷ (2, page (txt "z")) ∷ [];
  contexts = (txt "x", 0) ∷ (txt "y", 1) ∷ [];
}

stop_frees_example :
    All (λ (x : Text × ℕ). lookup x.1 (stop example two_pages).heap ≡ none) two_pages.contexts
    × ((q : ℕ)
        → All (λ (x : Text × ℕ). x.1 ≢ q) two_pages.contexts
        → lookup q (stop example two_pages).heap ≡ lookup q two_pages.heap)
    × ((stop example two_pages).contexts ≡ [])
    × ((stop example two_pages).fault ≡ two_pages.fault)
    × ((stop example two_pages).events ≡ two_pages.events)
    × ((stop example two_pages).pending ≡ two_pages.pending)
unfolding lookup
stop_frees_example =
    stop_frees example two_pages refl
      (
        record { ctx = page (txt "x"); found = refl },
        (record { ctx = page (txt "y"); found = refl }, tt),
      )
      ((omega arith, tt), (tt, tt))

abbrev idle : Manager example
idle = manager example default_config (record { dirs = []; files = [] })

stop_while_launching_example :
    let t = on_launched example (launched 7 (txt "ws://h/d")) (stop example (start example idle)) in
    (stop example (start example idle) ≡ start example idle)
    × (t.started ≡ true)
    × (t.chrome_pid ≡ some 7)
    × (t.ws_running ≡ true)
unfolding manager txt empty
stop_while_launching_example = stop_while_launching example 7 (txt "ws://h/d") idle refl refl
