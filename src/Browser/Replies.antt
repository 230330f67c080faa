-- ===== src/Browser/Replies.antt =====
-- Commands on the wire before the WebSocket is open (wheel/browser/imp/cdp_browser_manager.cpp).
use mathlib.Core.List.{append_assoc, append-nil}
use lynne_social.Prelude.{
  ℕ, suc, ◌+◌, ◌≡◌, refl, ap, sym, ◌∙◌, true, false, some, List, [], ◌∷◌, ◌++◌, Text, txt, pos,
  nat_eq, text_eq_instance, insert, arith, length,
}
use lynne_social.Json.{JsonLib}
use lynne_social.Browser.State.{Manager, OnOk, OnErr}
use lynne_social.Browser.Commands.{send_frame, send_frames, send_command, command_message, ws_open}

module _ (J : JsonLib) where
  -- The texts of a row of messages.
  abbrev pub Dumped : List J.Json → List Text → Type 0
  Dumped [] [] = Unit {0}
  Dumped [] (f ∷ fs) = ⊥
  Dumped (m ∷ ms) [] = ⊥
  Dumped (m ∷ ms) (f ∷ fs) = (J.dump m ≡ some f) × Dumped ms fs

  -- The message that ws_open sends last.
  abbrev pub enable_message : ℕ → J.Json
  enable_message id = J.object (
      (txt "id", J.int (pos id))
      ∷ (txt "method", J.str (txt "Page.enable"))
      ∷ (txt "params", J.object [])
      ∷ [])

  pub send_frame-some :
      (m : J.Json) (f : Text) (s : Manager J)
      → J.dump m ≡ some f
      → send_frame J m s ≡ (some tt, record s { sent = s.sent ++ (f ∷ []) })
  unfolding send_frame
  send_frame-some m f s h = rw h refl

  send_frames-some :
      (ms : List J.Json) (fs : List Text) (s : Manager J)
      → Dumped ms fs
      → send_frames J ms s ≡ (some tt, record s { sent = s.sent ++ fs })
  unfolding send_frames
  send_frames-some [] [] s h = λ i. (some tt, record s { sent = sym (append-nil s.sent) i })
  send_frames-some (m ∷ ms) (f ∷ fs) s h = rw (send_frame-some m f s h.0) (
      send_frames-some ms fs (record s { sent = s.sent ++ (f ∷ []) }) h.1
      ∙ (λ i. (some tt, record s { sent = append_assoc s.sent (f ∷ []) fs i })))
  send_frames-some [] (f ∷ fs) s h = absurd h
  send_frames-some (m ∷ ms) [] s h = absurd h

  -- When the WebSocket opens, the commands that waited go out in the order in which they were given,
  -- Page.enable behind them, and nothing waits any more.
  pub ws_open_flush :
      (s : Manager J) (fs : List Text) (f : Text)
      → Dumped s.pending_commands fs
      → J.dump (enable_message s.cmd_id) ≡ some f
      → ((ws_open J s).1.sent ≡ (s.sent ++ fs) ++ (f ∷ []))
        × ((ws_open J s).1.pending_commands ≡ [])
        × ((ws_open J s).1.ws_ready ≡ true)
  unfolding ws_open
  ws_open_flush s fs f h k =
      rw (send_frames-some s.pending_commands fs (record s { ws_ready = true }) h)
        (unfold send_frame in rw k (refl, refl, refl))

  -- A call of send_command.
  pub record Request : Type 0 where
    pub method : Text
    pub params : J.Json
    pub on_ok : OnOk J
    pub on_error : OnErr J
    pub session_id : Text

  abbrev pub send_all : List Request → Manager J → Manager J
  send_all [] s = s
  send_all (r ∷ rs) s =
      send_all rs (send_command J r.method r.params r.on_ok r.on_error r.session_id s).1

  abbrev pub messages_from : ℕ → List Request → List J.Json
  messages_from id [] = []
  messages_from id (r ∷ rs) =
      command_message J id r.method r.params r.session_id ∷ messages_from (suc id) rs

  -- The state that waiting commands leave, in what ws_open reads.
  record Queued (s : Manager J) (rs : List Request) (t : Manager J) : Type 0 where
    commands : t.pending_commands ≡ s.pending_commands ++ messages_from s.cmd_id rs
    same_sent : t.sent ≡ s.sent
    ids : t.cmd_id ≡ s.cmd_id + length rs

  abbrev queued_one : Manager J → Request → Manager J
  queued_one s r = record s {
    cmd_id = suc s.cmd_id;
    pending = insert s.cmd_id (record { on_ok = r.on_ok; on_error = r.on_error }) s.pending;
    pending_commands =
        s.pending_commands ++ (command_message J s.cmd_id r.method r.params r.session_id ∷ []);
  }

  send_one_queued :
      (r : Request) (s : Manager J)
      → s.ws_ready ≡ false
      → send_command J r.method r.params r.on_ok r.on_error r.session_id s
        ≡ (some tt, queued_one s r)
  unfolding send_command
  send_one_queued r s h = simp h

  send_all-Queued :
      (rs : List Request) (s : Manager J) → s.ws_ready ≡ false → Queued s rs (send_all rs s)
  send_all-Queued [] s h = record {
    commands = sym (append-nil s.pending_commands);
    same_sent = refl;
    ids = omega arith;
  }
  send_all-Queued (r ∷ rs) s h =
      let q = send_all-Queued rs (queued_one s r) h in
      rw (send_one_queued r s h) (record {
        commands =
            q.commands
            ∙ append_assoc s.pending_commands
                (command_message J s.cmd_id r.method r.params r.session_id ∷ [])
                (messages_from (suc s.cmd_id) rs);
        same_sent = q.same_sent;
        ids = omega (arith, q.ids);
      })

  -- Commands given to send_command before the WebSocket is open, on a manager where none waits,
  -- are sent when it opens: each with its own id, in the order of the calls, with Page.enable
  -- behind them. All the messages are assumed to dump.
  pub send_all-ws_open :
      (rs : List Request) (s : Manager J) (fs : List Text) (f : Text)
      → s.ws_ready ≡ false
      → s.pending_commands ≡ []
      → Dumped (messages_from s.cmd_id rs) fs
      → J.dump (enable_message (s.cmd_id + length rs)) ≡ some f
      → (ws_open J (send_all rs s)).1.sent ≡ (s.sent ++ fs) ++ (f ∷ [])
  send_all-ws_open rs s fs f h e d k =
      let q = send_all-Queued rs s h in
      let (out, _, _) = ws_open_flush (send_all rs s) fs f (rw (q.commands, e) d) (rw q.ids k) in
      out ∙ ap (λ l. (l ++ fs) ++ (f ∷ [])) q.same_sent
