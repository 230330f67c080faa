-- ===== src/Browser/Commands.antt =====
-- Commands and events of CdpBrowserManager: send_command, the event handlers, and the WebSocket's
-- callback with the tasks that it posts.
use lynne_social.Prelude.{
  ℕ, suc, true, some, List, [], ◌∷◌, ◌++◌, Text, txt, empty, pos, nat_eq, text_eq_instance, insert,
  erase, if◌then◌else◌,
}
use lynne_social.Json.{JsonLib}
use lynne_social.Browser.State.{Manager, OnOk, OnErr, ignore, ignore_error, opened, message}
use lynne_social.Browser.Exec.{Exec, ◌>>=◌, ◌>>◌, pure, lift, modify}

module _ (J : JsonLib) where
  open J use {Json, object, str, int, dump}

  -- ws_.sendText(msg.dump())
  unfoldable pub send_frame : Json → Exec J (Unit {0})
  send_frame msg = do
    frame ← lift (dump msg)
    modify (λ s. record s { sent = s.sent ++ (frame ∷ []) })

  -- `msg`, with a sessionId unless it is empty
  unfoldable pub command_message : ℕ → Text → Json → Text → Json
  command_message id method params session_id = object (
      (txt "id", int (pos id))
      ∷ (txt "method", str method)
      ∷ (txt "params", params)
      ∷ (if empty session_id then [] else (txt "sessionId", str session_id) ∷ []))

  unfoldable pub send_command : Text → Json → OnOk J → OnErr J → Text → Exec J (Unit {0})
  unfolding send_frame command_message
  send_command method params on_ok on_error session_id s =
      let id = s.cmd_id in
      let msg = command_message id method params session_id in
      let s' = record s {
        cmd_id = suc id;
        pending = insert id (record { on_ok = on_ok; on_error = on_error }) s.pending;
      } in
      if s.ws_ready
      then send_frame msg s'
      else (some tt, record s' { pending_commands = s'.pending_commands ++ (msg ∷ []) })

  -- session_id + ":" + method
  unfoldable pub event_key : Text → Text → Text
  event_key session_id method = session_id ++ (b':' ∷ method)

  unfoldable pub on_event : Text → Text → ℕ → Manager J → Manager J
  unfolding event_key
  on_event session_id method handler s = record s {
    event_handlers = insert (event_key session_id method) handler s.event_handlers;
  }

  unfoldable pub remove_event : Text → Text → Manager J → Manager J
  unfolding event_key
  remove_event session_id method s = record s {
    event_handlers = erase (event_key session_id method) s.event_handlers;
  }

  -- the loop over pending_commands
  unfoldable pub send_frames : List Json → Exec J (Unit {0})
  unfolding send_frame
  send_frames [] = pure tt
  send_frames (m ∷ ms) = do send_frame m; send_frames ms

  -- the task posted when the WebSocket opens
  unfoldable pub ws_open : Exec J (Unit {0})
  unfolding send_frames
  ws_open s =
      (do
        send_frames s.pending_commands
        modify (λ s. record s { pending_commands = [] })
        λ s.
            let id = s.cmd_id in
            send_frame
              (object (
                (txt "id", int (pos id))
                ∷ (txt "method", str (txt "Page.enable"))
                ∷ (txt "params", object [])
                ∷ []))
              (record s {
                cmd_id = suc id;
                pending = insert id (record { on_ok = ignore; on_error = ignore_error }) s.pending;
              }))
        (record s { ws_ready = true })

  -- The WebSocket's callback, on its own thread.
  pub data WsEvent : Type 0 where
    open_event : WsEvent
    message_event : Text → WsEvent
    error_event : WsEvent
    other_event : WsEvent

  unfoldable pub on_ws_event : WsEvent → Manager J → Manager J
  on_ws_event open_event s = record s { posted = s.posted ++ (opened ∷ []) }
  on_ws_event (message_event t) s = record s { posted = s.posted ++ (message t ∷ []) }
  on_ws_event error_event s = record s { chrome_crashed = true }
  on_ws_event other_event s = s
