-- ===== src/Browser/Stuck.antt =====
-- A command that waits and cannot be dumped (cdp_browser_manager.cpp, ws_open and send_command).
use mathlib.Core.List.{append_assoc, append-nil}
use lynne_social.Prelude.{◌≡◌, refl, ap, sym, ◌∙◌, true, none, some, List, [], ◌∷◌, ◌++◌, Text}
use lynne_social.Json.{JsonLib}
use lynne_social.Browser.State.{Manager, OnOk, OnErr}
use lynne_social.Browser.Commands.{send_frame, send_frames, send_command, command_message, ws_open}
use lynne_social.Browser.Replies.{Dumped, send_frame-some}

module _ (J : JsonLib) where
  -- The loop stops at the first message that cannot be dumped.
  send_frames-stuck :
      (before after : List J.Json) (m : J.Json) (fs : List Text) (s : Manager J)
      → Dumped J before fs
      → J.dump m ≡ none
      → send_frames J (before ++ (m ∷ after)) s ≡ (none, record s { sent = s.sent ++ fs })
  unfolding send_frames send_frame
  send_frames-stuck [] after m [] s h k =
      rw k (λ i. (none, record s { sent = sym (append-nil s.sent) i }))
  send_frames-stuck (n ∷ before) after m (f ∷ fs) s h k = rw (send_frame-some J n f s h.0) (
      send_frames-stuck before after m fs (record s { sent = s.sent ++ (f ∷ []) }) h.1 k
      ∙ (λ i. (none, record s { sent = append_assoc s.sent (f ∷ []) fs i })))
  send_frames-stuck [] after m (f ∷ fs) s h k = absurd h
  send_frames-stuck (n ∷ before) after m [] s h k = absurd h

  ws_open_throws :
      (s t : Manager J)
      → send_frames J s.pending_commands (record s { ws_ready = true }) ≡ (none, t)
      → ws_open J s ≡ (none, t)
  unfolding ws_open
  ws_open_throws s t h = rw h refl

  -- When one of the commands that wait cannot be dumped, the opening of the WebSocket sends those
  -- before it and throws, with ws_ready_ set and every command waiting still: a further opening
  -- sends the earlier ones again and throws again, and a later command that dumps is sent at once,
  -- past those that wait.
  pub ws_open_stuck :
      (before after : List J.Json) (m : J.Json) (fs : List Text) (s : Manager J)
      → s.pending_commands ≡ before ++ (m ∷ after)
      → Dumped J before fs
      → J.dump m ≡ none
      → let stuck : Manager J = record s { ws_ready = true; sent = s.sent ++ fs } in
        (ws_open J s ≡ (none, stuck))
        × (ws_open J stuck ≡ (none, record stuck { sent = (s.sent ++ fs) ++ fs }))
        × ((method : Text) (params : J.Json) (on_ok : OnOk J) (on_error : OnErr J)
              (session_id t : Text)
            → J.dump (command_message J s.cmd_id method params session_id) ≡ some t
            → (send_command J method params on_ok on_error session_id stuck).1.sent
              ≡ (s.sent ++ fs) ++ (t ∷ []))
  unfolding send_command send_frame
  ws_open_stuck before after m fs s p h k =
      let ready : Manager J = record s { ws_ready = true } in
      let stuck : Manager J = record ready { sent = s.sent ++ fs } in
      (
        ws_open_throws s stuck
            (ap (λ ms. send_frames J ms ready) p ∙ send_frames-stuck before after m fs ready h k),
        ws_open_throws stuck (record stuck { sent = (s.sent ++ fs) ++ fs })
            (ap (λ ms. send_frames J ms stuck) p ∙ send_frames-stuck before after m fs stuck h k),
        λ method params on_ok on_error session_id t d. rw d refl,
      )
