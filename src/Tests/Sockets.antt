-- ===== src/Tests/Sockets.antt =====
-- A run of the WebSocket client.
use lynne_social.Prelude.{ℕ, Text, map, false, ◌≡◌, refl, some, List, [], ◌∷◌, txt}
use lynne_social.WsClient.{
  WsClient, WsMessage, ws_client, connect, drain, message_event, error_event, message, failure,
}
use lynne_social.WsClient.Runs.{Op, heard, connected, drained, stopped, run_all, told, what}
use lynne_social.WsClient.Hosted.Uv.{uv_view, uv_perform_all, hosted, uv_view-perform_all}
use lynne_social.WsClient.Fifo.{told-run_all}

abbrev hello : WsMessage
hello = record { data_bytes = txt "hello"; is_binary = false }

abbrev listening : WsClient
listening = connect (txt "ws://h") [] (some 1) (some 2) ws_client

-- A message, a reconnection to other callbacks before it is delivered, an error, and a stop.
abbrev run_of_ops : List Op
run_of_ops =
    heard (message_event hello)
    ∷ connected (txt "ws://g") [] 3 4
    ∷ drained
    ∷ heard (error_event (txt "e"))
    ∷ stopped
    ∷ []

told-run_all_example :
    (told (run_all run_of_ops listening) ≡ message hello ∷ failure (txt "e") ∷ [])
    × (map what (drain (run_all run_of_ops listening)).calls
        ≡ message hello ∷ failure (txt "e") ∷ [])
unfolding connect ws_client
told-run_all_example =
    told-run_all run_of_ops listening
      (record { message_to = 1; failure_to = 2; has_message = refl; has_failure = refl })

abbrev label : ℕ → Text
label n = n ∷ []

uv_view-perform_all_example :
    uv_view label (uv_perform_all label run_of_ops (hosted label)) ≡ run_all run_of_ops ws_client
uv_view-perform_all_example = uv_view-perform_all label run_of_ops
