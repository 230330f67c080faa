-- ===== src/WsClient/Order.antt =====
-- The order of messages, and which client hears them (wheel/ws_client/imp/ix_ws_client.cpp).
use mathlib.Core.List.{append_assoc, append-nil}
use lynne_social.Prelude.{◌≡◌, refl, sym, ap, ◌∙◌, Option, some, List, [], ◌∷◌, ◌++◌, ℕ, Text}
use lynne_social.WsClient.{
  WsClient, WsMessage, Delivery, message, message_event, on_ws_event, deliver, deliver_all, notify,
  drain, connect,
}

-- The socket's thread receives messages.
abbrev pub receive_all : List WsMessage → WsClient → WsClient
receive_all [] s = s
receive_all (m ∷ ms) s = receive_all ms (on_ws_event (message_event m) s)

abbrev pub messages : List WsMessage → List Delivery
messages [] = []
messages (m ∷ ms) = message m ∷ messages ms

abbrev pub heard_by : ℕ → List WsMessage → List (ℕ × Delivery)
heard_by k [] = []
heard_by k (m ∷ ms) = (k, message m) ∷ heard_by k ms

receive_all-posted :
    (ms : List WsMessage) (s : WsClient)
    → receive_all ms s ≡ record s { posted = s.posted ++ messages ms }
unfolding on_ws_event
receive_all-posted [] s = λ i. record s { posted = sym (append-nil s.posted) i }
receive_all-posted (m ∷ ms) s =
    receive_all-posted ms (record s { posted = s.posted ++ (message m ∷ []) })
    ∙ (λ i. record s { posted = append_assoc s.posted (message m ∷ []) (messages ms) i })

deliver_message :
    (m : WsMessage) (k : ℕ) (s : WsClient)
    → s.on_message ≡ some k
    → deliver (message m) s ≡ record s { calls = s.calls ++ ((k, message m) ∷ []) }
unfolding deliver
deliver_message m k s h = ap (λ c. notify c (message m) s) h

deliver_all-messages :
    (ms : List WsMessage) (k : ℕ) (s : WsClient)
    → s.on_message ≡ some k
    → (deliver_all (messages ms) s).calls ≡ s.calls ++ heard_by k ms
unfolding deliver_all
deliver_all-messages [] k s h = sym (append-nil s.calls)
deliver_all-messages (m ∷ ms) k s h =
    ap (λ t. (deliver_all (messages ms) t).calls) (deliver_message m k s h)
    ∙ deliver_all-messages ms k (record s { calls = s.calls ++ ((k, message m) ∷ []) }) h
    ∙ append_assoc s.calls ((k, message m) ∷ []) (heard_by k ms)

-- Messages that were received, and not delivered, before a further connect with a new on_message
-- are delivered to that new on_message, when nothing else was posted before them.
pub drain-connect :
    (ms : List WsMessage) (k : ℕ) (on_error : Option ℕ) (url : Text) (headers : List (Text × Text))
    (s : WsClient)
    → s.posted ≡ []
    → (drain (connect url headers (some k) on_error (receive_all ms s))).calls
      ≡ s.calls ++ heard_by k ms
unfolding drain connect
drain-connect ms k on_error url headers s h =
    rw (receive_all-posted ms s, h) (deliver_all-messages ms k _ refl)

-- When nothing is posted and the client has given on_message, the messages that the socket
-- receives are given to on_message by the next run of the post queue, in the order of their
-- arrival and each once.
drain-receive_all :
    (ms : List WsMessage) (k : ℕ) (s : WsClient)
    → s.on_message ≡ some k
    → s.posted ≡ []
    → ((drain (receive_all ms s)).calls ≡ s.calls ++ heard_by k ms)
unfolding drain
drain-receive_all ms k s h e = rw (receive_all-posted ms s, e) (deliver_all-messages ms k _ h)
