-- ===== src/WsClient/Runs.antt =====
-- Runs of a WebSocket client and what they have to tell (wheel/ws_client/imp/ix_ws_client.cpp).
use mathlib.Core.List.{append-nil}
use lynne_social.Prelude.{◌≡◌, refl, sym, ap, Bool, some, List, [], ◌∷◌, ◌++◌, map, ℕ, Text}
use lynne_social.WsClient.{
  WsClient, Delivery, WsEvent, error_event, message_event, message, failure, on_ws_event, drain,
  connect, disconnect, send, start, stop,
}

-- What may happen to a client: the calls of its methods, an event of the socket, and a run of the
-- scheduler's post queue. A connect gives both callbacks.
pub data Op : Type 0 where
  started stopped disconnected drained : Op
  connected : Text → List (Text × Text) → ℕ → ℕ → Op
  sent : Text → Bool → Op
  heard : WsEvent → Op

abbrev pub run : Op → WsClient → WsClient
run started = start
run stopped = stop
run disconnected = disconnect
run drained = drain
run (connected url headers k e) = connect url headers (some k) (some e)
run (sent bytes binary) = send bytes binary
run (heard event) = on_ws_event event

abbrev pub run_all : List Op → WsClient → WsClient
run_all [] s = s
run_all (o ∷ os) s = run_all os (run o s)

-- What an event of the socket has to tell the client.
abbrev pub news : WsEvent → List Delivery
news (message_event m) = message m ∷ []
news (error_event reason) = failure reason ∷ []
news _ = []

abbrev pub all_news : List Op → List Delivery
all_news [] = []
all_news (heard event ∷ os) = news event ++ all_news os
all_news (_ ∷ os) = all_news os

abbrev pub what : ℕ × Delivery → Delivery
what c = c.1

-- What clients have heard, and what they are to hear.
abbrev pub told : WsClient → List Delivery
told s = map what s.calls ++ s.posted

-- Both callbacks are there.
pub record IsListening (s : WsClient) : Type 0 where
  pub message_to : ℕ
  pub failure_to : ℕ
  pub has_message : s.on_message ≡ some message_to
  pub has_failure : s.on_error ≡ some failure_to

pub all_news-cons : (o : Op) (os : List Op) → all_news (o ∷ os) ≡ all_news (o ∷ []) ++ all_news os
all_news-cons started os = refl
all_news-cons stopped os = refl
all_news-cons disconnected os = refl
all_news-cons drained os = refl
all_news-cons (connected url headers k e) os = refl
all_news-cons (sent bytes binary) os = refl
all_news-cons (heard e) os = ap (λ l. l ++ all_news os) (sym (append-nil (news e)))
