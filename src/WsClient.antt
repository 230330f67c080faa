-- ===== src/WsClient.antt =====
-- wheel/ws_client/: IxWsClient (imp/ix_ws_client.h and .cpp) and ws_client_models.h. IXWebSocket is
-- not under this code: its events are operations that its thread may run, and `running` says that
-- the socket was started and not stopped.
pub mod Fifo
pub mod Hosted
pub mod Order
pub mod Runs
use lynne_social.Prelude.{
  Bool, true, false, not, Option, none, some, List, [], ◌∷◌, ◌++◌, ℕ, Text, txt, if◌then◌else◌,
}

-- enum class WsReadyState
pub data WsReadyState : Type 0 where
  connecting opened closing closed : WsReadyState

-- struct WsMessage
pub record WsMessage : Type 0 where
  pub data_bytes : Text
  pub is_binary : Bool

-- What a client's callback is called with, and what is posted to the scheduler for it.
pub data Delivery : Type 0 where
  message : WsMessage → Delivery
  failure : Text → Delivery

-- ix::WebSocketMessageType, with what the callback reads
pub data WsEvent : Type 0 where
  open_event close_event other_event : WsEvent
  error_event : Text → WsEvent
  message_event : WsMessage → WsEvent

-- The fields of IxWsClient, with what was given to the socket, the tasks posted, and the calls of
-- the client's callbacks, which may be empty.
pub record WsClient : Type 0 where
  pub started : Bool
  pub on_message : Option ℕ
  pub on_error : Option ℕ
  pub state : WsReadyState
  pub url : Text
  pub headers : List (Text × Text)
  pub running : Bool
  pub sent : List WsMessage
  pub posted : List Delivery
  pub calls : List (ℕ × Delivery)

-- IxWsClient()
unfoldable pub ws_client : WsClient
ws_client = record {
  started = false;
  on_message = none;
  on_error = none;
  state = closed;
  url = [];
  headers = [];
  running = false;
  sent = [];
  posted = [];
  calls = [];
}

unfoldable pub name : Text
name = txt "ws_client"

unfoldable pub start : WsClient → WsClient
start s = if s.started then s else record s { started = true }

unfoldable pub stop : WsClient → WsClient
stop s = if not s.started then s else record s { running = false; state = closed; started = false }

unfoldable pub health_check : WsClient → Bool
health_check s = s.started

unfoldable pub connect : Text → List (Text × Text) → Option ℕ → Option ℕ → WsClient → WsClient
connect url headers on_message on_error s = record s {
  on_message = on_message;
  on_error = on_error;
  state = connecting;
  url = url;
  headers = headers;
  running = true;
}

-- the callback of the socket, on its own thread
unfoldable pub on_ws_event : WsEvent → WsClient → WsClient
on_ws_event open_event s = record s { state = opened }
on_ws_event close_event s = record s { state = closed }
on_ws_event (error_event reason) s = record s {
  state = closed;
  posted = s.posted ++ (failure reason ∷ []);
}
on_ws_event (message_event m) s = record s { posted = s.posted ++ (message m ∷ []) }
on_ws_event other_event s = s

abbrev is_closed : WsReadyState → Bool
is_closed closed = true
is_closed _ = false

unfoldable pub disconnect : WsClient → WsClient
disconnect s = if is_closed s.state then s else record s { running = false; state = closed }

unfoldable pub send : Text → Bool → WsClient → WsClient
send bytes binary s = record s {
  sent = s.sent ++ (record { data_bytes = bytes; is_binary = binary } ∷ []);
}

unfoldable pub ready_state : WsClient → WsReadyState
ready_state s = s.state

abbrev pub notify : Option ℕ → Delivery → WsClient → WsClient
notify none d s = s
notify (some c) d s = record s { calls = s.calls ++ ((c, d) ∷ []) }

-- the lambdas that are posted: they read the callback that is there when they run
unfoldable pub deliver : Delivery → WsClient → WsClient
deliver (message m) s = notify s.on_message (message m) s
deliver (failure reason) s = notify s.on_error (failure reason) s

unfoldable pub deliver_all : List Delivery → WsClient → WsClient
unfolding deliver
deliver_all [] s = s
deliver_all (d ∷ ds) s = deliver_all ds (deliver d s)

-- one run of the scheduler's post queue
unfoldable pub drain : WsClient → WsClient
unfolding deliver_all
drain s = deliver_all s.posted (record s { posted = [] })
