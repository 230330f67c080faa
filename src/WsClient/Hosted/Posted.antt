-- ===== src/WsClient/Hosted/Posted.antt =====
-- What a client has posted stays in front of what its calls and events post.
use mathlib.Core.List.{append_assoc}
use lynne_social.Prelude.{◌≡◌, ◌≢◌, refl, ap, ◌∙◌, List, [], ◌∷◌, ◌++◌, arith}
use lynne_social.WsClient.{
  WsClient, Delivery, WsEvent, open_event, close_event, other_event, error_event, message_event,
  message, failure, deliver, deliver_all, closed, start, stop, connect, disconnect, send,
  on_ws_event,
}
use lynne_social.WsClient.Runs.{
  Op, started, stopped, disconnected, drained, connected, sent, heard, run,
}

-- A client with `ds` in front of what it has posted.
abbrev pub behind : List Delivery → WsClient → WsClient
behind ds c = record c { posted = ds ++ c.posted }

on_ws_event-behind :
    (e : WsEvent) (ds : List Delivery) (c : WsClient)
    → on_ws_event e (behind ds c) ≡ behind ds (on_ws_event e c)
unfolding on_ws_event
on_ws_event-behind open_event ds c = refl
on_ws_event-behind close_event ds c = refl
on_ws_event-behind other_event ds c = refl
on_ws_event-behind (error_event reason) ds c =
    λ i. record c { state = closed; posted = append_assoc ds c.posted (failure reason ∷ []) i }
on_ws_event-behind (message_event m) ds c =
    λ i. record c { posted = append_assoc ds c.posted (message m ∷ []) i }

pub run-behind :
    (o : Op) (ds : List Delivery) (c : WsClient)
    → o ≢ drained
    → run o (behind ds c) ≡ behind ds (run o c)
unfolding start stop connect disconnect send
run-behind started ds c n = ground arith
run-behind stopped ds c n = ground arith
run-behind disconnected ds c n = ground arith
run-behind drained ds c n = absurd (n refl)
run-behind (connected url headers k e) ds c n = refl
run-behind (sent bytes binary) ds c n = refl
run-behind (heard e) ds c n = on_ws_event-behind e ds c

abbrev pub queued : List Delivery → WsClient → WsClient
queued q c = record c { posted = q }

deliver-posted :
    (d : Delivery) (q : List Delivery) (c : WsClient)
    → deliver d (queued q c) ≡ queued q (deliver d c)
unfolding deliver
deliver-posted (message m) q c = ground arith
deliver-posted (failure r) q c = ground arith

pub deliver_all-posted :
    (ds q : List Delivery) (c : WsClient)
    → deliver_all ds (queued q c) ≡ queued q (deliver_all ds c)
unfolding deliver_all
deliver_all-posted [] q c = refl
deliver_all-posted (d ∷ ds) q c =
    ap (deliver_all ds) (deliver-posted d q c) ∙ deliver_all-posted ds q (deliver d c)
