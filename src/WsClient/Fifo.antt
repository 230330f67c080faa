-- ===== src/WsClient/Fifo.antt =====
-- What clients hear over any run of a WebSocket client (wheel/ws_client/imp/ix_ws_client.cpp).
use mathlib.Core.List.{append_assoc, append-nil, map-append}
use mathlib.Core.Path.{subst}
use lynne_social.Prelude.{◌≡◌, refl, sym, ap, ◌∙◌, Option, some, List, [], ◌∷◌, ◌++◌, map, ℕ, arith}
use lynne_social.WsClient.{
  WsClient, Delivery, WsEvent, open_event, close_event, other_event, error_event, message_event,
  message, failure, on_ws_event, deliver, deliver_all, notify, drain, connect, disconnect, send,
  start, stop,
}
use lynne_social.WsClient.Runs.{
  Op, started, stopped, disconnected, drained, connected, sent, heard, run, run_all, news, all_news,
  what, told, IsListening, all_news-cons,
}

-- The queue `ds` has been delivered.
record Delivered (ds : List Delivery) (s t : WsClient) : Type 0 where
  heard : map what t.calls ≡ map what s.calls ++ ds
  posted : t.posted ≡ s.posted
  listening : IsListening t

-- The queue holds on to the callbacks.
kept :
    (s t : WsClient)
    → t.on_message ≡ s.on_message
    → t.on_error ≡ s.on_error
    → IsListening s
    → IsListening t
kept s t m f h = record {
  message_to = h.message_to;
  failure_to = h.failure_to;
  has_message = m ∙ h.has_message;
  has_failure = f ∙ h.has_failure;
}

notify-Delivered :
    (o : Option ℕ) (c : ℕ) (d : Delivery) (s : WsClient)
    → o ≡ some c
    → IsListening s
    → Delivered (d ∷ []) s (notify o d s)
notify-Delivered o c d s e h =
    subst (λ o. Delivered (d ∷ []) s (notify o d s)) (sym e)
      (record {
        heard = map-append what s.calls ((c, d) ∷ []);
        posted = refl;
        listening = kept s _ refl refl h;
      })

deliver-Delivered :
    (d : Delivery) (s : WsClient) → IsListening s → Delivered (d ∷ []) s (deliver d s)
unfolding deliver
deliver-Delivered (message m) s h =
    notify-Delivered s.on_message h.message_to (message m) s h.has_message h
deliver-Delivered (failure reason) s h =
    notify-Delivered s.on_error h.failure_to (failure reason) s h.has_failure h

deliver_all-Delivered :
    (ds : List Delivery) (s : WsClient) → IsListening s → Delivered ds s (deliver_all ds s)
unfolding deliver_all
deliver_all-Delivered [] s h = record { heard = sym (append-nil _); posted = refl; listening = h }
deliver_all-Delivered (d ∷ ds) s h =
    let u = deliver-Delivered d s h in
    let v = deliver_all-Delivered ds (deliver d s) u.listening in
    record {
      heard = v.heard ∙ ap (λ l. l ++ ds) u.heard ∙ append_assoc (map what s.calls) (d ∷ []) ds;
      posted = v.posted ∙ u.posted;
      listening = v.listening;
    }

-- One operation tells its news.
record Tells (ds : List Delivery) (s t : WsClient) : Type 0 where
  told_more : told t ≡ told s ++ ds
  listening : IsListening t

quiet-Tells :
    (s t : WsClient)
    → t.on_message ≡ s.on_message
    → t.on_error ≡ s.on_error
    → t.calls ≡ s.calls
    → t.posted ≡ s.posted
    → IsListening s
    → Tells [] s t
quiet-Tells s t m f c p h = record {
  told_more = rw (c, p) (sym (append-nil (told s)));
  listening = kept s t m f h;
}

posted-Tells :
    (ds : List Delivery) (s t : WsClient)
    → t.on_message ≡ s.on_message
    → t.on_error ≡ s.on_error
    → t.calls ≡ s.calls
    → t.posted ≡ s.posted ++ ds
    → IsListening s
    → Tells ds s t
posted-Tells ds s t m f c p h = record {
  told_more = rw (c, p) (sym (append_assoc (map what s.calls) s.posted ds));
  listening = kept s t m f h;
}

event-Tells : (e : WsEvent) (s : WsClient) → IsListening s → Tells (news e) s (on_ws_event e s)
unfolding on_ws_event
event-Tells open_event s h = quiet-Tells s _ refl refl refl refl h
event-Tells close_event s h = quiet-Tells s _ refl refl refl refl h
event-Tells other_event s h = quiet-Tells s _ refl refl refl refl h
event-Tells (error_event reason) s h = posted-Tells (failure reason ∷ []) s _ refl refl refl refl h
event-Tells (message_event m) s h = posted-Tells (message m ∷ []) s _ refl refl refl refl h

drain-Delivered :
    (s : WsClient) → IsListening s → Delivered s.posted (record s { posted = [] }) (drain s)
unfolding drain
drain-Delivered s h = deliver_all-Delivered s.posted _ (kept s _ refl refl h)

drain-Tells : (s : WsClient) → IsListening s → Tells [] s (drain s)
drain-Tells s h =
    let v = drain-Delivered s h in
    record { told_more = rw (v.heard, v.posted) refl; listening = v.listening }

run-Tells : (o : Op) (s : WsClient) → IsListening s → Tells (all_news (o ∷ [])) s (run o s)
unfolding start stop disconnect send connect
run-Tells started s h =
    quiet-Tells s _ (ground arith) (ground arith) (ground arith) (ground arith) h
run-Tells stopped s h =
    quiet-Tells s _ (ground arith) (ground arith) (ground arith) (ground arith) h
run-Tells disconnected s h =
    quiet-Tells s _ (ground arith) (ground arith) (ground arith) (ground arith) h
run-Tells drained s h = drain-Tells s h
run-Tells (connected url headers k e) s h = record {
  told_more = sym (append-nil (told s));
  listening = record { message_to = k; failure_to = e; has_message = refl; has_failure = refl };
}
run-Tells (sent bytes binary) s h = quiet-Tells s _ refl refl refl refl h
run-Tells (heard e) s h =
    subst (λ ds. Tells ds s (on_ws_event e s)) (sym (append-nil (news e))) (event-Tells e s h)

run_all-Tells : (os : List Op) (s : WsClient) → IsListening s → Tells (all_news os) s (run_all os s)
run_all-Tells [] s h = record { told_more = sym (append-nil (told s)); listening = h }
run_all-Tells (o ∷ os) s h =
    let u = run-Tells o s h in
    let v = run_all-Tells os (run o s) u.listening in
    record {
      told_more =
          v.told_more
          ∙ ap (λ l. l ++ all_news os) u.told_more
          ∙ append_assoc (told s) (all_news (o ∷ [])) (all_news os)
          ∙ ap (λ l. told s ++ l) (sym (all_news-cons o os));
      listening = v.listening;
    }

-- From a state with both callbacks, over any order of calls, connects that give both callbacks,
-- events of the socket and runs of the post queue, each run taken as one step: what clients have
-- heard and what is posted for them are together what they were, followed by the messages and
-- errors of the events in the order of the events; after one more run of the post queue the
-- clients have heard all of it.
pub told-run_all :
    (os : List Op) (s : WsClient)
    → IsListening s
    → (told (run_all os s) ≡ told s ++ all_news os)
      × (map what (drain (run_all os s)).calls ≡ told s ++ all_news os)
told-run_all os s h =
    let u = run_all-Tells os s h in
    (u.told_more, (drain-Delivered (run_all os s) u.listening).heard ∙ u.told_more)
