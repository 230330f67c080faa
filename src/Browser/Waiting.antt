-- ===== src/Browser/Waiting.antt =====
-- The end of a wait_for_selector (wheel/browser/imp/cdp_browser_manager.cpp).
use lynne_social.Prelude.{
  ◌-◌, ◌≡◌, refl, ap, sym, ◌∙◌, Bool, true, false, Option, some, List, [], ◌∷◌, Text, txt, nat_eq,
  lookup, insert, leb, ◌++◌, lookup-insert_self,
}
use mathlib.Core.List.{append-nil}
use lynne_social.Json.{JsonLib}
use lynne_social.Storage.Fs.{Disk}
use lynne_social.Browser.State.{Manager, Context, Wait, Event, done, error, waited, wait_again}
use lynne_social.Browser.Exec.{call, bind_at}
use lynne_social.Browser.Callbacks.{run_check, run_ok, run_err, member, value_is_true}
use lynne_social.Browser.Pages.{this, this_at}

module _ (J : JsonLib) (can_open : Text → Disk → Bool) where
  open J use {Json, find}

  -- Once a wait has ended, neither its check nor an error or a reply of its command does anything.
  ended_wait_silent :
      (w : Wait) (s : Manager J) (result r : Json) (err : Text)
      → lookup w.finished s.flags ≡ some true
      → find (txt "result") result ≡ some r
      → (run_check J can_open w s ≡ (some tt, s))
        × (run_err J can_open (wait_again w) err s ≡ (some tt, s))
        × (run_ok J can_open (waited w) result s ≡ (some tt, s))
  unfolding run_check run_err run_ok member
  ended_wait_silent w s result r err h k = (rw h refl, rw h refl, rw (k, h) refl)

  abbrev timeout : Wait → Event J
  timeout w = record {
    callback = w.on_timeout;
    reply = error (txt "wait_for_selector timeout (" ++ (w.selector ++ txt ")"));
  }

  abbrev found_it : Wait → Event J
  found_it w = record { callback = w.on_found; reply = done }

  -- What runs the check of a wait: its task, an error, or a reply that does not show the selector.
  pub data Checks (w : Wait) (s : Manager J) : Option (Unit {0}) × Manager J → Type 0 where
    at_first : Checks w s (run_check J can_open w s)
    on_failure : (err : Text) → Checks w s (run_err J can_open (wait_again w) err s)
    on_miss :
        (result r : Json)
        → find (txt "result") result ≡ some r
        → value_is_true J can_open r ≡ some false
        → Checks w s (run_ok J can_open (waited w) result s)

  -- What ends a wait in a state, and the calls of its client that this should make: a reply shows
  -- the selector, or a check comes when the time is over, or when the context is closed.
  pub data Ends (w : Wait) (s : Manager J)
      : Option (Unit {0}) × Manager J → List (Event J) → Type 0 where
    shows :
        (result r : Json)
        → find (txt "result") result ≡ some r
        → value_is_true J can_open r ≡ some true
        → Ends w s (run_ok J can_open (waited w) result s) (found_it w ∷ [])
    late :
        {t : Option (Unit {0}) × Manager J} (c : Context)
        → Checks w s t
        → lookup w.ctx s.heap ≡ some c
        → c.closed ≡ false
        → leb w.timeout_ms (s.clock - w.start) ≡ true
        → Ends w s t (timeout w ∷ [])
    shut :
        {t : Option (Unit {0}) × Manager J} (c : Context)
        → Checks w s t
        → lookup w.ctx s.heap ≡ some c
        → c.closed ≡ true
        → Ends w s t []

  abbrev ended : Wait → List (Event J) → Manager J → Option (Unit {0}) × Manager J
  ended w es s =
      (some tt, record s { flags = insert w.finished true s.flags; events = s.events ++ es })

  check_late :
      (w : Wait) (s : Manager J) (c : Context)
      → lookup w.finished s.flags ≡ some false
      → lookup w.ctx s.heap ≡ some c
      → c.closed ≡ false
      → leb w.timeout_ms (s.clock - w.start) ≡ true
      → run_check J can_open w s ≡ ended w (timeout w ∷ []) s
  unfolding run_check call
  check_late w s c h k o e =
      rw h (bind_at (this J w.ctx) _ s s c (this_at J w.ctx s c k) ∙ rw (o, e) refl)

  check_shut :
      (w : Wait) (s : Manager J) (c : Context)
      → lookup w.finished s.flags ≡ some false
      → lookup w.ctx s.heap ≡ some c
      → c.closed ≡ true
      → run_check J can_open w s ≡ ended w [] s
  unfolding run_check
  check_shut w s c h k o = rw h (
      bind_at (this J w.ctx) _ s s c (this_at J w.ctx s c k)
      ∙ rw o (
          ap (λ l. (some tt, record s { flags = insert w.finished true s.flags; events = l }))
            (sym (append-nil s.events))))

  run_ok_miss :
      (w : Wait) (s : Manager J) (result r : Json)
      → lookup w.finished s.flags ≡ some false
      → find (txt "result") result ≡ some r
      → value_is_true J can_open r ≡ some false
      → run_ok J can_open (waited w) result s ≡ run_check J can_open w s
  unfolding run_check run_ok member
  run_ok_miss w s result r h k v = rw (k, h, v) (rw h refl)

  checks_lem :
      (w : Wait) (s : Manager J) (t : Option (Unit {0}) × Manager J)
      → lookup w.finished s.flags ≡ some false
      → Checks w s t
      → t ≡ run_check J can_open w s
  unfolding run_err
  checks_lem w s t h at_first = refl
  checks_lem w s t h (on_failure err) = rw h refl
  checks_lem w s t h (on_miss result r k v) = run_ok_miss w s result r h k v

  ends_lem :
      (w : Wait) (s : Manager J) (t : Option (Unit {0}) × Manager J) (es : List (Event J))
      → lookup w.finished s.flags ≡ some false
      → Ends w s t es
      → t ≡ ended w es s
  unfolding run_ok member call
  ends_lem w s t es h (shows result r k v) = rw (k, h, v) refl
  ends_lem w s t es h (late c m k o e) = checks_lem w s t h m ∙ check_late w s c h k o e
  ends_lem w s t es h (shut c m k o) = checks_lem w s t h m ∙ check_shut w s c h k o

  -- When a wait_for_selector that has not ended comes to its end, its client is called once with
  -- on_found, where a reply shows the selector; once with on_timeout, where a check, behind its
  -- task, an error or a reply without the selector, comes when the time is over and the context is
  -- open; and not at all, where such a check comes when the context is closed. In the state then
  -- reached a further check, error, or reply with a result, whatever its value, changes nothing.
  pub wait_ends_once :
      (w : Wait) (s : Manager J) (t : Option (Unit {0}) × Manager J) (es : List (Event J))
      (result r : Json) (err : Text)
      → lookup w.finished s.flags ≡ some false
      → Ends w s t es
      → find (txt "result") result ≡ some r
      → (t.1.events ≡ s.events ++ es)
        × (run_check J can_open w t.1 ≡ (some tt, t.1))
        × (run_err J can_open (wait_again w) err t.1 ≡ (some tt, t.1))
        × (run_ok J can_open (waited w) result t.1 ≡ (some tt, t.1))
  wait_ends_once w s t es result r err h e k =
      let same = ends_lem w s t es h e in
      let over =
        ap (λ (u : Option (Unit {0}) × Manager J). lookup w.finished u.1.flags) same
        ∙ lookup-insert_self w.finished true s.flags in
      let (quiet_check, quiet_error, quiet_reply) = ended_wait_silent w t.1 result r err over k in
      (
        ap (λ (u : Option (Unit {0}) × Manager J). u.1.events) same,
        quiet_check,
        quiet_error,
        quiet_reply,
      )
