-- ===== src/Scheduler/Timers/Stop.antt =====
-- stop() and the timer table (wheel/scheduler/imp/uv_scheduler.cpp).
use lynne_social.Prelude.{
  ◌||◌, ◌&&◌, ℕ, ◌≡◌, ◌≢◌, refl, ◌∙◌, true, false, none, some, List, [], ◌∷◌, Text, text_eq_iff,
  nat_eq, Distinct, text_eq_instance, lookup, insert, lookup-insert, lookup-insert_ne, arith,
  if◌then◌else◌,
}
use lynne_social.Scheduler.{Scheduler, TimerCtx, armed, closing, stop, close_all}
use lynne_social.Scheduler.Timers.{IsValid, IsOpen, close_timer_open}

-- All names of `ts` lead to open timers.
abbrev AllOpen : Scheduler → List (Text × ℕ) → Type 0
AllOpen s ts = (n : Text) (p : ℕ) → lookup n ts ≡ some p → IsOpen s n p

-- What closing the timers of `ts` leaves.
record Closed (s : Scheduler) (ts : List (Text × ℕ)) (t : Scheduler) : Type 0 where
  same_fault : t.fault ≡ s.fault
  same_next : t.next ≡ s.next
  missing : (p : ℕ) → lookup p s.ctxs ≡ none → lookup p t.ctxs ≡ none
  still_armed :
      (p : ℕ) (c : TimerCtx)
      → lookup p t.ctxs ≡ some c
      → c.phase ≡ armed
      → (lookup p s.ctxs ≡ some c) × (lookup c.name ts ≢ some p)

module _ (n : Text) (p : ℕ) (ts : List (Text × ℕ)) (s : Scheduler) (u : IsOpen s n p) where
  abbrev marked : TimerCtx
  marked = record (u.ctx) { owned = false; phase = closing }

  abbrev after_one : Scheduler
  after_one = record s { ctxs = insert p marked s.ctxs }

  after_one-AllOpen : lookup n ts ≡ none → AllOpen s ((n, p) ∷ ts) → AllOpen after_one ts
  unfolding lookup
  after_one-AllOpen new o m q h =
      let w = o m q (ground (arith, text_eq_iff n m)) in
      record {
        ctx = w.ctx;
        found =
            lookup-insert_ne p q marked s.ctxs
              (λ e. ground (arith, u.found, u.named, w.found, w.named, new, h))
            ∙ w.found;
        is_armed = w.is_armed;
        is_owned = w.is_owned;
        named = w.named;
      }

  after_one-Closed : (t : Scheduler) → Closed after_one ts t → Closed s ((n, p) ∷ ts) t
  unfolding lookup
  after_one-Closed t c = record {
    same_fault = c.same_fault;
    same_next = c.same_next;
    missing = λ q h. c.missing q (ground (arith, lookup-insert p q marked s.ctxs, u.found));
    still_armed = λ q x h a.
        let (held, other) = c.still_armed q x h a in
        (
          ground (arith, lookup-insert p q marked s.ctxs, held, a),
          λ e. ground (arith, lookup-insert p q marked s.ctxs, held, a, other, e),
        );
  }

close_all-Closed :
    (ts : List (Text × ℕ)) (s : Scheduler)
    → Distinct ts
    → AllOpen s ts
    → Closed s ts (close_all ts s)
unfolding close_all lookup
close_all-Closed [] s d o = record {
  same_fault = refl;
  same_next = refl;
  missing = λ p h. h;
  still_armed = λ p c h a. (h, λ e. cc);
}
close_all-Closed ((n, p) ∷ ts) s d o = rw (close_timer_open s u) (
    after_one-Closed n p ts s u _
      (close_all-Closed ts (after_one n p ts s u) d.1 (after_one-AllOpen n p ts s u d.0 o)))
  where
    u : IsOpen s n p
    u = o n p (ground (arith, text_eq_iff n n))

stopped-IsValid :
    (s s' t : Scheduler)
    → IsValid s
    → Closed s s.timers t
    → IsValid (record t {
      timers = [];
      async_inited = false;
      async_closing = s'.async_inited || s'.async_closing;
      async_fault = s'.async_fault || (s'.async_inited && s'.async_closing);
    })
unfolding lookup
stopped-IsValid s s' t v c = record {
  distinct = tt;
  opened = λ n p h. cc;
  kept = λ p x h a. let (held, other) = c.still_armed p x h a in absurd (other (v.kept p x held a));
  fresh = λ p h. c.missing p (v.fresh p (ground (arith, c.same_next)));
  sound = c.same_fault ∙ v.sound;
}

-- After stop() no timer is left open.
pub stop-IsValid : (s : Scheduler) → IsValid s → IsValid (stop s)
stop-IsValid s v =
    unfold stop in
    (elim s.started
      as (λ b. IsValid (
        if b
        then record (close_all s.timers (record s { started = false })) {
          timers = [];
          async_inited = false;
          async_closing = s.async_inited || s.async_closing;
          async_fault = s.async_fault || (s.async_inited && s.async_closing);
        }
        else s)) [
          | true ↦
              stopped-IsValid s' s (close_all s.timers s') v'
                (close_all-Closed s.timers s' v.distinct v'.opened)
          | false ↦ v
        ])
  where
    s' : Scheduler
    s' = record s { started = false }

    v' : IsValid s'
    v' = record {
      distinct = v.distinct;
      opened = λ n p h.
          let u = v.opened n p h in
          record {
            ctx = u.ctx;
            found = u.found;
            is_armed = u.is_armed;
            is_owned = u.is_owned;
            named = u.named;
          };
      kept = v.kept;
      fresh = v.fresh;
      sound = v.sound;
    }
