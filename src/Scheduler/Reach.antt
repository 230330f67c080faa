-- ===== src/Scheduler/Reach.antt =====
-- Every interleaving of client calls and loop callbacks.
use lynne_social.Prelude.{
  ℕ, ◌≡◌, refl, ◌∙◌, true, false, some, List, Text, nat_eq, text_eq_instance, lookup, erase,
  lookup-erase, lookup-erase-some, lookup-erase_ne, arith, ◌==◌, if◌then◌else◌, Bool-cases, inl,
  inr, ◌⊎◌,
}
use lynne_social.Scheduler.{Scheduler, scheduler, TimerCtx, WorkCtx, closing, Call}
use lynne_social.Scheduler.Loop.{
  async_closed, perform, invoke, async_cb, timer_cb, oneshot_timer_cb, timer_close_cb, work_cb,
  after_work_cb,
}
use lynne_social.Scheduler.Timers.{IsValid}
use lynne_social.Scheduler.Timers.Calls.{IsValid-of_same, perform-IsValid}
use lynne_social.Scheduler.Safety.{
  Fires, timer_cb_lem, invoke-IsValid, async_cb-IsValid, scheduler-IsValid,
}
use lynne_social.Scheduler.Oneshot.{Armed, oneshot-IsValid}

-- The close callback frees the context of a closed handle.
timer_close_cb-IsValid :
    (p : ℕ) (c : TimerCtx) (s : Scheduler)
    → lookup p s.ctxs ≡ some c
    → c.phase ≡ closing
    → IsValid s
    → IsValid (timer_close_cb p s)
unfolding timer_close_cb
timer_close_cb-IsValid p c s found shut v = record {
  distinct = v.distinct;
  opened = λ n q h.
      let u = v.opened n q h in
      record {
        ctx = u.ctx;
        found =
            lookup-erase_ne p q s.ctxs (λ e. ground (arith, u.found, u.is_armed, found, shut, e))
            ∙ u.found;
        is_armed = u.is_armed;
        is_owned = u.is_owned;
        named = u.named;
      };
  kept = λ q x h a. v.kept q x ((lookup-erase-some p q x s.ctxs h).1) a;
  fresh = λ q h. ground (arith, lookup-erase p q s.ctxs, v.fresh q);
  sound = v.sound;
}

module _ (label : ℕ → Text) (body : ℕ → List Call) where
  -- One step. A one-shot timer's callback leaves its own timer open; Oneshot.antt says what
  -- happens otherwise. Work runs once it was queued, and its completion frees it.
  pub data Step (s : Scheduler) : Scheduler → Type 0 where
    calls : (c : Call) → Step s (perform label c s)
    wakes : Step s (async_cb label body s)
    ticks : (p : ℕ) → Fires s p false → Step s (timer_cb label body p s)
    fires :
        (p : ℕ) (f : Fires s p true)
        → Armed (invoke label body f.ctx.callback s) p
        → Step s (oneshot_timer_cb label body p s)
    closes :
        (p : ℕ) (c : TimerCtx)
        → lookup p s.ctxs ≡ some c
        → c.phase ≡ closing
        → Step s (timer_close_cb p s)
    ends_close : s.async_closing ≡ true → Step s (async_closed s)
    works : (q : ℕ) (w : WorkCtx) → lookup q s.works ≡ some w → Step s (work_cb label body q s)
    completes :
        (q status : ℕ) (w : WorkCtx)
        → lookup q s.works ≡ some w
        → Step s (after_work_cb label body q status s)

  pub data Reach (s : Scheduler) : Scheduler → Type 0 where
    here : Reach s s
    next : {t u : Scheduler} → Reach s t → Step t u → Reach s u

  after_work_cb-IsValid :
      (q status : ℕ) (w : WorkCtx) (s : Scheduler)
      → lookup q s.works ≡ some w
      → IsValid s
      → IsValid (after_work_cb label body q status s)
  unfolding after_work_cb
  after_work_cb-IsValid q status w s e v = rw (e, after_work_cb) (cases (Bool-cases (status == 0)))
    where
      s' : Scheduler
      s' = invoke label body w.on_done s

      freed : (t : Scheduler) → IsValid t → IsValid (record t { works = erase q t.works })
      freed t u = IsValid-of_same t _ refl refl (omega arith) refl u

      cases :
          ((status == 0) ≡ true) ⊎ ((status == 0) ≡ false)
          → IsValid (let t = if status == 0 then s' else s in record t { works = erase q t.works })
      cases (inl h) = rw h (freed s' (invoke-IsValid label body w.on_done s v))
      cases (inr h) = rw h (freed s v)

  pub Step-IsValid : {s t : Scheduler} → Step s t → IsValid s → IsValid t
  Step-IsValid {s} (calls c) v = perform-IsValid label c s v
  Step-IsValid {s} wakes v = async_cb-IsValid label body s v
  Step-IsValid {s} (ticks p f) v =
      rw (timer_cb_lem label body s f) (invoke-IsValid label body f.ctx.callback s v)
  Step-IsValid {s} (fires p f a) v = oneshot-IsValid label body p s f v a
  Step-IsValid {s} (closes p c e shut) v = timer_close_cb-IsValid p c s e shut v
  Step-IsValid {s} (ends_close h) v =
      unfold async_closed in IsValid-of_same s _ refl refl (omega arith) refl v
  Step-IsValid {s} (works q w e) v =
      unfold work_cb in rw (e, work_cb) (invoke-IsValid label body w.work s v)
  Step-IsValid {s} (completes q status w e) v = after_work_cb-IsValid q status w s e v

  -- In every state that client calls and loop callbacks can reach from a new scheduler, in any
  -- order, timers_ holds each open timer under its own name and once, no open timer is missing
  -- from it, and no timer handle was closed twice and no timer context used after it was freed.
  -- The async handle is left aside. A step of a one-shot timer is included if its callback leaves
  -- that timer open.
  pub Reach-IsValid : {t : Scheduler} → Reach scheduler t → IsValid t
  Reach-IsValid here = scheduler-IsValid
  Reach-IsValid (next r st) = Step-IsValid st (Reach-IsValid r)
