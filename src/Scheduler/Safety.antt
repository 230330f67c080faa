-- ===== src/Scheduler/Safety.antt =====
-- The callbacks of the loop and the timer table. libuv's contract is in the premises: a timer fires
-- while its handle is open, and the close callback runs for a handle that was closed.
use lynne_social.Prelude.{
  ℕ, ◌≡◌, refl, Bool, true, some, List, [], ◌∷◌, Text, nat_eq, text_eq_instance, lookup, arith, inl,
  inr, ◌⊎◌, Option-cases,
}
use lynne_social.Scheduler.{
  Scheduler, scheduler, TimerCtx, Phase, armed, closing, Call, close_timer,
}
use lynne_social.Scheduler.Loop.{invoke, invoke_all, drain_post_queue, async_cb, timer_cb, retire}
use lynne_social.Scheduler.Timers.{IsValid, IsOpen, removed}
use lynne_social.Scheduler.Timers.Calls.{IsValid-of_same, perform_all-IsValid}

-- The address holds a timer of that kind with an open handle.
pub record Fires (s : Scheduler) (p : ℕ) (oneshot : Bool) : Type 0 where
  pub ctx : TimerCtx
  pub found : lookup p s.ctxs ≡ some ctx
  pub is_armed : ctx.phase ≡ armed
  pub kind : ctx.oneshot ≡ oneshot

pub scheduler-IsValid : IsValid scheduler
unfolding scheduler lookup
scheduler-IsValid = record {
  distinct = tt;
  opened = λ n p h. cc;
  kept = λ p c h a. cc;
  fresh = λ p h. refl;
  sound = refl;
}

Phase-cases : (f : Phase) → (f ≡ armed) ⊎ (f ≡ closing)
Phase-cases armed = inl refl
Phase-cases closing = inr refl

module _ (label : ℕ → Text) (body : ℕ → List Call) where
  pub invoke-IsValid : (c : ℕ) (s : Scheduler) → IsValid s → IsValid (invoke label body c s)
  unfolding invoke
  invoke-IsValid c s v =
      perform_all-IsValid label (body c) _ (IsValid-of_same s _ refl refl (omega arith) refl v)

  invoke_all-IsValid :
      (cs : List ℕ) (s : Scheduler) → IsValid s → IsValid (invoke_all label body cs s)
  unfolding invoke_all
  invoke_all-IsValid [] s v = v
  invoke_all-IsValid (c ∷ cs) s v = invoke_all-IsValid cs _ (invoke-IsValid c s v)

  pub async_cb-IsValid : (s : Scheduler) → IsValid s → IsValid (async_cb label body s)
  unfolding async_cb drain_post_queue
  async_cb-IsValid s v =
      invoke_all-IsValid s.post_queue _ (IsValid-of_same s _ refl refl (omega arith) refl v)

  pub timer_cb_lem :
      {oneshot : Bool} {p : ℕ} (s : Scheduler) (f : Fires s p oneshot)
      → timer_cb label body p s ≡ invoke label body f.ctx.callback s
  unfolding timer_cb
  timer_cb_lem s f = rw (f.found, timer_cb)

  -- A context whose handle is open is the table's.
  pub IsOpen-of_armed :
      (p : ℕ) (c : TimerCtx) (s : Scheduler)
      → IsValid s
      → lookup p s.ctxs ≡ some c
      → c.phase ≡ armed
      → (o : IsOpen s c.name p) × (o.ctx ≡ c)
  IsOpen-of_armed p c s v h a =
      let o = v.opened c.name p (v.kept p c h a) in (o, ground (arith, o.found, h))

  pub retire_open : {n : Text} {p : ℕ} (s : Scheduler) (o : IsOpen s n p) → retire p s ≡ removed s o
  unfolding retire close_timer
  retire_open s o = rw (o.found, retire, o.is_owned, o.found, o.is_armed, o.named) refl

  pub armed_or_not :
      (p : ℕ) (s : Scheduler)
      → ((c : TimerCtx) × (lookup p s.ctxs ≡ some c) × (c.phase ≡ armed))
        ⊎ ((retire p s).fault ≡ true)
  unfolding retire close_timer
  armed_or_not p s = elim (Option-cases (lookup p s.ctxs)) [
    | inl e ↦ inr (rw (e, retire))
    | inr (c, e) ↦ elim (Phase-cases c.phase) [ inl a ↦ inl (c, e, a) | inr a ↦ inr (ground arith) ]
  ]
