-- ===== src/Scheduler/Oneshot.antt =====
-- The timers of after() and oneshot_timer_cb (wheel/scheduler/imp/uv_scheduler.cpp).
use lynne_social.Prelude.{
  ℕ, ◌≡◌, ◌↔◌, ◌∙◌, true, false, some, List, [], ◌∷◌, ◌++◌, Text, nat_eq, text_eq_instance, lookup,
  lookup-insert_self, arith, inl, inr, Option-cases,
}
use lynne_social.Scheduler.{Scheduler, TimerCtx, armed, closing, Call, close_timer}
use lynne_social.Scheduler.Loop.{invoke, retire, oneshot_timer_cb}
use lynne_social.Scheduler.Timers.{IsValid, removed-IsValid}
use lynne_social.Scheduler.Queue.{executed-invoke}
use lynne_social.Scheduler.Safety.{
  Fires, timer_cb_lem, retire_open, IsOpen-of_armed, armed_or_not, invoke-IsValid,
}

-- The address holds a context whose handle is open.
pub record Armed (s : Scheduler) (p : ℕ) : Type 0 where
  pub ctx : TimerCtx
  pub found : lookup p s.ctxs ≡ some ctx
  pub is_armed : ctx.phase ≡ armed

module _ (label : ℕ → Text) (body : ℕ → List Call) where
  executed-retire : (p : ℕ) (s : Scheduler) → (retire p s).executed ≡ s.executed
  unfolding retire close_timer
  executed-retire p s = ground arith

  retire-Armed : (p : ℕ) (s : Scheduler) → ¬ Armed (retire p s) p
  unfolding retire close_timer
  retire-Armed p s a = elim (Option-cases (lookup p s.ctxs)) [
    | inl e ↦ ground arith
    | inr (c, e) ↦
        ground (arith, lookup-insert_self p (record c { owned = false; phase = closing }) s.ctxs)
  ]

  -- A one-shot timer that fires runs its callback once, and afterwards its handle is no longer
  -- open.
  pub oneshot_runs_once :
      (p : ℕ) (s : Scheduler) (f : Fires s p true)
      → ((oneshot_timer_cb label body p s).executed ≡ s.executed ++ (f.ctx.callback ∷ []))
        × (¬ Armed (oneshot_timer_cb label body p s) p)
  unfolding oneshot_timer_cb
  oneshot_runs_once p s f = rw (timer_cb_lem label body s f) (
    executed-retire p (invoke label body f.ctx.callback s)
        ∙ executed-invoke label body f.ctx.callback s,
    retire-Armed p (invoke label body f.ctx.callback s),
  )

  pub oneshot-IsValid :
      (p : ℕ) (s : Scheduler) (f : Fires s p true)
      → IsValid s
      → Armed (invoke label body f.ctx.callback s) p
      → IsValid (oneshot_timer_cb label body p s)
  unfolding oneshot_timer_cb
  oneshot-IsValid p s f v a =
      let s' = invoke label body f.ctx.callback s in
      let v' = invoke-IsValid label body f.ctx.callback s v in
      let (o, same) = IsOpen-of_armed label body p a.ctx s' v' a.found a.is_armed in
      rw (timer_cb_lem label body s f, retire_open label body s' o) (removed-IsValid s' v' o)

  -- From a valid state, a one-shot timer that fires is closed twice, or used after it was freed,
  -- exactly if its callback has left that timer no longer open, as a call of stop or of remove_job
  -- does.
  pub oneshot_fault_iff :
      (p : ℕ) (s : Scheduler) (f : Fires s p true)
      → IsValid s
      → ((oneshot_timer_cb label body p s).fault ≡ true)
        ↔ (¬ Armed (invoke label body f.ctx.callback s) p)
  oneshot_fault_iff p s f v = (
    λ bad a. ground (arith, (oneshot-IsValid p s f v a).sound),
    λ shut. unfold oneshot_timer_cb in rw (timer_cb_lem label body s f) (faults shut),
  )
    where
      s' : Scheduler
      s' = invoke label body f.ctx.callback s

      faults : ¬ Armed s' p → (retire p s').fault ≡ true
      faults shut = elim (armed_or_not label body p s') [
        | inl (c, e, a) ↦ absurd (shut (record { ctx = c; found = e; is_armed = a }))
        | inr bad ↦ bad
      ]
