-- ===== src/Scheduler/Timers.antt =====
-- timers_ and the contexts that it points to (wheel/scheduler/imp/uv_scheduler.cpp): what a valid
-- state is, and remove_job.
pub mod Calls
pub mod Stop
use lynne_social.Prelude.Entries.{Distinct-erase}
use lynne_social.Prelude.{
  Distinct, ℕ, suc, ◌≤◌, ◌≡◌, ◌≢◌, refl, ◌∙◌, inl, inr, Option-cases, lookup-erase-some,
  lookup-insert_ne, lookup-insert_self, lookup-erase_self, lookup-erase_ne, Bool, true, false,
  Option, none, some, List, [], ◌∷◌, Text, text_eq, text_eq_iff, nat_eq, text_eq_instance, lookup,
  insert, erase, lookup-insert, lookup-erase, ◌==◌, ==_iff, arith, if◌then◌else◌,
}
use lynne_social.Scheduler.{
  Scheduler, TimerCtx, Phase, armed, closing, close_timer, close_ctx, remove_job, remove_found, arm,
}

-- The address holds an open context of that name that still belongs to the table.
pub record IsOpen (s : Scheduler) (n : Text) (p : ℕ) : Type 0 where
  pub ctx : TimerCtx
  pub found : lookup p s.ctxs ≡ some ctx
  pub is_armed : ctx.phase ≡ armed
  pub is_owned : ctx.owned ≡ true
  pub named : ctx.name ≡ n

pub record IsValid (s : Scheduler) : Type 0 where
  pub distinct : Distinct s.timers
  pub opened : (n : Text) (p : ℕ) → lookup n s.timers ≡ some p → IsOpen s n p
  pub kept :
      (p : ℕ) (c : TimerCtx)
      → lookup p s.ctxs ≡ some c
      → c.phase ≡ armed
      → lookup c.name s.timers ≡ some p
  pub fresh : (p : ℕ) → s.next ≤ p → lookup p s.ctxs ≡ none
  pub sound : s.fault ≡ false

pub Distinct-insert :
    (n : Text) (p : ℕ) (ts : List (Text × ℕ)) → Distinct ts → Distinct (insert n p ts)
unfolding insert
Distinct-insert n p ts d =
    (ground (arith, lookup-erase n n ts, text_eq_iff n n), Distinct-erase n ts d)

-- Closing an open timer marks it, and touches nothing else.
pub close_timer_open :
    {n : Text} {p : ℕ} (s : Scheduler) (o : IsOpen s n p)
    → close_timer p s
      ≡ record s { ctxs = insert p (record (o.ctx) { owned = false; phase = closing }) s.ctxs }
unfolding close_timer
close_timer_open s o = rw (o.found, o.is_armed) refl

-- The state after remove_job on a name of the table.
abbrev pub removed : {n : Text} {p : ℕ} (s : Scheduler) → IsOpen s n p → Scheduler
removed {n} {p} s o = record s {
  timers = erase n s.timers;
  ctxs = insert p (record (o.ctx) { owned = false; phase = closing }) s.ctxs;
}

pub remove_job_found :
    (n : Text) (p : ℕ) (s : Scheduler) (o : IsOpen s n p)
    → lookup n s.timers ≡ some p
    → remove_job n s ≡ removed s o
unfolding remove_job close_timer
remove_job_found n p s o e = rw (e, remove_job, o.found, o.is_armed) refl

pub remove_job_missing : (n : Text) (s : Scheduler) → lookup n s.timers ≡ none → remove_job n s ≡ s
unfolding remove_job
remove_job_missing n s e = rw (e, remove_job) refl

module _ {n : Text} {p : ℕ} (s : Scheduler) (v : IsValid s) (o : IsOpen s n p) where
  -- Two names of the table lead to two contexts.
  pub apart : (m : Text) (q : ℕ) → lookup m s.timers ≡ some q → n ≢ m → p ≢ q
  apart m q h differ same = differ (clash (v.opened m q h))
    where
      clash : IsOpen s m q → n ≡ m
      clash u = ground (arith, u.found, u.named, o.found, o.named)

  removed-opened :
      (m : Text) (q : ℕ) → lookup m (removed s o).timers ≡ some q → IsOpen (removed s o) m q
  removed-opened m q h =
      let (differ, held) = lookup-erase-some n m q s.timers h in
      let u = v.opened m q held in
      record {
        ctx = u.ctx;
        found =
            lookup-insert_ne p q (record (o.ctx) { owned = false; phase = closing }) s.ctxs
              (apart m q held differ)
            ∙ u.found;
        is_armed = u.is_armed;
        is_owned = u.is_owned;
        named = u.named;
      }

  pub removed-IsValid : IsValid (removed s o)
  removed-IsValid = record {
    distinct = Distinct-erase n s.timers v.distinct;
    opened = removed-opened;
    kept = λ q c h a. ground (
      arith,
      lookup-insert p q (record (o.ctx) { owned = false; phase = closing }) s.ctxs,
      v.kept q c,
      v.kept p o.ctx o.found o.is_armed,
      o.named,
      lookup-erase n c.name s.timers,
      text_eq_iff n c.name,
    );
    fresh = λ q h. ground (
      arith,
      lookup-insert p q (record (o.ctx) { owned = false; phase = closing }) s.ctxs,
      v.fresh q,
      o.found,
    );
    sound = v.sound;
  }

-- remove_job takes the name out of the table and closes its timer.
pub remove_job-IsValid : (n : Text) (s : Scheduler) → IsValid s → IsValid (remove_job n s)
remove_job-IsValid n s v = elim (Option-cases (lookup n s.timers)) [
  | inl e ↦ rw (remove_job_missing n s e) v
  | inr (p, e) ↦
      rw (remove_job_found n p s (v.opened n p e) e) (removed-IsValid s v (v.opened n p e))
]

pub lookup-remove_job :
    (n : Text) (s : Scheduler) → IsValid s → lookup n (remove_job n s).timers ≡ none
lookup-remove_job n s v = elim (Option-cases (lookup n s.timers)) [
  | inl e ↦ rw (remove_job_missing n s e) e
  | inr (p, e) ↦ rw (remove_job_found n p s (v.opened n p e) e) (lookup-erase_self n s.timers)
]
