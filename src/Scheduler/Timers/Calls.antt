-- ===== src/Scheduler/Timers/Calls.antt =====
-- The calls of a client and the timer table (wheel/scheduler/imp/uv_scheduler.cpp).
use lynne_social.Prelude.{
  ◌||◌, ℕ, suc, ◌≤◌, ◌≡◌, refl, ◌∙◌, Bool, true, false, none, some, List, [], ◌∷◌, ◌++◌, Text, txt,
  text_eq, text_eq_iff, nat_eq, text_eq_instance, lookup, insert, lookup-insert, arith,
  if◌then◌else◌, Bool-cases, inl, inr,
}
use lynne_social.Scheduler.{
  Scheduler, TimerCtx, armed, arm, start, post, run_blocking, add_job, remove_job, after, Call,
  starts, stops, posts, adds_job, removes_job, calls_after, runs_blocking, calls_after_elsewhere,
  after_elsewhere,
}
use lynne_social.Scheduler.Timers.{
  IsValid, IsOpen, Distinct-insert, remove_job-IsValid, lookup-remove_job,
}
use lynne_social.Scheduler.Timers.Stop.{stop-IsValid}
use lynne_social.Scheduler.Loop.{perform, perform_all}

-- States that agree on the fields that the invariant reads are valid together.
pub IsValid-of_same :
    (s t : Scheduler)
    → t.timers ≡ s.timers
    → t.ctxs ≡ s.ctxs
    → s.next ≤ t.next
    → t.fault ≡ s.fault
    → IsValid s
    → IsValid t
IsValid-of_same s t et ec en ef v = record {
  distinct = rw et v.distinct;
  opened = λ n p h.
      let u = v.opened n p (rw et at h) in
      record {
        ctx = u.ctx;
        found = rw ec u.found;
        is_armed = u.is_armed;
        is_owned = u.is_owned;
        named = u.named;
      };
  kept = λ p c h a. rw et (v.kept p c (rw ec at h) a);
  fresh = λ p h. rw ec (v.fresh p (omega arith));
  sound = ef ∙ v.sound;
}

module _ (n : Text) (callback : ℕ) (oneshot : Bool) (timeout repeat : ℕ) (s : Scheduler) where
  abbrev new_ctx : TimerCtx
  new_ctx = record {
    name = n;
    callback = callback;
    owned = true;
    oneshot = oneshot;
    timeout = timeout;
    repeat = repeat;
    phase = armed;
  }

  armed-opened :
      IsValid s
      → (m : Text) (q : ℕ) → lookup m (insert n s.next s.timers) ≡ some q
      → IsOpen (arm n callback oneshot timeout repeat s) m q
  unfolding arm
  armed-opened v m q h = elim (Bool-cases (text_eq n m)) [
    | inl same ↦ record {
      ctx = new_ctx;
      found =
          ground (arith, lookup-insert n m s.next s.timers, lookup-insert s.next q new_ctx s.ctxs);
      is_armed = refl;
      is_owned = refl;
      named = (text_eq_iff n m).0 same;
    }
    | inr differ ↦
        let held : lookup m s.timers ≡ some q = ground (arith, lookup-insert n m s.next s.timers) in
        let u = v.opened m q held in
        record {
          ctx = u.ctx;
          found = ground (arith, lookup-insert s.next q new_ctx s.ctxs, u.found, v.fresh q);
          is_armed = u.is_armed;
          is_owned = u.is_owned;
          named = u.named;
        }
  ]

  -- A new timer under a name that the table does not hold.
  pub arm-IsValid :
      lookup n s.timers ≡ none → IsValid s → IsValid (arm n callback oneshot timeout repeat s)
  unfolding arm
  arm-IsValid new v = record {
    distinct = Distinct-insert n s.next s.timers v.distinct;
    opened = armed-opened v;
    kept = λ q c h a. ground (
      arith,
      lookup-insert s.next q new_ctx s.ctxs,
      lookup-insert n c.name s.next s.timers,
      v.kept q c,
      text_eq_iff n c.name,
    );
    fresh = λ q h. ground (arith, lookup-insert s.next q new_ctx s.ctxs, v.fresh q);
    sound = v.sound;
  }

pub add_job-IsValid :
    (n : Text) (ms callback : ℕ) (s : Scheduler) → IsValid s → IsValid (add_job n ms callback s)
unfolding add_job
add_job-IsValid n ms callback s v =
    arm-IsValid n callback false ms ms (remove_job n s) (lookup-remove_job n s v)
      (remove_job-IsValid n s v)

module _ (label : ℕ → Text) where
  pub after-IsValid :
      (ms callback : ℕ) (s : Scheduler) → IsValid s → IsValid (after label ms callback s)
  unfolding after
  after-IsValid ms callback s v =
      arm-IsValid n callback true ms 0 (remove_job n s') (lookup-remove_job n s' v')
        (remove_job-IsValid n s' v')
    where
      n : Text
      n = txt "_a_" ++ label (suc s.counter)

      s' : Scheduler
      s' = record s { counter = suc s.counter }

      v' : IsValid s'
      v' = IsValid-of_same s s' refl refl (omega arith) refl v

  pub perform-IsValid : (c : Call) (s : Scheduler) → IsValid s → IsValid (perform label c s)
  unfolding perform
  perform-IsValid starts s v =
      unfold start in
      (elim s.started
        as (λ b. IsValid (
          if b then s else record s {
            async_inited = true;
            started = true;
            async_fault = s.async_fault || s.async_closing;
          })) [ true ↦ v | false ↦ IsValid-of_same s _ refl refl (omega arith) refl v ])
  perform-IsValid stops s v = stop-IsValid s v
  perform-IsValid (posts c) s v = unfold post in IsValid-of_same s _ refl refl (omega arith) refl v
  perform-IsValid (adds_job n ms c) s v = add_job-IsValid n ms c s v
  perform-IsValid (removes_job n) s v = remove_job-IsValid n s v
  perform-IsValid (calls_after ms c) s v = after-IsValid ms c s v
  perform-IsValid (runs_blocking w d) s v =
      unfold run_blocking in IsValid-of_same s _ refl refl (omega arith) refl v
  perform-IsValid calls_after_elsewhere s v =
      unfold after_elsewhere in IsValid-of_same s _ refl refl (omega arith) refl v

  pub perform_all-IsValid :
      (cs : List Call) (s : Scheduler) → IsValid s → IsValid (perform_all label cs s)
  unfolding perform_all
  perform_all-IsValid [] s v = v
  perform_all-IsValid (c ∷ cs) s v = perform_all-IsValid cs _ (perform-IsValid c s v)
