-- ===== src/Browser/Replaced.antt =====
-- The life of a context: a second one for the same platform, and the timers of one that is gone.
use lynne_social.Prelude.{
  ℕ, suc, ◌≡◌, refl, Bool, true, false, Option, ap, ◌∙◌, none, some, List, [], ◌∷◌, ◌++◌, Text,
  nat_eq, text_eq_instance, lookup, insert, lookup-erase_self, lookup-insert_self,
}
use lynne_social.Json.{JsonLib}
use lynne_social.Storage.Fs.{Disk}
use lynne_social.Browser.State.{Manager, Context, give, done}
use lynne_social.Browser.Exec.{call, bind_at}
use lynne_social.Browser.Pages.{navigate, after, this, this_at}
use lynne_social.Browser.Contexts.{
  delete_context, put_context, on_script_added, with_context, clear_all,
}
use lynne_social.Browser.Messages.{run_timer}

module _ (J : JsonLib) where
  put_context_frees :
      (platform : Text) (p q : ℕ) (s : Manager J) (c : Context)
      → lookup platform s.contexts ≡ some q
      → lookup q s.heap ≡ some c
      → lookup q (put_context J platform p s).heap ≡ none
  unfolding put_context delete_context
  put_context_frees platform p q s c h k = rw (h, k, delete_context) (lookup-erase_self q s.heap)

  navigate_freed :
      (q : ℕ) (url : Text) (a b : ℕ) (s : Manager J)
      → lookup q s.heap ≡ none
      → (navigate J q url a b s).1.fault ≡ true
  unfolding navigate this
  navigate_freed q url a b s h = rw (h, this) refl

  -- When the stealth script of a new context is in place while the platform has a live context
  -- already, that earlier context is freed, and a navigate of a client that holds it uses freed
  -- memory.
  pub second_context_frees_first :
      (platform url : Text) (p q k a b : ℕ) (s : Manager J) (c : Context)
      → lookup platform s.contexts ≡ some q
      → lookup q s.heap ≡ some c
      → (lookup q (on_script_added J platform p (give k) s).1.heap ≡ none)
        × ((navigate J q url a b (on_script_added J platform p (give k) s).1).1.fault ≡ true)
  unfolding on_script_added with_context call
  second_context_frees_first platform url p q k a b s c h e =
      let gone = put_context_frees platform p q s c h e in (gone, navigate_freed q url a b _ gone)

module _ (J : JsonLib) (can_open : Text → Disk → Bool) where
  clear_all_last :
      (gs : List ℕ) (g : ℕ) (flags : List (ℕ × Bool))
      → lookup g (clear_all J (gs ++ (g ∷ [])) flags) ≡ some false
  clear_all_last [] g flags = lookup-insert_self g false flags
  clear_all_last (x ∷ gs) g flags = clear_all_last gs g (insert x false flags)

  timer_dead :
      (g k : ℕ) (s : Manager J)
      → lookup g s.flags ≡ some false
      → run_timer J can_open g k s ≡ (some tt, s)
  unfolding run_timer
  timer_dead g k s h = rw (h, run_timer) refl

  timer_alive :
      (g k : ℕ) (s : Manager J)
      → lookup g s.flags ≡ some true
      → run_timer J can_open g k s ≡ call {J = J} k done s
  unfolding run_timer
  timer_alive g k s h = rw (h, run_timer) refl

  abbrev guarded : Context → ℕ → Context
  guarded c g = record c { after_guards = c.after_guards ++ (g ∷ []) }

  abbrev armed : ℕ → ℕ → ℕ → Context → Manager J → Manager J
  armed p ms k c s = record s {
    flags = insert s.next true s.flags;
    next = suc s.next;
    timers = s.timers ++ ((ms, s.next, k) ∷ []);
    heap = insert p (guarded c s.next) s.heap;
  }

  after_live :
      (p ms k : ℕ) (s : Manager J) (c : Context)
      → lookup p s.heap ≡ some c
      → after J p ms k s ≡ (some tt, armed p ms k c s)
  unfolding after
  after_live p ms k s c h = bind_at (this J p) _ s s c (this_at J p s c h)

  delete_context_flags :
      (p : ℕ) (s : Manager J) (c : Context)
      → lookup p s.heap ≡ some c
      → (delete_context J p s).flags ≡ clear_all J c.after_guards s.flags
  unfolding delete_context
  delete_context_flags p s c h = rw (h, delete_context) refl

  after_state :
      (p ms k : ℕ) (s : Manager J) (c : Context)
      → lookup p s.heap ≡ some c
      → (lookup s.next (after J p ms k s).1.flags ≡ some true)
        × (lookup s.next (delete_context J p (after J p ms k s).1).flags ≡ some false)
  after_state p ms k s c h = rw (after_live p ms k s c h) (
    lookup-insert_self s.next true s.flags,
    rw
        (delete_context_flags p (armed p ms k c s) (guarded c s.next)
          (lookup-insert_self p (guarded c s.next) s.heap))
        (clear_all_last c.after_guards s.next (insert s.next true s.flags)),
  )

  timers_after :
      (p ms k : ℕ) (s : Manager J) (c : Context)
      → lookup p s.heap ≡ some c
      → (delete_context J p (after J p ms k s).1).timers ≡ s.timers ++ ((ms, s.next, k) ∷ [])
  unfolding delete_context
  timers_after p ms k s c h =
      ap (λ (r : Option (Unit {0}) × Manager J). (delete_context J p r.1).timers)
        (after_live p ms k s c h)
      ∙ rw (delete_context, lookup-insert_self p (guarded c s.next) s.heap) refl

  -- After on a live context arms one timer with the given delay. When it fires while the context
  -- is there, it calls its client; when the context is destroyed first, the timer stays armed, and
  -- does nothing when it fires.
  pub after-delete_context :
      (p ms k : ℕ) (s : Manager J) (c : Context)
      → lookup p s.heap ≡ some c
      → ((delete_context J p (after J p ms k s).1).timers ≡ s.timers ++ ((ms, s.next, k) ∷ []))
        × (run_timer J can_open s.next k (after J p ms k s).1
            ≡ call {J = J} k done (after J p ms k s).1)
        × (run_timer J can_open s.next k (delete_context J p (after J p ms k s).1)
            ≡ (some tt, delete_context J p (after J p ms k s).1))
  after-delete_context p ms k s c h =
      let (on, off) = after_state p ms k s c h in
      (
        timers_after p ms k s c h,
        timer_alive s.next k (after J p ms k s).1 on,
        timer_dead s.next k (delete_context J p (after J p ms k s).1) off,
      )
