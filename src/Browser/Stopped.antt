-- ===== src/Browser/Stopped.antt =====
-- The end of the contexts when the manager stops (cdp_browser_manager.cpp, stop).
use lynne_social.Prelude.{
  ◌≡◌, ◌≢◌, refl, sym, ◌∙◌, true, false, none, some, List, [], ◌∷◌, Text, ℕ, nat_eq, lookup,
  lookup-erase_self, lookup-erase_ne, All, All-map, if◌then◌else◌,
}
use lynne_social.Json.{JsonLib}
use lynne_social.Browser.State.{Manager, Context}
use lynne_social.Browser.Contexts.{delete_context, delete_contexts}
use lynne_social.Browser.Lifecycle.{stop}

-- A context lives at this address.
pub record IsLive (heap : List (ℕ × Context)) (p : ℕ) : Type 0 where
  pub ctx : Context
  pub found : lookup p heap ≡ some ctx

-- No two names lead to one address.
abbrev pub IsApart : List (Text × ℕ) → Type 0
IsApart [] = Unit
IsApart ((n, p) ∷ cs) = All (λ x. p ≢ x.1) cs × IsApart cs

module _ (J : JsonLib) where
  -- What a row of deletions does: the contexts are gone, all other memory is as it was.
  record Deleted (cs : List (Text × ℕ)) (s t : Manager J) : Type 0 where
    gone : All (λ x. lookup x.1 t.heap ≡ none) cs
    others : (q : ℕ) → All (λ x. x.1 ≢ q) cs → lookup q t.heap ≡ lookup q s.heap
    sound : t.fault ≡ s.fault
    quiet : (t.events ≡ s.events) × (t.pending ≡ s.pending) × (t.sent ≡ s.sent)

  delete_context-Deleted :
      (n : Text) (p : ℕ) (s : Manager J)
      → IsLive s.heap p
      → Deleted ((n, p) ∷ []) s (delete_context J p s)
  unfolding delete_context
  delete_context-Deleted n p s h =
      rw (h.found, delete_context)
        (record {
          gone = (lookup-erase_self p s.heap, tt);
          others = λ q ne. lookup-erase_ne p q s.heap ne.0;
          sound = refl;
          quiet = (refl, refl, refl);
        })

  -- The contexts that stand apart from an address are live still when it has been freed.
  IsLive-after :
      (cs : List (Text × ℕ)) (p : ℕ) (s t : Manager J) (n : Text)
      → Deleted ((n, p) ∷ []) s t
      → All (λ x. p ≢ x.1) cs
      → All (λ x. IsLive s.heap x.1) cs
      → All (λ x. IsLive t.heap x.1) cs
  IsLive-after [] p s t n d a l = tt
  IsLive-after ((m, q) ∷ cs) p s t n d a l = (
    record { ctx = l.0.ctx; found = d.others q (a.0, tt) ∙ l.0.found },
    IsLive-after cs p s t n d a.1 l.1,
  )

  delete_contexts-Deleted :
      (cs : List (Text × ℕ)) (s : Manager J)
      → All (λ x. IsLive s.heap x.1) cs
      → IsApart cs
      → Deleted cs s (delete_contexts J cs s)
  unfolding delete_contexts
  delete_contexts-Deleted [] s l a = record {
    gone = tt;
    others = λ q ne. refl;
    sound = refl;
    quiet = (refl, refl, refl);
  }
  delete_contexts-Deleted ((n, p) ∷ cs) s l a =
      let t = delete_context J p s in
      let d = delete_context-Deleted n p s l.0 in
      let e = delete_contexts-Deleted cs t (IsLive-after cs p s t n d a.0 l.1) a.1 in
      record {
        gone = (
          e.others p (
                All-map (λ (x : Text × ℕ). p ≢ x.1) (λ x. x.1 ≢ p) cs (λ x ne same. ne (sym same))
                  a.0)
              ∙ d.gone.0,
          e.gone,
        );
        others = λ q ne. e.others q ne.1 ∙ d.others q (ne.0, tt);
        sound = e.sound ∙ d.sound;
        quiet = (e.quiet.0 ∙ d.quiet.0, e.quiet.1 ∙ d.quiet.1, e.quiet.2 ∙ d.quiet.2);
      }

  abbrev after_stop : Manager J → Manager J
  after_stop s = record (delete_contexts J s.contexts s) {
    contexts = [];
    timers = [];
    ws_running = false;
    chrome_pid = none;
    scheduler_started = false;
    started = false;
    chrome_crashed = false;
  }

  stop_started : (s : Manager J) → s.started ≡ true → stop J s ≡ after_stop s
  unfolding stop
  stop_started s h = λ i. if h i then after_stop s else s

  -- When the contexts of a started manager are alive and no two names share one, stop frees each
  -- of them and no other context, frees nothing twice, leaves none in contexts_, and calls no
  -- client: the requests that wait keep waiting.
  pub stop_frees :
      (s : Manager J)
      → s.started ≡ true
      → All (λ x. IsLive s.heap x.1) s.contexts
      → IsApart s.contexts
      → All (λ x. lookup x.1 (stop J s).heap ≡ none) s.contexts
        × ((q : ℕ) → All (λ x. x.1 ≢ q) s.contexts → lookup q (stop J s).heap ≡ lookup q s.heap)
        × ((stop J s).contexts ≡ [])
        × ((stop J s).fault ≡ s.fault)
        × ((stop J s).events ≡ s.events)
        × ((stop J s).pending ≡ s.pending)
  stop_frees s h l a =
      let d = delete_contexts-Deleted s.contexts s l a in
      rw (stop_started s h) (d.gone, d.others, refl, d.sound, d.quiet.0, d.quiet.1)
