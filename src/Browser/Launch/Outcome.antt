-- ===== src/Browser/Launch/Outcome.antt =====
-- How launch_chrome ends, and what `start` makes of it (wheel/browser/imp/cdp_browser_manager.cpp).
use lynne_social.Prelude.{
  ℕ, ◌≡◌, ◌≢◌, refl, sym, ◌∙◌, true, false, none, some, [], ◌∷◌, Text, txt, empty, ℤ, inl, inr, ◌⊎◌,
  Bool-cases, Option-cases,
}
use lynne_social.Json.{JsonLib}
use lynne_social.Browser.Config.{BrowserConfig}
use lynne_social.Browser.State.{Manager}
use lynne_social.Browser.Lifecycle.{find_chrome, on_launched, launched, failed}
use lynne_social.Browser.Launch.{
  System, Ended, read_url, await_server, launch_chrome, launch_of, port_from_url, no_process,
  default_port,
}

-- A url, and the child that printed it.
pub record Succeeded (sys : System) (e : Ended) : Type 0 where
  pub no_error : e.error ≡ []
  pub url_given : empty e.url ≡ false
  pub child : e.pid ≡ sys.fork_pid
  pub some_pid : ℕ
  pub forked : sys.fork_pid ≡ some some_pid
  pub spared : e.killed ≡ []

-- No url, and no child that is left.
pub record Failed (sys : System) (e : Ended) : Type 0 where
  pub why : empty e.error ≡ false
  pub no_url : e.url ≡ []
  pub no_pid : e.pid ≡ none
  pub reaped : (e.killed ≡ []) ⊎ ((pid : ℕ) × (sys.fork_pid ≡ some pid) × (e.killed ≡ pid ∷ []))

no_process-Failed : (sys : System) (c : ℕ) (err : Text) → Failed sys (no_process (c ∷ err))
unfolding empty
no_process-Failed sys c err = record { why = refl; no_url = refl; no_pid = refl; reaped = inl refl }

await_server_cases :
    (sys : System) (port : ℤ) (pid : ℕ) (url : Text)
    → sys.fork_pid ≡ some pid
    → Succeeded sys (await_server sys port pid url) ⊎ Failed sys (await_server sys port pid url)
unfolding await_server empty txt
await_server_cases sys port pid [] h =
    inr (record { why = refl; no_url = refl; no_pid = refl; reaped = inr (pid, h, refl) })
await_server_cases sys port pid (c ∷ url) h = elim (Option-cases (port_from_url (c ∷ url))) [
  | inl e ↦
      rw (e, await_server)
        (inl (record {
          no_error = refl;
          url_given = refl;
          child = sym h;
          some_pid = pid;
          forked = h;
          spared = refl;
        }))
  | inr (p, e) ↦
      rw (e, await_server)
        (inl (record {
          no_error = refl;
          url_given = refl;
          child = sym h;
          some_pid = pid;
          forked = h;
          spared = refl;
        }))
]

pub launch_no_chrome :
    (sys : System) (config : BrowserConfig)
    → empty (find_chrome sys.executable config) ≡ true
    → launch_chrome sys config ≡ no_process (txt "chrome not found")
unfolding launch_chrome
launch_no_chrome sys config e = rw (e, launch_chrome) refl

pub launch_no_pipe :
    (sys : System) (config : BrowserConfig)
    → empty (find_chrome sys.executable config) ≡ false
    → sys.pipe_ok ≡ false
    → launch_chrome sys config ≡ no_process (txt "pipe() failed")
unfolding launch_chrome
launch_no_pipe sys config e q = rw (e, launch_chrome, q) refl

pub launch_no_fork :
    (sys : System) (config : BrowserConfig)
    → empty (find_chrome sys.executable config) ≡ false
    → sys.pipe_ok ≡ true
    → sys.fork_pid ≡ none
    → launch_chrome sys config ≡ no_process (txt "fork() failed")
unfolding launch_chrome
launch_no_fork sys config e q f = rw (e, launch_chrome, q, f) refl

pub launch_forked :
    (sys : System) (config : BrowserConfig) (pid : ℕ)
    → empty (find_chrome sys.executable config) ≡ false
    → sys.pipe_ok ≡ true
    → sys.fork_pid ≡ some pid
    → launch_chrome sys config
      ≡ await_server sys (default_port config.cdp_port) pid (read_url 60 0 sys.polls [])
unfolding launch_chrome
launch_forked sys config pid e q f = simp (e, q, f)

-- The launch leaves a url and a living child, or an error and no child.
pub launch_chrome_cases :
    (sys : System) (config : BrowserConfig)
    → Succeeded sys (launch_chrome sys config) ⊎ Failed sys (launch_chrome sys config)
unfolding txt
launch_chrome_cases sys config = elim (Bool-cases (empty (find_chrome sys.executable config))) [
  | inl e ↦ rw (launch_no_chrome sys config e) (inr (no_process-Failed sys _ _))
  | inr e ↦ elim (Bool-cases sys.pipe_ok) [
    | inr q ↦ rw (launch_no_pipe sys config e q) (inr (no_process-Failed sys _ _))
    | inl q ↦ elim (Option-cases sys.fork_pid) [
      | inl f ↦ rw (launch_no_fork sys config e q f) (inr (no_process-Failed sys _ _))
      | inr (pid, f) ↦ rw (launch_forked sys config pid e q f) (await_server_cases sys _ pid _ f)
    ]
  ]
]

launch_of-some :
    (J : JsonLib) (e : Ended) (p : ℕ) → e.pid ≡ some p → launch_of J e ≡ launched p e.url
unfolding launch_of
launch_of-some J e p h = rw (h, launch_of) refl

launch_of-none : (J : JsonLib) (e : Ended) → e.pid ≡ none → launch_of J e ≡ failed e.error
unfolding launch_of
launch_of-none J e h = rw (h, launch_of) refl

on_launched_url :
    (J : JsonLib) (p : ℕ) (url : Text) (s : Manager J)
    → empty url ≡ false
    → on_launched J (launched p url) s ≡ record s {
      chrome_pid = some p;
      launching = false;
      ws_url = url;
      ws_running = true;
      started = true;
    }
unfolding on_launched empty
on_launched_url J p [] s h = cc
on_launched_url J p (c ∷ url) s h = refl

on_launched_failed :
    (J : JsonLib) (err : Text) (s : Manager J)
    → empty err ≡ false
    → on_launched J (failed err) s ≡ record s { chrome_pid = none; launching = false }
unfolding on_launched empty
on_launched_failed J [] s h = cc
on_launched_failed J (c ∷ err) s h = refl

-- The manager runs with the url and the child, or it does not run and has no child.
abbrev pub Settled : {J : JsonLib} → System → Ended → Manager J → Manager J → Type 0
Settled sys e s t =
    ((t.started ≡ true)
      × (t.ws_url ≡ e.url)
      × (t.chrome_pid ≡ sys.fork_pid)
      × (t.chrome_pid ≢ none))
    ⊎ ((t.started ≡ false) × (t.ws_url ≡ s.ws_url) × (t.chrome_pid ≡ none))

settles :
    (J : JsonLib) (sys : System) (e : Ended) (s : Manager J)
    → s.started ≡ false
    → Succeeded sys e ⊎ Failed sys e
    → Settled sys e s (on_launched J (launch_of J e) s)
settles J sys e s h (inl w) =
    rw
      (
        launch_of-some J e w.some_pid (w.child ∙ w.forked),
        on_launched_url J w.some_pid e.url s w.url_given,
      )
      (inl (refl, refl, sym w.forked, λ q. cc))
settles J sys e s h (inr f) =
    rw (launch_of-none J e f.no_pid, on_launched_failed J e.error s f.why) (inr (h, refl, refl))

-- Whatever the system answers, a manager that was not started is, after launch_chrome and the
-- on_done of start, either started with the url that was read and with the child as its process,
-- or not started, with its url as before and without a process.
pub on_launched-launch_chrome :
    (J : JsonLib) (sys : System) (config : BrowserConfig) (s : Manager J)
    → s.started ≡ false
    → Settled sys
        (launch_chrome sys config)
        s
        (on_launched J (launch_of J (launch_chrome sys config)) s)
on_launched-launch_chrome J sys config s h =
    settles J sys (launch_chrome sys config) s h (launch_chrome_cases sys config)
