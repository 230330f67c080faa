-- ===== src/Browser/Launch/Bounded.antt =====
-- How long launch_chrome can take: the polls and requests that it looks at
-- (wheel/browser/imp/cdp_browser_manager.cpp).
use mathlib.Core.Path.{fun_ext}
use lynne_social.Prelude.{
  ℕ, zero, suc, ◌+◌, ◌<◌, ◌≡◌, refl, ap, sym, ◌∙◌, Bool, Option, none, some, List, [], ◌++◌, Text,
  empty, ℤ, arith, inl, inr, Bool-cases, Option-cases,
}
use lynne_social.Browser.Config.{BrowserConfig}
use lynne_social.Browser.Lifecycle.{find_chrome}
use lynne_social.Browser.Launch.{
  System, Poll, read_url, requests, await_server, launch_chrome, port_from_url, default_port,
  choose_port, poll_error, poll_timeout, pipe_closed, chunk, suffix_at, scheme, until_blank,
}
use lynne_social.Browser.Launch.Outcome.{
  launch_no_chrome, launch_no_pipe, launch_no_fork, launch_forked,
}

-- Two systems that answer alike as far as the launch looks.
pub record Alike (sys other : System) : Type 0 where
  pub same_files : (p : Text) → sys.executable p ≡ other.executable p
  pub same_pipe : sys.pipe_ok ≡ other.pipe_ok
  pub same_fork : sys.fork_pid ≡ other.fork_pid
  pub same_polls : (i : ℕ) → i < 60 → sys.polls i ≡ other.polls i
  pub same_server : (p : ℤ) (i : ℕ) → i < 5 → sys.server p i ≡ other.server p i

-- One round of the loop, for what a poll gave.
abbrev round : (ℕ → Poll) → ℕ → ℕ → Text → Poll → Text
round polls k i acc poll_error = []
round polls k i acc poll_timeout = read_url k (suc i) polls acc
round polls k i acc pipe_closed = []
round polls k i acc (chunk t) = elim (suffix_at scheme (acc ++ t)) [
  | none ↦ read_url k (suc i) polls (acc ++ t)
  | some u ↦ until_blank u
]

read_url-round :
    (k i : ℕ) (polls : ℕ → Poll) (acc : Text) (p : Poll)
    → polls i ≡ p
    → read_url (suc k) i polls acc ≡ round polls k i acc p
unfolding read_url
read_url-round k i polls acc poll_error h = rw (h, read_url) refl
read_url-round k i polls acc poll_timeout h = rw (h, read_url) refl
read_url-round k i polls acc pipe_closed h = rw (h, read_url) refl
read_url-round k i polls acc (chunk t) h = rw (h, read_url) refl

round_alike :
    (polls other : ℕ → Poll) (k i : ℕ) (acc : Text) (p : Poll)
    → ((a : Text) → read_url k (suc i) polls a ≡ read_url k (suc i) other a)
    → round polls k i acc p ≡ round other k i acc p
round_alike polls other k i acc poll_error h = refl
round_alike polls other k i acc poll_timeout h = h acc
round_alike polls other k i acc pipe_closed h = refl
round_alike polls other k i acc (chunk t) h = elim (Option-cases (suffix_at scheme (acc ++ t))) [
  | inl e ↦ rw (e, round) (h (acc ++ t))
  | inr (u, e) ↦ rw (e, round) refl
]

read_url_alike :
    (k i n : ℕ) (polls other : ℕ → Poll) (acc : Text)
    → i + k ≡ n
    → ((j : ℕ) → j < n → polls j ≡ other j)
    → read_url k i polls acc ≡ read_url k i other acc
unfolding read_url
read_url_alike zero i n polls other acc e h = refl
read_url_alike (suc k) i n polls other acc e h =
    read_url-round k i polls acc (other i) (h i (omega arith))
    ∙ round_alike polls other k i acc (other i)
        (λ a. read_url_alike k (suc i) n polls other a (omega arith) h)
    ∙ sym (read_url-round k i other acc (other i) refl)

requests_alike :
    (k i n : ℕ) (server other : ℕ → Option (List Text))
    → i + k ≡ n
    → ((j : ℕ) → j < n → server j ≡ other j)
    → requests k i server ≡ requests k i other
unfolding requests
requests_alike zero i n server other e h = refl
requests_alike (suc k) i n server other e h =
    rw (h i (omega arith), requests_alike k (suc i) n server other (omega arith) h, requests) refl

await_server_alike :
    (sys other : System) (port : ℤ) (pid : ℕ) (url : Text)
    → ((p : ℤ) → requests 5 0 (sys.server p) ≡ requests 5 0 (other.server p))
    → await_server sys port pid url ≡ await_server other port pid url
unfolding await_server
await_server_alike sys other port pid url h = elim (Bool-cases (empty url)) [
  | inl e ↦ rw (e, await_server) refl
  | inr e ↦ elim (Option-cases (port_from_url url)) [
    | inl f ↦ rw (e, f, await_server) refl
    | inr (p, f) ↦ rw (e, f, await_server, h (choose_port p port)) refl
  ]
]

-- launch_chrome looks at no more than the first 60 polls of the output and the first 5 answers of
-- a port: two systems that agree so far, and in their files, pipe and fork, give the same launch.
pub launch_chrome_bounded :
    (sys other : System) (config : BrowserConfig)
    → Alike sys other
    → launch_chrome sys config ≡ launch_chrome other config
launch_chrome_bounded sys other config a =
    elim (Bool-cases (empty (find_chrome sys.executable config))) [
      | inl e ↦ launch_no_chrome sys config e ∙ sym (launch_no_chrome other config (moved e))
      | inr e ↦ elim (Bool-cases sys.pipe_ok) [
        | inr q ↦
            launch_no_pipe sys config e q
            ∙ sym (launch_no_pipe other config (moved e) (sym a.same_pipe ∙ q))
        | inl q ↦ elim (Option-cases sys.fork_pid) [
          | inl f ↦
              launch_no_fork sys config e q f
              ∙ sym (
                  launch_no_fork other config (moved e) (sym a.same_pipe ∙ q) (sym a.same_fork ∙ f))
          | inr (pid, f) ↦
              launch_forked sys config pid e q f
              ∙ await_server_alike sys other (default_port config.cdp_port) pid _
                  (λ p. requests_alike 5 0 5 (sys.server p) (other.server p) refl (a.same_server p))
              ∙ ap (await_server other (default_port config.cdp_port) pid)
                  (read_url_alike 60 0 60 sys.polls other.polls [] refl a.same_polls)
              ∙ sym (
                  launch_forked other config pid (moved e) (sym a.same_pipe ∙ q)
                    (sym a.same_fork ∙ f))
        ]
      ]
    ]
  where
    moved :
        {b : Bool}
        → empty (find_chrome sys.executable config) ≡ b
        → empty (find_chrome other.executable config) ≡ b
    moved e = ap (λ x. empty (find_chrome x config)) (sym (fun_ext a.same_files)) ∙ e
