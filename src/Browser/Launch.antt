-- ===== src/Browser/Launch.antt =====
-- launch_chrome and http_get (wheel/browser/imp/cdp_browser_manager.cpp). What the system answers is
-- the parameter `System`: the results of access, pipe and fork, what each poll of the child's output
-- gives, and what the server answers to each request.
pub mod Output
pub mod Port
pub mod Outcome
pub mod Bounded
use lynne_social.Prelude.{
  until_zero, ℕ, zero, suc, Bool, true, false, Option, none, some, List, [], ◌∷◌, ◌++◌, Text, txt,
  empty, ℤ, pos, negsuc, ◌==◌, ◌||◌, if◌then◌else◌,
}
use lynne_social.Storage.Fs.{strip_prefix}
use lynne_social.Prelude.Find.{split_at}
use lynne_social.Prelude.Numerals.{stoi}
use lynne_social.Json.{JsonLib}
use lynne_social.Browser.Config.{BrowserConfig}
use lynne_social.Browser.Lifecycle.{find_chrome, Launch, launched, failed}

-- A poll of the pipe, and the read behind it.
pub data Poll : Type 0 where
  poll_error poll_timeout pipe_closed : Poll
  chunk : Text → Poll

-- `pipe_ok` and `fork_pid` are pipe() and fork(); `server` gives the texts received from a port at a
-- try, or `none` where there is no connection.
pub record System : Type 0 where
  pub executable : Text → Bool
  pub pipe_ok : Bool
  pub fork_pid : Option ℕ
  pub polls : ℕ → Poll
  pub server : ℤ → ℕ → Option (List Text)

-- find(needle): the text from its first occurrence on
unfoldable pub suffix_at : Text → Text → Option Text
unfolding strip_prefix
suffix_at needle [] = none
suffix_at needle (c ∷ s) =
    let rest = suffix_at needle s in
    elim (strip_prefix needle (c ∷ s)) [ none ↦ rest | some r ↦ some (c ∷ s) ]

abbrev pub is_blank : ℕ → Bool
is_blank c = c == b' ' || (c == 9 || (c == 13 || c == 10))

-- up to find_first_of(" \t\r\n")
unfoldable pub until_blank : Text → Text
until_blank [] = []
until_blank (c ∷ s) = let rest = until_blank s in if is_blank c then [] else c ∷ rest

abbrev pub scheme : Text
scheme = txt "ws://"

-- the loop over the child's output: the tries left, the try, and `acc`
unfoldable pub read_url : ℕ → ℕ → (ℕ → Poll) → Text → Text
unfolding suffix_at until_blank
read_url zero i polls acc = []
read_url (suc k) i polls acc = elim (polls i) [
  | poll_error ↦ []
  | poll_timeout ↦ read_url k (suc i) polls acc
  | pipe_closed ↦ []
  | chunk t ↦ elim (suffix_at scheme (acc ++ t)) [
    | none ↦ read_url k (suc i) polls (acc ++ t)
    | some u ↦ until_blank u
  ]
]

abbrev pub before_slash : Text → Text
before_slash s = elim (split_at b'/' s) [ none ↦ s | some (b, r) ↦ b ]

-- what stands between the next colon and the slash behind it
abbrev pub port_text : Text → Option Text
port_text s = elim (split_at b':' s) [ none ↦ none | some (b, r) ↦ some (before_slash r) ]

abbrev pub drop : ℕ → Text → Text
drop zero s = s
drop (suc n) [] = []
drop (suc n) (c ∷ s) = drop n s

-- col_a, and col_b behind it; where there is no col_a the search starts at the front again
unfoldable pub second_port : Text → Option Text
unfolding split_at
second_port url = elim (split_at b':' (drop 5 url)) [
  | none ↦ port_text url
  | some (b, r) ↦ port_text r
]

-- port_from_url; `none` where std::stoi throws
unfoldable pub port_from_url : Text → Option ℤ
unfolding second_port stoi
port_from_url url = elim (second_port url) [ none ↦ some (pos 0) | some t ↦ stoi t ]

abbrev pub choose_port : ℤ → ℤ → ℤ
choose_port (pos zero) port = port
choose_port (pos (suc n)) port = pos (suc n)
choose_port (negsuc n) port = port

unfoldable pub joined : List Text → Text
unfolding until_zero
joined [] = []
joined (t ∷ ts) = until_zero t ++ joined ts

abbrev pub blank_line : Text
blank_line = 13 ∷ 10 ∷ 13 ∷ 10 ∷ []

-- http_get: the body behind the blank line
unfoldable pub http_get : Option (List Text) → Text
unfolding joined suffix_at
http_get none = []
http_get (some ts) = elim (suffix_at blank_line (joined ts)) [ none ↦ [] | some r ↦ drop 4 r ]

-- the loop that waits for the server: how many requests it makes
unfoldable pub requests : ℕ → ℕ → (ℕ → Option (List Text)) → ℕ
unfolding http_get
requests zero i server = 0
requests (suc k) i server =
    let rest = requests k (suc i) server in if empty (http_get (server i)) then suc rest else 1

-- out_url and out_error, chrome_pid_ (`none` for -1), the processes killed, the port and number of
-- the requests to /json/version, and whether an exception left the function.
pub record Ended : Type 0 where
  pub url : Text
  pub error : Text
  pub pid : Option ℕ
  pub killed : List ℕ
  pub asked : Option (ℤ × ℕ)
  pub threw : Bool

abbrev pub no_process : Text → Ended
no_process err = record {
  url = [];
  error = err;
  pid = none;
  killed = [];
  asked = none;
  threw = false;
}

-- the arguments of execlp; the configuration is not read
unfoldable pub arguments : Text → List Text
arguments chrome =
    chrome
    ∷ txt "--headless"
    ∷ txt "--disable-gpu"
    ∷ txt "--no-sandbox"
    ∷ txt "--disable-dev-shm-usage"
    ∷ txt "--disable-blink-features=AutomationControlled"
    ∷ txt
        "--user-agent=Mozilla/5.0 (X11; Linux x86_64) AppleWebKit/537.36 (KHTML, like Gecko) Chrome/147.0.0.0 Safari/537.36"
    ∷ txt "--remote-allow-origins=*"
    ∷ txt "--remote-debugging-address=127.0.0.1"
    ∷ txt "--remote-debugging-port=0"
    ∷ []

abbrev pub default_port : ℤ → ℤ
default_port (pos zero) = pos 9222
default_port p = p

-- behind the loop over the output
unfoldable pub await_server : System → ℤ → ℕ → Text → Ended
unfolding port_from_url requests
await_server sys port pid url =
    if empty url
    then record {
      url = [];
      error = txt "chrome did not output WS URL";
      pid = none;
      killed = pid ∷ [];
      asked = none;
      threw = false;
    }
    else elim (port_from_url url) [
      | none ↦ record {
        url = url;
        error = [];
        pid = some pid;
        killed = [];
        asked = none;
        threw = true;
      }
      | some p ↦
          let q = choose_port p port in
          record {
            url = url;
            error = [];
            pid = some pid;
            killed = [];
            asked = some (q, requests 5 0 (sys.server q));
            threw = false;
          }
    ]

unfoldable pub launch_chrome : System → BrowserConfig → Ended
unfolding read_url await_server find_chrome
launch_chrome sys config =
    if empty (find_chrome sys.executable config)
    then no_process (txt "chrome not found")
    else if sys.pipe_ok
    then elim sys.fork_pid [
      | none ↦ no_process (txt "fork() failed")
      | some pid ↦ await_server sys (default_port config.cdp_port) pid (read_url 60 0 sys.polls [])
    ]
    else no_process (txt "pipe() failed")

-- what `start` sees of it: an exception of the worker is swallowed
unfoldable pub launch_of : (J : JsonLib) → Ended → Launch J
launch_of J e = elim e.pid [ none ↦ failed e.error | some p ↦ launched p e.url ]
