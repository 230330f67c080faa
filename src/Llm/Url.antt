-- ===== src/Llm/Url.antt =====
-- DeepSeekEngine::parse_base_url (wheel/llm/imp/deepseek_engine.cpp).
use mathlib.Core.List.{append-nil}
use lynne_social.Prelude.{
  ℕ, ◌≡◌, ◌≢◌, refl, ap, ◌∙◌, Option, none, some, [], ◌∷◌, ◌++◌, Text, txt, ℤ, pos, arith,
  All-append, All-map, ◌<◌, ◌≤◌,
}
use lynne_social.Prelude.Opt.{◌>>=◌}
use lynne_social.Storage.Fs.{strip_prefix}
use lynne_social.Prelude.Find.{split_at, Without, split_at-none, split_at-first}
use lynne_social.Prelude.Numerals.{stoi, to_string, stoi-to_string, to_string_digits}

pub record Endpoint : Type 0 where
  pub host : Text
  pub port : ℤ
  pub path : Text

-- the host and the port before the path
unfoldable pub parse_host : Text → ℤ → Text → Option Endpoint
unfolding split_at stoi
parse_host host_port port path = elim (split_at b':' host_port) [
  | none ↦ some (record { host = host_port; port = port; path = path })
  | some (host, digits) ↦ do
    port ← stoi digits
    some (record { host = host; port = port; path = path })
]

unfoldable pub parse_rest : Text → ℤ → Option Endpoint
unfolding parse_host
parse_rest s port = elim (split_at b'/' s) [
  | none ↦ parse_host s port []
  | some (host_port, path) ↦ parse_host host_port port (b'/' ∷ path)
]

abbrev pub accept : Option Endpoint → Option (Option Endpoint)
accept none = none
accept (some u) = some (some u)

-- `none` for an exception, `some none` for `false`
unfoldable pub parse_base_url : Text → Option (Option Endpoint)
unfolding parse_rest
parse_base_url url = elim (strip_prefix (txt "https://") url) [
  | some s ↦ accept (parse_rest s (pos 443))
  | none ↦ elim (strip_prefix (txt "http://") url) [
    | some s ↦ accept (parse_rest s (pos 80))
    | none ↦ some none
  ]
]

-- The empty path, or one that starts with a slash.
abbrev pub IsPath : Text → Type 0
IsPath [] = Unit {0}
IsPath (c ∷ s) = c ≡ b'/'

parse_rest_path :
    (s path : Text) (port : ℤ)
    → Without b'/' s
    → IsPath path
    → parse_rest (s ++ path) port ≡ parse_host s port path
unfolding parse_rest
parse_rest_path s [] port h p =
    ap (λ t. parse_rest t port) (append-nil s) ∙ rw (split_at-none b'/' s h, parse_rest) refl
parse_rest_path s (c ∷ path) port h p = rw (p, split_at-first b'/' s path h, parse_rest) refl

parse_host_plain :
    (host path : Text) (port : ℤ)
    → Without b':' host
    → parse_host host port path ≡ some (record { host = host; port = port; path = path })
unfolding parse_host
parse_host_plain host path port h = rw (split_at-none b':' host h, parse_host) refl

parse_host_port :
    (host number path : Text) (port : ℤ)
    → Without b':' host
    → parse_host (host ++ (b':' ∷ number)) port path
      ≡ (stoi number >>= λ p. some (record { host = host; port = p; path = path }))
unfolding parse_host
parse_host_port host number path port h = rw (split_at-first b':' host number h, parse_host) refl

https_rest : (s : Text) → parse_base_url (txt "https://" ++ s) ≡ accept (parse_rest s (pos 443))
unfolding parse_base_url strip_prefix txt
https_rest s = refl

http_rest : (s : Text) → parse_base_url (txt "http://" ++ s) ≡ accept (parse_rest s (pos 80))
unfolding parse_base_url strip_prefix txt
http_rest s = refl

-- A base url of a scheme, a host without colon and slash, and a path that is empty or starts with
-- a slash is taken apart into these, with port 443 for https and 80 for http.
parse_base_url_plain :
    (host path : Text)
    → Without b'/' host
    → Without b':' host
    → IsPath path
    → (parse_base_url (txt "https://" ++ (host ++ path))
        ≡ some (some (record { host = host; port = pos 443; path = path })))
      × (parse_base_url (txt "http://" ++ (host ++ path))
          ≡ some (some (record { host = host; port = pos 80; path = path })))
parse_base_url_plain host path h k p = (
  rw
      (
        https_rest (host ++ path),
        parse_rest_path host path (pos 443) h p,
        parse_host_plain host path (pos 443) k,
      )
      refl,
  rw
      (
        http_rest (host ++ path),
        parse_rest_path host path (pos 80) h p,
        parse_host_plain host path (pos 80) k,
      )
      refl,
)

-- In an https base url whose host has no colon and slash, what stands between a colon and the path
-- is the port, when it has no slash and std::stoi reads it; when std::stoi throws, parse_base_url
-- throws.
pub parse_base_url_port :
    (host number path : Text)
    → Without b'/' (host ++ (b':' ∷ number))
    → Without b':' host
    → IsPath path
    → parse_base_url (txt "https://" ++ ((host ++ (b':' ∷ number)) ++ path))
      ≡ accept (stoi number >>= λ p. some (record { host = host; port = p; path = path }))
parse_base_url_port host number path h k p =
    rw
      (
        https_rest ((host ++ (b':' ∷ number)) ++ path),
        parse_rest_path (host ++ (b':' ∷ number)) path (pos 443) h p,
        parse_host_port host number path (pos 443) k,
      )
      refl

-- A port below 2^31 that std::to_string prints is read back by parse_base_url from an https base
-- url, with host and path as they were; the host has no colon and no slash, and the path is empty
-- or starts with a slash.
pub parse_base_url-to_string :
    (host path : Text) (n : ℕ)
    → Without b'/' host
    → Without b':' host
    → IsPath path
    → n < 2147483648
    → parse_base_url (txt "https://" ++ ((host ++ (b':' ∷ to_string (pos n))) ++ path))
      ≡ some (some (record { host = host; port = pos n; path = path }))
parse_base_url-to_string host path n h k p b =
    parse_base_url_port host (to_string (pos n)) path (All-append (λ d. d ≢ b'/') host _ h flat) k p
    ∙ rw (stoi-to_string n b) refl
  where
    flat : Without b'/' (b':' ∷ to_string (pos n))
    flat = (
      omega arith,
      All-map (λ c. 48 ≤ c) (λ d. d ≢ b'/') (to_string (pos n)) (λ c l. omega arith)
          (to_string_digits n),
    )
