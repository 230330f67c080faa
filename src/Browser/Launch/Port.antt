-- ===== src/Browser/Launch/Port.antt =====
-- The port that launch_chrome waits for (wheel/browser/imp/cdp_browser_manager.cpp).
use lynne_social.Prelude.{ℕ, ◌≡◌, refl, none, some, ◌∷◌, ◌++◌, Text, txt, ℤ, pos, ap, ◌∙◌, empty}
use lynne_social.Prelude.Find.{split_at, Without, split_at-none, split_at-first}
use lynne_social.Browser.Launch.{
  second_port, port_from_url, scheme, drop, port_text, System, await_server, requests,
}

drop-scheme : (s : Text) → drop 5 (scheme ++ s) ≡ s
unfolding txt
drop-scheme s = refl

second_port_behind :
    (url b r : Text) → split_at b':' (drop 5 url) ≡ some (b, r) → second_port url ≡ port_text r
unfolding second_port
second_port_behind url b r h = rw (h, second_port) refl

port_text-none : (r : Text) → Without b':' r → port_text r ≡ none
port_text-none r h = rw (split_at-none b':' r h, port_text) refl

port_from_url-none : (url : Text) → second_port url ≡ none → port_from_url url ≡ some (pos 0)
unfolding port_from_url
port_from_url-none url h = rw (h, port_from_url) refl

port_from_url_plain :
    (host rest : Text)
    → Without b':' host
    → Without b':' rest
    → port_from_url (scheme ++ (host ++ (b':' ∷ rest))) ≡ some (pos 0)
port_from_url_plain host rest h k = port_from_url-none (scheme ++ (host ++ (b':' ∷ rest))) (
    second_port_behind (scheme ++ (host ++ (b':' ∷ rest))) host rest
      (ap (split_at b':') (drop-scheme (host ++ (b':' ∷ rest))) ∙ split_at-first b':' host rest h)
    ∙ port_text-none rest k)

await_server_asks :
    (sys : System) (port : ℤ) (pid : ℕ) (c : ℕ) (url : Text)
    → port_from_url (c ∷ url) ≡ some (pos 0)
    → (await_server sys port pid (c ∷ url)).asked ≡ some (port, requests 5 0 (sys.server port))
unfolding await_server empty
await_server_asks sys port pid c url h = rw (h, await_server) refl

-- When the url that Chrome prints has a single colon behind its scheme, with the port behind it,
-- the server is awaited on the port of the configuration and not on that of the url.
pub await_server_port :
    (sys : System) (port : ℤ) (pid : ℕ) (host rest : Text)
    → Without b':' host
    → Without b':' rest
    → (await_server sys port pid (scheme ++ (host ++ (b':' ∷ rest)))).asked
      ≡ some (port, requests 5 0 (sys.server port))
unfolding txt
await_server_port sys port pid host rest h k =
    await_server_asks sys port pid b'w' _ (port_from_url_plain host rest h k)
