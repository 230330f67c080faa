-- ===== src/Browser/Cookies.antt =====
-- Sessions on disk: save_session and restore_session (wheel/browser/imp/cdp_browser_manager.cpp).
use lynne_social.Prelude.{
  ℕ, ◌≡◌, refl, Bool, true, false, some, [], ◌∷◌, Text, txt, text_eq, text_eq_refl, empty,
  text_eq_instance, lookup,
}
use lynne_social.Json.{JsonLib}
use lynne_social.Storage.Fs.{Disk, content, overwrite}
use lynne_social.Storage.Fs.Laws.{content-overwrite}
use lynne_social.Browser.State.{Manager, cookies_got, restore_cookies, done}
use lynne_social.Browser.Exec.{call}
use lynne_social.Browser.Callbacks.{run_ok, write_file, session_path, member}
use lynne_social.Browser.Sessions.{restore_session, session_cookies}
use lynne_social.Browser.Contexts.{do_get_context}

module _ (J : JsonLib) (can_open : Text → Disk → Bool) where
  open J use {Json, find, object, dump_pretty}

  abbrev pub path_of : Text → Manager J → Text
  path_of platform s = session_path s.config.sessions_dir platform

  abbrev pub session_file : Json → Json
  session_file cookies = object ((txt "cookies", cookies) ∷ [])

  session_cookies-dump :
      (cookies : Json) (t : Text)
      → dump_pretty (session_file cookies) ≡ some t
      → session_cookies J t ≡ some cookies
  unfolding session_cookies lookup text_eq txt
  session_cookies-dump cookies t h =
      rw (J.parse-dump_pretty (session_file cookies) t h, session_cookies)
        (J.find-object (txt "cookies") ((txt "cookies", cookies) ∷ []))

  not_empty : (t : Text) → (t ≡ [] → ⊥) → empty t ≡ false
  unfolding empty
  not_empty [] h = absurd (h refl)
  not_empty (c ∷ t) h = refl

  read_back : (p t : Text) (d : Disk) → content p (overwrite p t d) ≡ t
  read_back p t d = simp (content-overwrite p p t d, text_eq_refl p)

  saved_state :
      (platform t : Text) (result cookies : Json) (k : ℕ) (s : Manager J)
      → find (txt "cookies") result ≡ some cookies
      → dump_pretty (session_file cookies) ≡ some t
      → can_open (path_of platform s) s.disk ≡ true
      → run_ok J can_open (cookies_got platform k) result s
        ≡ call {J = J} k done (record s { disk = overwrite (path_of platform s) t s.disk })
  unfolding run_ok member write_file
  saved_state platform t result cookies k s f d o = rw (f, d, o) refl

  restore_read :
      (platform t : Text) (cookies : Json) (a b : ℕ) (s : Manager J)
      → content (path_of platform s) s.disk ≡ t
      → empty t ≡ false
      → session_cookies J t ≡ some cookies
      → restore_session J platform a b s
        ≡ do_get_context J platform (restore_cookies cookies a b) b s
  unfolding restore_session
  restore_read platform t cookies a b s h e f = rw (h, e, f, restore_session) refl

  -- After the reply of save_session with cookies that dump, and with a session file that can be
  -- opened, restore_session of that platform asks for a context to send back exactly these
  -- cookies.
  pub restore_session-cookies_got :
      (platform t : Text) (result cookies : Json) (k a b : ℕ) (s : Manager J)
      → find (txt "cookies") result ≡ some cookies
      → dump_pretty (session_file cookies) ≡ some t
      → can_open (path_of platform s) s.disk ≡ true
      → restore_session J platform a b (run_ok J can_open (cookies_got platform k) result s).1
        ≡ do_get_context J platform
            (restore_cookies cookies a b)
            b
            (run_ok J can_open (cookies_got platform k) result s).1
  unfolding call
  restore_session-cookies_got platform t result cookies k a b s f d o =
      rw (saved_state platform t result cookies k s f d o) (
        restore_read platform t cookies a b _ (read_back (path_of platform s) t s.disk)
          (not_empty t (J.dump_pretty-ne-nil _ t d)) (session_cookies-dump cookies t d))

  -- When the session file cannot be opened, the reply of save_session with cookies that dump calls
  -- on_done all the same, and changes nothing else.
  pub unsaved_session_done :
      (platform t : Text) (result cookies : Json) (k : ℕ) (s : Manager J)
      → find (txt "cookies") result ≡ some cookies
      → dump_pretty (session_file cookies) ≡ some t
      → can_open (path_of platform s) s.disk ≡ false
      → run_ok J can_open (cookies_got platform k) result s ≡ call {J = J} k done s
  unfolding run_ok member write_file
  unsaved_session_done platform t result cookies k s f d o = rw (f, d, o) refl
