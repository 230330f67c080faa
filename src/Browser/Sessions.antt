-- ===== src/Browser/Sessions.antt =====
-- save_session and restore_session.
use lynne_social.Prelude.{ℕ, false, Option, none, some, Text, txt, empty, if◌then◌else◌}
use lynne_social.Json.{JsonLib}
use lynne_social.Storage.Fs.{content}
use lynne_social.Browser.State.{save_cookies, restore_cookies, flag}
use lynne_social.Browser.Exec.{Exec, call}
use lynne_social.Browser.Contexts.{do_get_context}
use lynne_social.Browser.Callbacks.{session_path}

module _ (J : JsonLib) where
  open J use {Json, parse, find}

  unfoldable pub save_session : Text → ℕ → ℕ → Exec J (Unit {0})
  save_session platform on_done on_error =
      do_get_context J platform (save_cookies platform on_done on_error) on_error

  -- `session["cookies"]` of a text that parses to an object with cookies
  unfoldable pub session_cookies : Text → Option Json
  session_cookies content = elim (parse content) [
    | none ↦ none
    | some session ↦ find (txt "cookies") session
  ]

  unfoldable pub restore_session : Text → ℕ → ℕ → Exec J (Unit {0})
  unfolding session_cookies
  restore_session platform on_done on_error s =
      let file = content (session_path s.config.sessions_dir platform) s.disk in
      if empty file then call on_done (flag false) s else elim (session_cookies file) [
        | none ↦ call on_done (flag false) s
        | some cookies ↦
            do_get_context J platform (restore_cookies cookies on_done on_error) on_error s
      ]
