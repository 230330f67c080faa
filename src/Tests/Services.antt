-- ===== src/Tests/Services.antt =====
-- The configuration loader and the logger, at small inputs.
use lynne_social.Prelude.{
  ℕ, ◌≡◌, refl, true, false, none, some, List, [], ◌∷◌, Text, txt, text_eq, text_eq_instance,
  lookup, insert, erase,
}
use lynne_social.Json.Example.{example}
use lynne_social.Json.Value as Json
use lynne_social.Json.Value.{Value, parse_value, null, end, obj, field, str}
use lynne_social.Storage.Fs.{Disk}
use lynne_social.Config.{
  Config, default_config, default_platform, config_from_json, platform_from_json,
}
use lynne_social.Config.Entries.{entry, platforms_lem}
use lynne_social.Logger.{
  SpdlogLogger, LogLevel, Logs, default_log, start, health_check, log, open_sink, in_file, lower,
  spd_level, debug, info, error,
}
use lynne_social.Logger.Example as Fake
use lynne_social.Logger.Macro.{log_macro, Handed, formatted, log_macro_bounded}
use lynne_social.Logger.Levels.{log_all, at_least, in_file-log_all-start}
use lynne_social.Logger.Shared.{
  Program, here, next, starts, new_loggers, started_by, Reach-single, start_second,
}

abbrev empty_disk : Disk
empty_disk = record { dirs = []; files = [] }

-- One platform, switched on.
abbrev platforms : Value
platforms = obj (field (txt "x") (obj (field (txt "enabled") (Json.bool true) end)) end)

abbrev document : Value
document = obj (field (txt "platforms") platforms end)

abbrev configured : Config example
configured = record (default_config example) {
  platforms = (txt "x", record default_platform { enabled = true }) ∷ [];
}

platforms_lem_example :
    lookup (txt "x") configured.platforms
    ≡ entry example
        (λ v. platform_from_json example v default_platform)
        (example.find (txt "x") platforms)
        none
unfolding config_from_json text_eq lookup txt insert erase
platforms_lem_example = platforms_lem example document platforms configured (txt "x") refl refl refl

abbrev unused : Logs Fake.example
unused = record { registry = []; files = [] }

abbrev one : SpdlogLogger
one = record { config = default_log; started = false }

abbrev two_messages : List (LogLevel × Text)
two_messages = (debug, txt "a") ∷ (error, txt "b") ∷ []

in_file-log_all-start_example :
    let (returned, t, v) = start Fake.example (λ f. true) one unused in
    (returned ≡ true)
    × (in_file Fake.example (txt "data/lynne.log") (log_all Fake.example t two_messages v)
        ≡ at_least Fake.example info two_messages)
unfolding lookup lower txt text_eq spd_level
in_file-log_all-start_example =
    in_file-log_all-start Fake.example (λ f. true) one info two_messages unused refl refl refl refl

log_macro_bounded_example :
    (message : Text) × (log_macro Fake.example info
        (some one)
        (txt "m")
        (txt "f.cpp")
        3
        (txt "hello")
        unused
      ≡ log Fake.example one info message unused)
    × Handed (formatted (txt "m") (txt "f.cpp") 3 (txt "hello")) message
log_macro_bounded_example =
    log_macro_bounded Fake.example info one (txt "m") (txt "f.cpp") 3 (txt "hello") unused

abbrev busy : Logs Fake.example
busy = record {
  registry = (txt "lynne", (2, txt "a.log")) ∷ [];
  files = (txt "data/lynne.log", (2, txt "kept") ∷ []) ∷ [];
}

start_second_example :
    (start Fake.example (λ f. true) one busy
      ≡ (false, one, open_sink Fake.example (txt "data/lynne.log") busy))
    × (in_file Fake.example
          (txt "data/lynne.log")
          (open_sink Fake.example (txt "data/lynne.log") busy)
        ≡ [])
unfolding lookup txt text_eq
start_second_example =
    start_second Fake.example (λ f. true) one (2, txt "a.log") busy refl refl refl

abbrev loggers : Program Fake.example (λ f. true)
loggers = new_loggers Fake.example (λ f. true) (λ i. default_log) unused

abbrev both : Program Fake.example (λ f. true)
both = started_by Fake.example (λ f. true) 1 (started_by Fake.example (λ f. true) 0 loggers)

Reach-single_example :
    ((i j : ℕ) → (both.loggers i).started ≡ true → (both.loggers j).started ≡ true → i ≡ j)
    × ((i : ℕ) → health_check Fake.example (both.loggers i) both.logs ≡ (both.loggers i).started)
Reach-single_example =
    Reach-single Fake.example (λ f. true) (λ i. default_log) unused
      (next (next here (starts loggers 0))
        (starts (started_by Fake.example (λ f. true) 0 loggers) 1))
