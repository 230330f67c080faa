-- ===== src/Logger/Levels.antt =====
-- What a started logger writes (wheel/logger/imp/spdlog_logger.cpp).
use lynne_social.Prelude.{
  ℕ, ◌≡◌, refl, ap, sym, ◌∙◌, Bool, true, false, none, some, List, [], ◌∷◌, ◌++◌, Text, txt, leb,
  Bool-cases, inl, inr, text_eq_instance, lookup-insert_self, arith, if◌then◌else◌,
}
use mathlib.Core.List.{append_assoc, append-nil}
use lynne_social.Logger.{
  Spdlog, SpdlogLogger, LogLevel, debug, info, warn, error, Logs, log, start, write, in_file,
  spd_level, lower, open_sink,
}

-- The levels in the order of the enumeration.
abbrev pub order : LogLevel → ℕ
order debug = 1
order info = 2
order warn = 3
order error = 4

module _ (P : Spdlog) where
  open P use {Level, get, rank, should_log, from_str}

  rank-spd_level : (l : LogLevel) → rank (spd_level P l) ≡ order l
  unfolding spd_level
  rank-spd_level debug = P.rank_debug
  rank-spd_level info = P.rank_info
  rank-spd_level warn = P.rank_warn
  rank-spd_level error = P.rank_err

  -- A client's calls of log, the first one first.
  abbrev pub log_all : SpdlogLogger → List (LogLevel × Text) → Logs P → Logs P
  log_all s [] w = w
  log_all s ((l, m) ∷ ms) w = log_all s ms (log P s l m w)

  -- The messages of a level or above.
  abbrev pub at_least : LogLevel → List (LogLevel × Text) → List (Level × Text)
  at_least least [] = []
  at_least least ((l, m) ∷ ms) =
      let rest = at_least least ms in
      if leb (order least) (order l) then (spd_level P l, m) ∷ rest else rest

  log-write :
      (s : SpdlogLogger) (l : LogLevel) (m : Text) (b : Level × Text) (w : Logs P)
      → s.started ≡ true
      → get (txt "lynne") w.registry ≡ some b
      → log P s l m w ≡ write P b (spd_level P l) m w
  unfolding log
  log-write s l m b w h g = ground arith

  registry-write :
      (b : Level × Text) (l : Level) (m : Text) (w : Logs P)
      → (write P b l m w).registry ≡ w.registry
  unfolding write
  registry-write (least, file) l m w = ground arith

  in_file-write :
      (least l : Level) (file m : Text) (w : Logs P)
      → in_file P file (write P (least, file) l m w)
        ≡ (if should_log least l then in_file P file w ++ ((l, m) ∷ []) else in_file P file w)
  unfolding write in_file
  in_file-write least l file m w = elim (Bool-cases (should_log least l)) [
    | inl e ↦ rw e (rw (lookup-insert_self file (in_file P file w ++ ((l, m) ∷ [])) w.files))
    | inr e ↦ rw e
  ]

  should_log-spd_level :
      (a b : LogLevel) → should_log (spd_level P a) (spd_level P b) ≡ leb (order a) (order b)
  should_log-spd_level a b =
      P.should_log_lem (spd_level P a) (spd_level P b) ∙ rw (rank-spd_level a, rank-spd_level b)

  module _ (s : SpdlogLogger) (least : LogLevel) (file : Text) (live : s.started ≡ true) where
    -- The logger that is registered is one of this level and file.
    abbrev Serves : Logs P → Type 0
    Serves w = get (txt "lynne") w.registry ≡ some (spd_level P least, file)

    log-Serves : (l : LogLevel) (m : Text) (w : Logs P) → Serves w → Serves (log P s l m w)
    log-Serves l m w g =
        let b : Level × Text = (spd_level P least, file) in
        ap (λ v. get (txt "lynne") v.registry) (log-write s l m b w live g)
        ∙ (ap (get (txt "lynne")) (registry-write b (spd_level P l) m w) ∙ g)

    in_file-log :
        (l : LogLevel) (m : Text) (w : Logs P)
        → Serves w
        → in_file P file (log P s l m w) ≡ (
            if leb (order least) (order l)
            then in_file P file w ++ ((spd_level P l, m) ∷ [])
            else in_file P file w)
    in_file-log l m w g = rw (log-write s l m (spd_level P least, file) w live g) (
        rw (in_file-write (spd_level P least) (spd_level P l) file m w)
          (rw (should_log-spd_level least l)))

    in_file-log_all :
        (ms : List (LogLevel × Text)) (w : Logs P)
        → Serves w
        → in_file P file (log_all s ms w) ≡ in_file P file w ++ at_least least ms
    in_file-log_all [] w g = sym (append-nil (in_file P file w))
    in_file-log_all ((l, m) ∷ ms) w g =
        in_file-log_all ms (log P s l m w) (log-Serves l m w g)
        ∙ rw (in_file-log l m w g) (elim (Bool-cases (leb (order least) (order l))) [
          | inl e ↦
              rw e (append_assoc (in_file P file w) ((spd_level P l, m) ∷ []) (at_least least ms))
          | inr e ↦ rw e
        ])

  -- A first start registers the logger and leaves its file empty.
  pub start_first :
      (can_open : Text → Bool) (s : SpdlogLogger) (w : Logs P)
      → s.started ≡ false
      → can_open s.config.log_file ≡ true
      → get (txt "lynne") w.registry ≡ none
      → (r : P.Registry) × (start P can_open s w ≡ (
        true,
        record s { started = true },
        record (open_sink P s.config.log_file w) { registry = r },
      ))
        × (get (txt "lynne") r ≡ some (from_str (lower s.config.level), s.config.log_file))
  unfolding start open_sink
  start_first can_open s w h o g =
      let (r, e, f) =
        P.register_logger-free (txt "lynne") (from_str (lower s.config.level), s.config.log_file)
          w.registry g in
      (r, ground arith, f)

  in_file-open_sink :
      (file : Text) (r : P.Registry) (w : Logs P)
      → in_file P file (record (open_sink P file w) { registry = r }) ≡ []
  unfolding in_file open_sink
  in_file-open_sink file r w = rw (lookup-insert_self {V = List (Level × Text)} file [] w.files)

  -- A first start with a log file that opens returns; when the level of the configuration is, in
  -- small letters, the name that spdlog reads as one of the four levels, the log file holds
  -- afterwards exactly the messages of that level and above, in the order of the calls, and
  -- nothing from before.
  pub in_file-log_all-start :
      (can_open : Text → Bool) (s : SpdlogLogger) (least : LogLevel) (ms : List (LogLevel × Text))
      (w : Logs P)
      → s.started ≡ false
      → can_open s.config.log_file ≡ true
      → get (txt "lynne") w.registry ≡ none
      → from_str (lower s.config.level) ≡ spd_level P least
      → let (returned, t, v) = start P can_open s w in
        (returned ≡ true) × (in_file P s.config.log_file (log_all t ms v) ≡ at_least least ms)
  in_file-log_all-start can_open s least ms w h o g e =
      let (r, started, served) = start_first can_open s w h o g in
      rw started (
        refl,
        in_file-log_all (record s { started = true }) least s.config.log_file refl ms
              (record (open_sink P s.config.log_file w) { registry = r }) (served ∙ rw e)
            ∙ rw (in_file-open_sink s.config.log_file r w),
      )
