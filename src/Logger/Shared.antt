-- ===== src/Logger/Shared.antt =====
-- Several loggers over the one registry of spdlog (wheel/logger/imp/spdlog_logger.cpp).
use lynne_social.Prelude.{
  ℕ, ◌≡◌, refl, ap, sym, ◌∙◌, ◌==◌, ==_iff, ◌⊎◌, Bool, true, false, Option, none, some, List, [],
  Text, txt, text_eq_instance, lookup-insert_self, arith, if◌then◌else◌, Bool-cases, inl, inr,
}
use lynne_social.Logger.{
  Spdlog, SpdlogLogger, LogConfig, LogLevel, Logs, create, lower, log, start, stop, health_check,
  in_file, found, open_sink,
}

module _ (P : Spdlog) (can_open : Text → Bool) where
  open P use {Level, get}

  -- The loggers of a program, by number, and what they share.
  pub record Program : Type 0 where
    pub loggers : ℕ → SpdlogLogger
    pub logs : Logs P

  abbrev pub set : (ℕ → SpdlogLogger) → ℕ → SpdlogLogger → ℕ → SpdlogLogger
  set f i s j = if i == j then s else f j

  abbrev pub started_by : ℕ → Program → Program
  started_by i p =
      let (_, s, w) = start P can_open (p.loggers i) p.logs in
      record { loggers = set p.loggers i s; logs = w }

  abbrev pub stopped_by : ℕ → Program → Program
  stopped_by i p =
      let (s, w) = stop P (p.loggers i) p.logs in record { loggers = set p.loggers i s; logs = w }

  -- What may happen: a logger is started, stopped or called, in any order.
  pub data Step : Program → Program → Type 0 where
    starts : (p : Program) (i : ℕ) → Step p (started_by i p)
    stops : (p : Program) (i : ℕ) → Step p (stopped_by i p)
    logs_one :
        (p : Program) (i : ℕ) (l : LogLevel) (m : Text)
        → Step p (record p { logs = log P (p.loggers i) l m p.logs })

  pub data Reach (p : Program) : Program → Type 0 where
    here : Reach p p
    next : {q r : Program} → Reach p q → Step q r → Reach p r

  -- At most one logger is started, and then the registry has a logger.
  pub record IsSingle (p : Program) : Type 0 where
    pub alone : (i j : ℕ) → (p.loggers i).started ≡ true → (p.loggers j).started ≡ true → i ≡ j
    pub served :
        (i : ℕ) → (p.loggers i).started ≡ true → found P (get (txt "lynne") p.logs.registry) ≡ true

  registry-log :
      (s : SpdlogLogger) (l : LogLevel) (m : Text) (w : Logs P)
      → (log P s l m w).registry ≡ w.registry
  unfolding log
  registry-log s l m w = ground arith

  -- A start while another logger is registered, with a log file that opens, throws and leaves the
  -- logger stopped, but its log file has been emptied by then.
  pub start_second :
      (s : SpdlogLogger) (b : Level × Text) (w : Logs P)
      → s.started ≡ false
      → can_open s.config.log_file ≡ true
      → get (txt "lynne") w.registry ≡ some b
      → (start P can_open s w ≡ (false, s, open_sink P s.config.log_file w))
        × (in_file P s.config.log_file (open_sink P s.config.log_file w) ≡ [])
  unfolding start in_file open_sink
  start_second s b w h o g = (
    ground (
      arith,
      P.register_logger-taken (txt "lynne") (P.from_str (lower s.config.level), s.config.log_file) b
          w.registry,
    ),
    rw (lookup-insert_self {V = List (Level × Text)} s.config.log_file [] w.files),
  )

  started-start_busy :
      (s : SpdlogLogger) (b : Level × Text) (w : Logs P)
      → get (txt "lynne") w.registry ≡ some b
      → ((start P can_open s w).1.started ≡ s.started)
        × ((start P can_open s w).2.registry ≡ w.registry)
  unfolding start open_sink
  started-start_busy s b w g = ground (
    arith,
    P.register_logger-taken (txt "lynne") (P.from_str (lower s.config.level), s.config.log_file) b
        w.registry,
  )

  served-start_idle :
      (s : SpdlogLogger) (w : Logs P)
      → s.started ≡ false
      → get (txt "lynne") w.registry ≡ none
      → (start P can_open s w).1.started ≡ true
      → found P (get (txt "lynne") (start P can_open s w).2.registry) ≡ true
  unfolding start open_sink
  served-start_idle s w h g t =
      let (r, e, f) =
        P.register_logger-free (txt "lynne") (P.from_str (lower s.config.level), s.config.log_file)
          w.registry g in
      ground arith

  started-set_same :
      (f : ℕ → SpdlogLogger) (i : ℕ) (s : SpdlogLogger) (j : ℕ)
      → s.started ≡ (f i).started
      → (set f i s j).started ≡ (f j).started
  started-set_same f i s j h = elim (Bool-cases (i == j)) [
    | inl e ↦ rw e (h ∙ ap (λ k. (f k).started) ((==_iff i j).0 e))
    | inr e ↦ rw e
  ]

  -- If a logger that differs from `i` is started in `set f i s`, it was so in `f`.
  set_cases :
      (f : ℕ → SpdlogLogger) (i : ℕ) (s : SpdlogLogger) (j : ℕ)
      → (set f i s j).started ≡ true
      → ((i ≡ j) × (s.started ≡ true)) ⊎ ((f j).started ≡ true)
  set_cases f i s j h = elim (Bool-cases (i == j)) [
    | inl e ↦ inl ((==_iff i j).0 e, rw e at h)
    | inr e ↦ inr (rw e at h)
  ]

  none_started :
      (p : Program) (j : ℕ)
      → IsSingle p
      → get (txt "lynne") p.logs.registry ≡ none
      → (p.loggers j).started ≡ false
  none_started p j v g = ground (arith, v.served j)

  start-IsSingle :
      (p : Program) (i : ℕ) (o : Option (Level × Text))
      → get (txt "lynne") p.logs.registry ≡ o
      → IsSingle p
      → IsSingle (started_by i p)
  start-IsSingle p i (some b) g v =
      let (same, kept) = started-start_busy (p.loggers i) b p.logs g in
      let old =
        λ (j : ℕ). started-set_same p.loggers i (start P can_open (p.loggers i) p.logs).1 j same in
      record {
        alone = λ j k x y. v.alone j k (sym (old j) ∙ x) (sym (old k) ∙ y);
        served = λ j x. ap (λ r. found P (get (txt "lynne") r)) kept ∙ v.served j (sym (old j) ∙ x);
      }
  start-IsSingle p i none g v =
      let new = set_cases p.loggers i (start P can_open (p.loggers i) p.logs).1 in
      record {
        alone =
            λ j k x y. ground (arith, new j x, new k y, none_started p j v g, none_started p k v g);
        served = λ j x. ground (
          arith,
          new j x,
          none_started p j v g,
          none_started p i v g,
          served-start_idle (p.loggers i) p.logs,
        );
      }

  stop_cases :
      (s : SpdlogLogger) (w : Logs P)
      → ((stop P s w).0.started ≡ false)
        × ((s.started ≡ true) ⊎ (((stop P s w).0 ≡ s) × ((stop P s w).1 ≡ w)))
  unfolding stop
  stop_cases s w = ground arith

  stop-IsSingle : (p : Program) (i : ℕ) → IsSingle p → IsSingle (stopped_by i p)
  stop-IsSingle p i v =
      let (silent, before) = stop_cases (p.loggers i) p.logs in
      let new = set_cases p.loggers i (stop P (p.loggers i) p.logs).0 in
      record {
        alone = λ j k x y. ground (arith, silent, new j x, new k y, v.alone j k);
        served =
            λ j x. ground (arith, x, silent, before, new j x, v.alone i j, v.served j, ==_iff i j);
      }

  Step-IsSingle : {p q : Program} → Step p q → IsSingle p → IsSingle q
  Step-IsSingle (starts p i) v = start-IsSingle p i (get (txt "lynne") p.logs.registry) refl v
  Step-IsSingle (stops p i) v = stop-IsSingle p i v
  Step-IsSingle (logs_one p i l m) v = record {
    alone = v.alone;
    served = λ j x.
        ap (λ r. found P (get (txt "lynne") r)) (registry-log (p.loggers i) l m p.logs)
        ∙ v.served j x;
  }

  Reach-IsSingle : {p q : Program} → Reach p q → IsSingle p → IsSingle q
  Reach-IsSingle here v = v
  Reach-IsSingle (next r s) v = Step-IsSingle s (Reach-IsSingle r v)

  -- New loggers of these configurations.
  abbrev pub new_loggers : (ℕ → LogConfig) → Logs P → Program
  new_loggers configs w = record { loggers = λ i. create (configs i); logs = w }

  new_loggers-IsSingle : (configs : ℕ → LogConfig) (w : Logs P) → IsSingle (new_loggers configs w)
  unfolding create
  new_loggers-IsSingle configs w = record { alone = λ i j a b. cc; served = λ i a. cc }

  -- Of any loggers over one registry of spdlog, started, stopped and called in any order from new,
  -- at most one is started at a time, and health_check of each says whether it is started.
  pub Reach-single :
      (configs : ℕ → LogConfig) (w : Logs P) {p : Program}
      → Reach (new_loggers configs w) p
      → ((i j : ℕ) → (p.loggers i).started ≡ true → (p.loggers j).started ≡ true → i ≡ j)
        × ((i : ℕ) → health_check P (p.loggers i) p.logs ≡ (p.loggers i).started)
  unfolding health_check
  Reach-single configs w {p} r =
      let v = Reach-IsSingle r (new_loggers-IsSingle configs w) in
      (v.alone, λ i. ground (arith, v.served i))
