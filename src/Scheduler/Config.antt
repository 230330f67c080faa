-- ===== src/Scheduler/Config.antt =====
-- wheel/scheduler/scheduler_models.h and .cpp.
use lynne_social.Prelude.{Option, some, Text, txt, ℤ, pos}
use lynne_social.Prelude.Opt.{◌>>=◌}
use lynne_social.Json.{JsonLib}

-- struct SchedulerConfig
pub record SchedulerConfig : Type 0 where
  pub timezone : Text
  pub max_workers : ℤ

unfoldable pub scheduler_config_from_json : (J : JsonLib) → J.Json → Option SchedulerConfig
scheduler_config_from_json J j = do
  timezone ← J.value_str j (txt "timezone") (txt "Asia/Shanghai")
  max_workers ← J.value_int j (txt "max_workers") (pos 4)
  some (record { timezone = timezone; max_workers = max_workers })
