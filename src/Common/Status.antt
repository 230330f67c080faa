-- ===== src/Common/Status.antt =====
-- common/models.h and models.cpp: `RunStatus` and its JSON.
use lynne_social.Prelude.{
  Option, some, [], ◌∷◌, Text, txt, text_eq, text_eq_instance, lookup, ◌≡◌, Bool, false,
}
use lynne_social.Prelude.Opt.{◌>>=◌}
use lynne_social.Json.{JsonLib}

-- struct RunStatus
pub record RunStatus : Type 0 where
  pub running : Bool
  pub current_task : Text
  pub progress : Text

module _ (J : JsonLib) where
  open J use {Json, object, str, bool, value_str, value_bool}

  -- void from_json(const nlohmann::json& j, RunStatus& s)
  unfoldable pub status_from_json : Json → Option RunStatus
  status_from_json j = do
    running ← value_bool j (txt "running") false
    current_task ← value_str j (txt "current_task") []
    progress ← value_str j (txt "progress") []
    some (record { running = running; current_task = current_task; progress = progress })

  -- void to_json(nlohmann::json& j, const RunStatus& s)
  unfoldable pub status_to_json : RunStatus → Json
  status_to_json s = object (
      (txt "running", bool s.running)
      ∷ (txt "current_task", str s.current_task)
      ∷ (txt "progress", str s.progress)
      ∷ [])

  -- Reading back the JSON that was written for a run status gives the status.
  pub status_from_json-to_json : (s : RunStatus) → status_from_json (status_to_json s) ≡ some s
  unfolding status_from_json status_to_json lookup text_eq txt
  status_from_json-to_json s = simp (
    J.value_str_lem, J.value_bool_lem, J.is_object-object, J.find-object, J.get_str-str,
    J.get_bool-bool,
  )
