-- ===== src/Tests/Granted.antt =====
-- get_context, at a started manager and three replies of Chrome.
use lynne_social.Prelude.{
  ◌≡◌, refl, Bool, true, some, [], ◌∷◌, Text, txt, nat_eq, text_eq_instance, lookup, pos, text_eq,
  erase,
}
use lynne_social.Json.Example.{example}
use lynne_social.Json.Value.{Value, end, obj, field, str}
use lynne_social.Browser.State.{Manager, context}
use lynne_social.Browser.Contexts.{get_context}
use lynne_social.Browser.Messages.{on_reply}
use lynne_social.Browser.Granted.{new_context, get_context_granted}
use lynne_social.Browser.Config.{default_config}
use lynne_social.Browser.Lifecycle.{manager}
use lynne_social.Storage.Fs.{Disk}

abbrev open_always : Text → Disk → Bool
open_always p d = true

abbrev started : Manager example
started = record (manager example default_config (record { dirs = []; files = [] })) {
  started = true;
}

abbrev with_result : Text → Text → Value
with_result key t = obj (field (txt "result") (obj (field key (str t) end)) end)

get_context_granted_example :
    let end =
      (on_reply example open_always
        (pos 2)
        (obj end)
        (on_reply example open_always
          (pos 1)
          (with_result (txt "sessionId") (txt "s"))
          (on_reply example open_always
            (pos 0)
            (with_result (txt "targetId") (txt "t"))
            (get_context example (txt "x") 7 8 started).1).1).1).1 in
    (end.events ≡ record { callback = 7; reply = context 0 } ∷ [])
    × (lookup (txt "x") end.contexts ≡ some 0)
    × (lookup 0 end.heap ≡ some (new_context (txt "x") (txt "t") (txt "s")))
unfolding lookup text_eq txt erase manager
get_context_granted_example =
    get_context_granted example open_always (txt "x") (txt "t") (txt "s") 7 8
      (with_result (txt "targetId") (txt "t")) (with_result (txt "sessionId") (txt "s")) (obj end)
      started refl refl
      (record {
        result = obj (field (txt "targetId") (str (txt "t")) end);
        held = str (txt "t");
        no_error = refl;
        has_result = refl;
        has_key = refl;
        is_text = refl;
      })
      (record {
        result = obj (field (txt "sessionId") (str (txt "s")) end);
        held = str (txt "s");
        no_error = refl;
        has_result = refl;
        has_key = refl;
        is_text = refl;
      })
      refl
