-- ===== src/Common/Item/Roundtrip.antt =====
-- An item that is written by to_json and read back by from_json.
use lynne_social.Prelude.{some, txt, text_eq, text_eq_instance, lookup, ◌≡◌}
use lynne_social.Json.{JsonLib}
use lynne_social.Common.Item.{UnifiedItem, item_from_json, item_to_json}

module _ (J : JsonLib) where
  open J use {Json, object, str, int, strs, value_str, value_int, find}

  -- Reading back the JSON that was written for an item gives the item, whatever the target held
  -- before.
  pub item_from_json-to_json :
      (item old : UnifiedItem J) → item_from_json J (item_to_json J item) old ≡ some item
  unfolding item_from_json item_to_json lookup text_eq txt
  item_from_json-to_json item old = simp (
    J.value_str_lem, J.value_int_lem, J.is_object-object, J.find-object, J.get_str-str,
    J.get_int-int, J.get_strs-strs,
  )
