-- ===== src/Tests/Models.antt =====
-- The JSON models and the LLM engine.
use lynne_social.Prelude.{◌≡◌, refl, true, some, [], ◌∷◌, ◌++◌, txt, pos, arith}
use lynne_social.Json.Example.{example}
use lynne_social.Json.Value.{null}
use lynne_social.Common.Item.{UnifiedItem, item_from_json, item_to_json, default_item}
use lynne_social.Common.Item.Roundtrip.{item_from_json-to_json}
use lynne_social.Common.Status.{RunStatus}
use lynne_social.Prelude.Numerals.{to_string}
use lynne_social.Llm.Url.{parse_base_url, parse_base_url-to_string}

abbrev old : UnifiedItem example
old = record {
  platform = txt "x";
  item_id = txt "7";
  item_type = txt "post";
  author_id = [];
  author_name = [];
  content_text = txt "text";
  content_media = [];
  url = [];
  published_at = [];
  fetched_at = [];
  metrics = null;
  llm_relevance_score = pos 3;
  llm_relevance_reason = [];
  llm_summary = [];
  llm_tags = txt "x" ∷ [];
  llm_key_points = [];
}

item_from_json-to_json_example :
    item_from_json example (item_to_json example old) (default_item example) ≡ some old
item_from_json-to_json_example = item_from_json-to_json example old (default_item example)

abbrev status : RunStatus
status = record { running = true; current_task = txt "crawl"; progress = txt "1/2" }

parse_base_url-to_string_example :
    parse_base_url (txt "https://" ++ ((txt "h" ++ (b':' ∷ to_string (pos 8443))) ++ txt "/v1"))
    ≡ some (some (record { host = txt "h"; port = pos 8443; path = txt "/v1" }))
unfolding txt
parse_base_url-to_string_example =
    parse_base_url-to_string (txt "h") (txt "/v1") 8443 (omega arith, tt) (omega arith, tt) refl
      (omega arith)
