-- ===== src/Common/Item.antt =====
-- common/models.h and models.cpp: `UnifiedItem` and its JSON.
pub mod Roundtrip
use lynne_social.Prelude.{Option, none, some, List, [], ◌∷◌, Text, txt, ℤ, pos}
use lynne_social.Prelude.Opt.{◌>>=◌}
use lynne_social.Json.{JsonLib}

module _ (J : JsonLib) where
  open J use {Json, find, object, str, strs, int, value_str, value_int, get_strs}

  -- struct UnifiedItem
  pub record UnifiedItem : Type 0 where
    pub platform : Text
    pub item_id : Text
    pub item_type : Text
    pub author_id : Text
    pub author_name : Text
    pub content_text : Text
    pub content_media : List Text
    pub url : Text
    pub published_at : Text
    pub fetched_at : Text
    pub metrics : Json
    pub llm_relevance_score : ℤ
    pub llm_relevance_reason : Text
    pub llm_summary : Text
    pub llm_tags : List Text
    pub llm_key_points : List Text

  abbrev pub read_strs : Option Json → List Text → Option (List Text)
  read_strs none old = some old
  read_strs (some v) old = get_strs v

  abbrev pub read_json : Option Json → Json → Json
  read_json none old = old
  read_json (some v) old = v

  -- `if (j.contains(key)) field = j.at(key).get<std::vector<std::string>>();`
  abbrev pub strs_or : Json → Text → List Text → Option (List Text)
  strs_or j k old = read_strs (find k j) old

  -- `if (j.contains("metrics")) item.metrics = j.at("metrics");`
  abbrev pub json_or : Json → Text → Json → Json
  json_or j k old = read_json (find k j) old

  -- void from_json(const nlohmann::json& j, UnifiedItem& item); the fields that are assigned only
  -- if present keep their value in `item`
  unfoldable pub item_from_json : Json → UnifiedItem → Option UnifiedItem
  item_from_json j item = do
    platform ← value_str j (txt "platform") []
    item_id ← value_str j (txt "item_id") []
    item_type ← value_str j (txt "item_type") (txt "post")
    author_id ← value_str j (txt "author_id") []
    author_name ← value_str j (txt "author_name") []
    content_text ← value_str j (txt "content_text") []
    content_media ← strs_or j (txt "content_media") item.content_media
    url ← value_str j (txt "url") []
    published_at ← value_str j (txt "published_at") []
    fetched_at ← value_str j (txt "fetched_at") []
    llm_relevance_score ← value_int j (txt "llm_relevance_score") (pos 0)
    llm_relevance_reason ← value_str j (txt "llm_relevance_reason") []
    llm_summary ← value_str j (txt "llm_summary") []
    llm_tags ← strs_or j (txt "llm_tags") item.llm_tags
    llm_key_points ← strs_or j (txt "llm_key_points") item.llm_key_points
    some (record {
      platform = platform;
      item_id = item_id;
      item_type = item_type;
      author_id = author_id;
      author_name = author_name;
      content_text = content_text;
      content_media = content_media;
      url = url;
      published_at = published_at;
      fetched_at = fetched_at;
      metrics = json_or j (txt "metrics") item.metrics;
      llm_relevance_score = llm_relevance_score;
      llm_relevance_reason = llm_relevance_reason;
      llm_summary = llm_summary;
      llm_tags = llm_tags;
      llm_key_points = llm_key_points;
    })

  -- void to_json(nlohmann::json& j, const UnifiedItem& item)
  unfoldable pub item_to_json : UnifiedItem → Json
  item_to_json item = object (
      (txt "platform", str item.platform)
      ∷ (txt "item_id", str item.item_id)
      ∷ (txt "item_type", str item.item_type)
      ∷ (txt "author_id", str item.author_id)
      ∷ (txt "author_name", str item.author_name)
      ∷ (txt "content_text", str item.content_text)
      ∷ (txt "content_media", strs item.content_media)
      ∷ (txt "url", str item.url)
      ∷ (txt "published_at", str item.published_at)
      ∷ (txt "fetched_at", str item.fetched_at)
      ∷ (txt "metrics", item.metrics)
      ∷ (txt "llm_relevance_score", int item.llm_relevance_score)
      ∷ (txt "llm_relevance_reason", str item.llm_relevance_reason)
      ∷ (txt "llm_summary", str item.llm_summary)
      ∷ (txt "llm_tags", strs item.llm_tags)
      ∷ (txt "llm_key_points", strs item.llm_key_points)
      ∷ [])

  -- UnifiedItem item; (the member initialisers)
  unfoldable pub default_item : UnifiedItem
  default_item = record {
    platform = [];
    item_id = [];
    item_type = txt "post";
    author_id = [];
    author_name = [];
    content_text = [];
    content_media = [];
    url = [];
    published_at = [];
    fetched_at = [];
    metrics = J.null;
    llm_relevance_score = pos 0;
    llm_relevance_reason = [];
    llm_summary = [];
    llm_tags = [];
    llm_key_points = [];
  }
