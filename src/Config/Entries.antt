-- ===== src/Config/Entries.antt =====
-- The maps of a configuration against the JSON that they are read from (wheel/config/config_models.cpp).
use lynne_social.Prelude.{
  ◌≡◌, true, Option, none, some, List, [], ◌∷◌, Text, txt, text_eq_instance, lookup, insert,
  lookup-insert, text_eq_iff, Distinct, arith,
}
use lynne_social.Prelude.Opt.{>>=-eq-some}
use lynne_social.Json.{JsonLib}
use lynne_social.Config.{
  Config, default_config, default_platform, config_from_json, platform_from_json, assign_all,
  member_if, items_into,
}

module _ (J : JsonLib) where
  open J use {Json, find, items, is_object}

  -- What a key holds, when each of these members was assigned.
  abbrev pub entry {ℓ} : {V : Type ℓ} → (Json → Option V) → Option Json → Option V → Option V
  entry get none old = old
  entry get (some j) old = get j

  lookup-assign_all {ℓ} :
      {V : Type ℓ} (get : Json → Option V) (js : List (Text × Json)) (m r : List (Text × V))
      (k : Text)
      → Distinct js
      → assign_all J get js m ≡ some r
      → lookup k r ≡ entry get (lookup k js) (lookup k m)
  unfolding assign_all lookup
  lookup-assign_all get [] m r k d h = cc
  lookup-assign_all get ((k', j) ∷ js) m r k d h =
      let (v, hv, hr) = >>=-eq-some (get j) (λ v. assign_all J get js (insert k' v m)) h in
      let ih = lookup-assign_all get js (insert k' v m) r k d.1 hr in
      ground (arith, ih, hv, d.0, text_eq_iff k' k, lookup-insert k' k v m)

  assigned :
      (j : Json) (c : Config J)
      → config_from_json J j (default_config J) ≡ some c
      → items_into J
          (λ v. platform_from_json J v default_platform)
          (member_if J is_object (txt "platforms") j)
          []
        ≡ some c.platforms
  unfolding config_from_json
  assigned j c h = ground arith

  platforms_stored :
      (j p : Json) (c : Config J)
      → config_from_json J j (default_config J) ≡ some c
      → find (txt "platforms") j ≡ some p
      → is_object p ≡ true
      → assign_all J (λ v. platform_from_json J v default_platform) (items p) [] ≡ some c.platforms
  unfolding member_if
  platforms_stored j p c h hp ho = ground (arith, assigned j c h)

  -- When a configuration is read from JSON whose member platforms is an object, looking up any
  -- name in its platforms gives what reading that member alone gives, and nothing where the object
  -- has no such member.
  pub platforms_lem :
      (j p : Json) (c : Config J) (k : Text)
      → config_from_json J j (default_config J) ≡ some c
      → find (txt "platforms") j ≡ some p
      → is_object p ≡ true
      → lookup k c.platforms ≡ entry (λ v. platform_from_json J v default_platform) (find k p) none
  unfolding lookup
  platforms_lem j p c k h hp ho =
      let stored =
        lookup-assign_all (λ v. platform_from_json J v default_platform) (items p) [] c.platforms k
          (J.items-Distinct p ho) (platforms_stored j p c h hp ho) in
      rw (J.find-items k p ho) stored
