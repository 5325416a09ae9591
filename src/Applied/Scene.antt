-- ===== src/Applied/Scene.antt =====
-- internal/controller/homeassistantscene_controller.go: what a scene's configuration is.
use homeassistant_operator.Prelude.{
  String, true, false, Option, none, some, List, [], ◌∷◌, ◌++◌, ◌==◌, length, if◌then◌else◌,
}
use homeassistant_operator.Cluster.{Failure, Result, Reply, HomeAssistant, set}
use homeassistant_operator.Credentials.{Session}
use homeassistant_operator.Applied.{
  reconcile, reconcile_via_api, calculate_hash, find_for_home_assistant,
}
use homeassistant_operator.Applied.Model.{
  Resource, Env, Value, text, json, one, entities, Payload, Library, Kind,
}

-- `attributes` is the raw JSON, "" where there is none.
pub record SceneEntity : Type 0 where
  pub entity_id : String
  pub state : String
  pub attributes : String

pub record SceneSpec : Type 0 where
  pub id : String
  pub name : String
  pub icon : String
  pub entities : List SceneEntity

-- An optional text of a configuration.
abbrev pub optional_text : {J : Type 0} → String → String → Payload J
optional_text key s = if s == "" then [] else (key, one (text s)) ∷ []

module _ {J : Type 0} (lib : Library J) where
  pub merge : List (String × J) → List (String × Value J) → List (String × Value J)
  merge [] base = base
  merge ((k, v) ∷ attrs) base = merge attrs (set k (json v) base)

  unfoldable pub entity_data : SceneEntity → Option (List (String × Value J))
  entity_data e =
      let base = ("state", text e.state) ∷ [] in
      if e.attributes == "" then some base else elim (lib.unmarshal_map e.attributes) [
        | none ↦ none
        | some attrs ↦ some (merge attrs base)
      ]

  unfoldable pub scene_entities :
      List SceneEntity
      → List (String × List (String × Value J))
      → Option (List (String × List (String × Value J)))
  scene_entities [] acc = some acc
  scene_entities (e ∷ es) acc = elim (entity_data e) [
    | none ↦ none
    | some d ↦ scene_entities es (set e.entity_id d acc)
  ]

  unfoldable pub scene_to_yaml : String → SceneSpec → Option (Payload J)
  scene_to_yaml id s = elim (scene_entities s.entities []) [
    | none ↦ none
    | some es ↦ some (
        (("id", one (text id)) ∷ optional_text "name" s.name)
        ++ optional_text "icon" s.icon
        ++ ("entities", entities es) ∷ [])
  ]

  abbrev pub scene_kind : Kind SceneSpec J
  scene_kind = record {
    spec_id = λ s. s.id;
    to_map = scene_to_yaml;
    sent = λ m. m;
    hash_prefix = λ id. "";
    invalid_reason = "InvalidScene";
    generated_reason = "SceneGenerated";
    returns_after_finalizer = false;
    ref_delay = 30;
    patch_is_fatal = true;
    always_records = true;
    reload_method = none;
    entity_count = λ s. length s.entities;
    is_disabled = λ s. false;
  }

  pub reconcile_scene : {W : Type 0} → Env W SceneSpec J → W → Reply × W
  reconcile_scene env w = reconcile lib env scene_kind w

  pub reconcile_scene_via_api :
      {W : Type 0}
      → Env W SceneSpec J
      → Session
      → Resource SceneSpec
      → W
      → (Option Failure × Resource SceneSpec) × W
  reconcile_scene_via_api env s r w = reconcile_via_api lib env scene_kind s r w

  pub calculate_scene_hash : {W : Type 0} → Env W SceneSpec J → Resource SceneSpec → Option String
  calculate_scene_hash env r = calculate_hash lib env scene_kind r

pub find_scenes_for_home_assistant :
    HomeAssistant → Result (List (Resource SceneSpec)) → List (String × String)
find_scenes_for_home_assistant ha l = find_for_home_assistant ha l
