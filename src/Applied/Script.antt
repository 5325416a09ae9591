-- ===== src/Applied/Script.antt =====
-- internal/controller/homeassistantscript_controller.go: what a script's configuration is.
use Prim.Native.String.{◌++◌ as str_append}
use homeassistant_operator.Prelude.{
  ℤ, String, false, ◌||◌, Option, none, some, List, [], ◌∷◌, ◌++◌, ◌==◌, if◌then◌else◌,
}
use homeassistant_operator.Cluster.{Failure, Result, Reply, HomeAssistant}
use homeassistant_operator.Credentials.{Session}
use homeassistant_operator.Applied.{
  reconcile, reconcile_via_api, calculate_hash, find_for_home_assistant,
}
use homeassistant_operator.Applied.Model.{
  Resource, Env, text, number, one, maps, fields, Payload, Library, Kind,
}
use homeassistant_operator.Applied.Scene.{optional_text}

-- The texts of the fields and of the sequence are raw JSON.
pub record ScriptSpec : Type 0 where
  pub id : String
  pub alias : String
  pub description : String
  pub icon : String
  pub sequence : List String
  pub fields : List (String × String)
  pub mode : String
  pub max : Option ℤ
  pub max_exceeded : String

abbrev pub optional_number : {J : Type 0} → String → Option ℤ → Payload J
optional_number key none = []
optional_number key (some n) = (key, one (number n)) ∷ []

-- `max` and `max_exceeded`, of the modes that have them
unfoldable pub limits : {J : Type 0} → ScriptSpec → Payload J
limits s =
    if s.mode == "queued" || s.mode == "parallel"
    then optional_number "max" s.max ++ optional_text "max_exceeded" s.max_exceeded
    else []

module _ {J : Type 0} (lib : Library J) where
  unfoldable pub script_fields : List (String × String) → Option (List (String × List (String × J)))
  script_fields [] = some []
  script_fields ((name, raw) ∷ fs) = elim (lib.unmarshal_map raw) [
    | none ↦ none
    | some m ↦ elim (script_fields fs) [ none ↦ none | some ms ↦ some ((name, m) ∷ ms) ]
  ]

  unfoldable pub script_sequence : List String → Option (List (List (String × J)))
  script_sequence [] = some []
  script_sequence (raw ∷ rest) = elim (lib.unmarshal_map raw) [
    | none ↦ none
    | some m ↦ elim (script_sequence rest) [ none ↦ none | some ms ↦ some (m ∷ ms) ]
  ]

  unfoldable pub field_entry : List (String × List (String × J)) → Payload J
  field_entry [] = []
  field_entry (m ∷ ms) = ("fields", fields (m ∷ ms)) ∷ []

  unfoldable pub script_to_yaml : String → ScriptSpec → Option (Payload J)
  unfolding script_fields script_sequence field_entry limits
  script_to_yaml id s = elim (script_fields s.fields) [
    | none ↦ none
    | some fs ↦ elim (script_sequence s.sequence) [
      | none ↦ none
      | some actions ↦ some (
          (("alias", one (text s.alias)) ∷ optional_text "description" s.description)
          ++ optional_text "icon" s.icon
          ++ optional_text "mode" s.mode
          ++ limits s
          ++ field_entry fs
          ++ ("sequence", maps actions) ∷ [])
    ]
  ]

  abbrev pub script_kind : Kind ScriptSpec J
  script_kind = record {
    spec_id = λ s. s.id;
    to_map = script_to_yaml;
    sent = λ m. m;
    hash_prefix = λ id. str_append id "\n";
    invalid_reason = "InvalidScript";
    generated_reason = "ScriptGenerated";
    returns_after_finalizer = false;
    ref_delay = 30;
    patch_is_fatal = false;
    always_records = false;
    reload_method = some "api";
    entity_count = λ s. 0;
    is_disabled = λ s. false;
  }

  pub reconcile_script : {W : Type 0} → Env W ScriptSpec J → W → Reply × W
  reconcile_script env w = reconcile lib env script_kind w

  pub reconcile_script_via_api :
      {W : Type 0}
      → Env W ScriptSpec J
      → Session
      → Resource ScriptSpec
      → W
      → (Option Failure × Resource ScriptSpec) × W
  reconcile_script_via_api env s r w = reconcile_via_api lib env script_kind s r w

  pub calculate_script_hash :
      {W : Type 0} → Env W ScriptSpec J → Resource ScriptSpec → Option String
  calculate_script_hash env r = calculate_hash lib env script_kind r

pub find_scripts_for_home_assistant :
    HomeAssistant → Result (List (Resource ScriptSpec)) → List (String × String)
find_scripts_for_home_assistant ha l = find_for_home_assistant ha l
