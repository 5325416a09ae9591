-- ===== src/Applied/Automation.antt =====
-- internal/controller/homeassistantautomation_controller.go: what an automation's configuration is.
use homeassistant_operator.Prelude.{
  ℤ, String, Bool, true, false, not, Option, none, some, List, [], ◌∷◌, ◌++◌,
}
use homeassistant_operator.Cluster.{Failure, Result, Reply, HomeAssistant, remove}
use homeassistant_operator.Credentials.{Session}
use homeassistant_operator.Applied.{
  reconcile, reconcile_via_api, calculate_hash, find_for_home_assistant,
}
use homeassistant_operator.Applied.Model.{
  Resource, Env, text, flag, one, list, Payload, Library, Kind,
}
use homeassistant_operator.Applied.Scene.{optional_text}
use homeassistant_operator.Applied.Script.{optional_number}

-- The texts of the triggers, conditions and actions are raw JSON.
pub record AutomationSpec : Type 0 where
  pub id : String
  pub alias : String
  pub description : String
  pub triggers : List String
  pub conditions : List String
  pub actions : List String
  pub mode : String
  pub max : Option ℤ
  pub max_exceeded : String
  pub initial_state : Option Bool
  pub enabled : Option Bool

is_enabled : AutomationSpec → Bool
is_enabled s = elim s.enabled [ none ↦ true | some b ↦ b ]

initial_entry : {J : Type 0} → Option Bool → Payload J
initial_entry none = []
initial_entry (some b) = ("initial_state", one (flag b)) ∷ []

module _ {J : Type 0} (lib : Library J) where
  unmarshal_all : List String → Option (List J)
  unmarshal_all [] = some []
  unmarshal_all (raw ∷ rest) = elim (lib.unmarshal raw) [
    | none ↦ none
    | some j ↦ elim (unmarshal_all rest) [ none ↦ none | some js ↦ some (j ∷ js) ]
  ]

  condition_entry : List J → Payload J
  condition_entry [] = []
  condition_entry (j ∷ js) = ("condition", list (j ∷ js)) ∷ []

  automation_map : String → AutomationSpec → List J → List J → List J → Payload J
  automation_map id s triggers conditions actions =
      (("id", one (text id))
        ∷ ("alias", one (text s.alias))
        ∷ optional_text "description" s.description)
      ++ (("trigger", list triggers) ∷ condition_entry conditions)
      ++ (("action", list actions) ∷ optional_text "mode" s.mode)
      ++ optional_number "max" s.max
      ++ optional_text "max_exceeded" s.max_exceeded
      ++ initial_entry s.initial_state
      ++ ("enabled", one (flag (is_enabled s))) ∷ []

  pub automation_to_yaml : String → AutomationSpec → Option (Payload J)
  unfolding unmarshal_all automation_map
  automation_to_yaml id s = elim (unmarshal_all s.triggers) [
    | none ↦ none
    | some triggers ↦ elim (unmarshal_all s.conditions) [
      | none ↦ none
      | some conditions ↦ elim (unmarshal_all s.actions) [
        | none ↦ none
        | some actions ↦ some (automation_map id s triggers conditions actions)
      ]
    ]
  ]

  abbrev pub automation_kind : Kind AutomationSpec J
  automation_kind = record {
    spec_id = λ s. s.id;
    to_map = automation_to_yaml;
    sent = λ m. remove "enabled" m;
    hash_prefix = λ id. "";
    invalid_reason = "InvalidAutomation";
    generated_reason = "AutomationGenerated";
    returns_after_finalizer = true;
    ref_delay = 5;
    patch_is_fatal = false;
    always_records = false;
    reload_method = some "api";
    entity_count = λ s. 0;
    is_disabled = λ s. elim s.enabled [ none ↦ false | some b ↦ not b ];
  }

  pub reconcile_automation : {W : Type 0} → Env W AutomationSpec J → W → Reply × W
  reconcile_automation env w = reconcile lib env automation_kind w

  pub reconcile_automation_via_api :
      {W : Type 0}
      → Env W AutomationSpec J
      → Session
      → Resource AutomationSpec
      → W
      → (Option Failure × Resource AutomationSpec) × W
  reconcile_automation_via_api env s r w = reconcile_via_api lib env automation_kind s r w

  pub calculate_automation_hash :
      {W : Type 0} → Env W AutomationSpec J → Resource AutomationSpec → Option String
  calculate_automation_hash env r = calculate_hash lib env automation_kind r

pub find_automations_for_home_assistant :
    HomeAssistant → Result (List (Resource AutomationSpec)) → List (String × String)
find_automations_for_home_assistant ha l = find_for_home_assistant ha l
