-- ===== src/Webhook.antt =====
-- internal/webhook/v1: the admission check that two automations, scenes or scripts of one
-- HomeAssistant do not write the same identifier into its configuration. The three kinds have the
-- same fields and the same check, and `Resource` stands for each of them; the answer of the list
-- call is an argument, `none` if the call fails.
pub mod Disjoint
pub mod Store
mod Tests
use homeassistant_operator.Prelude.{
  ℕ, String, ◌≡◌, Bool, true, false, not, Option, none, some, List, [], ◌∷◌, map, ◌==◌,
  if◌then◌else◌,
}

pub record SiblingDescriptor : Type 0 where
  pub name : String
  pub uid : String
  pub deletion_timestamp : Option ℕ
  pub home_assistant_ref_name : String
  pub effective_id : String

-- A HomeAssistantAutomation, HomeAssistantScene or HomeAssistantScript, as far as the check reads it.
pub record Resource : Type 0 where
  pub name : String
  pub uid : String
  pub deletion_timestamp : Option ℕ
  pub home_assistant_ref : String
  pub id : String

-- The error of a refused request.
pub record Refusal : Type 0 where
  pub kind : String
  pub self_name : String
  pub self_effective_id : String
  pub conflict : String
  pub home_assistant : String

abbrev pub effective_id : String → String → String
effective_id id name = if not (id == "") then id else name

unfoldable pub find_identifier_collision :
    List SiblingDescriptor → String → String → String → String
find_identifier_collision [] self_uid self_ref self_id = ""
find_identifier_collision (s ∷ siblings) self_uid self_ref self_id =
    let rest = find_identifier_collision siblings self_uid self_ref self_id in
    if s.uid == self_uid then rest else elim s.deletion_timestamp [
      | some _ ↦ rest
      | none ↦
          if not (s.home_assistant_ref_name == self_ref)
          then rest
          else if not (s.effective_id == self_id)
          then rest
          else s.name
    ]

unfoldable pub check_identifier_collision {ℓ} :
    {L : Type ℓ}
    → Option L
    → (L → List SiblingDescriptor)
    → (kind uid name ref id : String) → Option Refusal
unfolding find_identifier_collision
check_identifier_collision none to_descriptors kind uid name ref id = none
check_identifier_collision (some list) to_descriptors kind uid name ref id =
    let conflict = find_identifier_collision (to_descriptors list) uid ref id in
    if conflict == ""
    then none
    else some (record {
      kind = kind;
      self_name = name;
      self_effective_id = id;
      conflict = conflict;
      home_assistant = ref;
    })

abbrev pub descriptor : Resource → SiblingDescriptor
descriptor s = record {
  name = s.name;
  uid = s.uid;
  deletion_timestamp = s.deletion_timestamp;
  home_assistant_ref_name = s.home_assistant_ref;
  effective_id = effective_id s.id s.name;
}

unfoldable pub validate : String → Option (List Resource) → Resource → Option Refusal
unfolding check_identifier_collision
validate kind list self =
    check_identifier_collision list (map descriptor) kind self.uid self.name self.home_assistant_ref
      (effective_id self.id self.name)

abbrev pub validate_automation : Option (List Resource) → Resource → Option Refusal
validate_automation = validate "HomeAssistantAutomation"

abbrev pub validate_scene : Option (List Resource) → Resource → Option Refusal
validate_scene = validate "HomeAssistantScene"

abbrev pub validate_script : Option (List Resource) → Resource → Option Refusal
validate_script = validate "HomeAssistantScript"

-- `ValidateCreate`, `ValidateUpdate` and `ValidateDelete`
pub data Request : Type 0 where
  create : Resource → Request
  update : Resource → Resource → Request
  delete : Resource → Request

unfoldable pub admit : String → Option (List Resource) → Request → Option Refusal
unfolding validate
admit kind list (create r) = validate kind list r
admit kind list (update old new) = validate kind list new
admit kind list (delete r) = none
