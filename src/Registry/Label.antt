-- ===== src/Registry/Label.antt =====
-- internal/controller/homeassistantlabel_controller.go: what is particular to labels. The reconcile
-- itself is that of `Registry`.
use homeassistant_operator.Prelude.{
  String, ◌≡◌, ◌↔◌, Bool, true, false, not, [], ◌∷◌, ◌++◌, ◌==◌, eq_iff, arith, if◌then◌else◌,
}
use homeassistant_operator.Cluster.{Reply}
use homeassistant_operator.Registry.{
  text, Payload, Kind, Env, Resource, Verdict, handle_deletion, set_condition, reconcile,
}
use homeassistant_operator.Registry.Floor.{text_entry, no_references}

pub record LabelSpec : Type 0 where
  pub name : String
  pub icon : String
  pub color : String

pub record LabelEntry : Type 0 where
  pub label_id : String
  pub name : String
  pub icon : String
  pub color : String

unfoldable pub needs_label_update : LabelSpec → LabelEntry → Bool
needs_label_update spec e =
    if not (e.name == spec.name)
    then true
    else if not (spec.icon == e.icon)
    then true
    else if not (spec.color == e.color)
    then true
    else false

unfoldable pub create_label : LabelSpec → Payload
unfolding text_entry
create_label spec =
    ("name", text spec.name) ∷ (text_entry "icon" spec.icon ++ text_entry "color" spec.color)

unfoldable pub update_label : String → LabelSpec → Payload
update_label id spec =
    ("label_id", text id)
    ∷ ("name", text spec.name)
    ∷ ("icon", text spec.icon)
    ∷ ("color", text spec.color)
    ∷ []

abbrev pub delete_label : String → Payload
delete_label id = ("label_id", text id) ∷ []

abbrev pub label_kind : Kind LabelSpec (Unit {0}) LabelEntry
label_kind = record {
  ready_reason = "LabelReady";
  failed_reason = "LabelFailed";
  not_ready_reason = "HANotReady";
  token_reason = "TokenNotAvailable";
  list_command = "config/label_registry/list";
  create_command = "config/label_registry/create";
  update_command = "config/label_registry/update";
  delete_command = "config/label_registry/delete";
  entry_id = λ e. e.label_id;
  entry_name = λ e. e.name;
  spec_name = λ s. s.name;
  needs_update = λ s l e. needs_label_update s e;
  create_payload = λ s l. create_label s;
  update_payload = λ id s l. update_label id s;
  delete_payload = delete_label;
}

unfoldable pub reconcile_label : {W J : Type 0} → Env W LabelSpec LabelEntry J → W → Reply × W
reconcile_label env = reconcile env label_kind no_references

-- `handleDeletion` and `setCondition` of the label controller.
abbrev pub handle_label_deletion :
    {W J : Type 0} → Env W LabelSpec LabelEntry J → Resource LabelSpec → W → W
handle_label_deletion env = handle_deletion env label_kind

abbrev pub set_label_condition :
    {W J : Type 0} → Env W LabelSpec LabelEntry J → Verdict LabelSpec → W → Reply × W
set_label_condition env = set_condition env label_kind

-- A label has what the spec asks for.
pub record LabelReflects (spec : LabelSpec) (e : LabelEntry) : Type 0 where
  pub name : e.name ≡ spec.name
  pub icon : e.icon ≡ spec.icon
  pub color : e.color ≡ spec.color

-- A label is updated exactly when its name, its icon or its color is not what the spec asks for.
pub needs_label_update-false_iff :
    (spec : LabelSpec) (e : LabelEntry) → (needs_label_update spec e ≡ false) ↔ LabelReflects spec e
unfolding needs_label_update
needs_label_update-false_iff spec e =
    ground (arith, eq_iff e.name spec.name, eq_iff spec.icon e.icon, eq_iff spec.color e.color)
