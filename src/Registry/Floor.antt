-- ===== src/Registry/Floor.antt =====
-- internal/controller/homeassistantfloor_controller.go: what is particular to floors. The reconcile
-- itself is that of `Registry`.
use homeassistant_operator.Prelude.{
  ℤ, eq_int, eq_int_iff, String, ◌≡◌, ◌↔◌, Bool, true, false, not, Option, none, some, [], ◌∷◌,
  ◌++◌, ◌==◌, eq_iff, arith, if◌then◌else◌,
}
use homeassistant_operator.Cluster.{Reply}
use homeassistant_operator.Credentials.{Session}
use homeassistant_operator.Registry.{
  Value, text, number, null, Payload, Kind, Env, Resource, Verdict, handle_deletion, set_condition,
  Resolved, links, reconcile,
}

pub record FloorSpec : Type 0 where
  pub name : String
  pub level : Option ℤ
  pub icon : String

pub record FloorEntry : Type 0 where
  pub floor_id : String
  pub name : String
  pub level : Option ℤ
  pub icon : String

level_differs : Option ℤ → Option ℤ → Bool
level_differs (some a) (some b) = not (eq_int a b)
level_differs none none = false
level_differs _ _ = true

unfoldable pub needs_floor_update : FloorSpec → FloorEntry → Bool
unfolding level_differs
needs_floor_update spec e =
    if not (e.name == spec.name)
    then true
    else if not (spec.icon == e.icon)
    then true
    else level_differs spec.level e.level

level_entry : Option ℤ → Payload
level_entry none = []
level_entry (some n) = ("level", number n) ∷ []

unfoldable pub text_entry : String → String → Payload
text_entry key v = if v == "" then [] else (key, text v) ∷ []

level_value : Option ℤ → Value
level_value none = null
level_value (some n) = number n

unfoldable pub create_floor : FloorSpec → Payload
unfolding level_entry text_entry
create_floor spec =
    ("name", text spec.name) ∷ (level_entry spec.level ++ text_entry "icon" spec.icon)

unfoldable pub update_floor : String → FloorSpec → Payload
unfolding level_value
update_floor id spec =
    ("floor_id", text id)
    ∷ ("name", text spec.name)
    ∷ ("icon", text spec.icon)
    ∷ ("level", level_value spec.level)
    ∷ []

abbrev pub delete_floor : String → Payload
delete_floor id = ("floor_id", text id) ∷ []

abbrev pub floor_kind : Kind FloorSpec (Unit {0}) FloorEntry
floor_kind = record {
  ready_reason = "FloorReady";
  failed_reason = "FloorFailed";
  not_ready_reason = "HANotReady";
  token_reason = "TokenNotAvailable";
  list_command = "config/floor_registry/list";
  create_command = "config/floor_registry/create";
  update_command = "config/floor_registry/update";
  delete_command = "config/floor_registry/delete";
  entry_id = λ e. e.floor_id;
  entry_name = λ e. e.name;
  spec_name = λ s. s.name;
  needs_update = λ s l e. needs_floor_update s e;
  create_payload = λ s l. create_floor s;
  update_payload = λ id s l. update_floor id s;
  delete_payload = delete_floor;
}

-- A floor refers to nothing that is to be resolved.
unfoldable pub no_references : {W S : Type 0} → Session → S → W → Resolved (Unit {0}) × W
no_references s spec w = (links tt, w)

unfoldable pub reconcile_floor : {W J : Type 0} → Env W FloorSpec FloorEntry J → W → Reply × W
reconcile_floor env = reconcile env floor_kind no_references

-- `handleDeletion` and `setCondition` of the floor controller.
abbrev pub handle_floor_deletion :
    {W J : Type 0} → Env W FloorSpec FloorEntry J → Resource FloorSpec → W → W
handle_floor_deletion env = handle_deletion env floor_kind

abbrev pub set_floor_condition :
    {W J : Type 0} → Env W FloorSpec FloorEntry J → Verdict FloorSpec → W → Reply × W
set_floor_condition env = set_condition env floor_kind

-- A floor has what the spec asks for.
pub record FloorReflects (spec : FloorSpec) (e : FloorEntry) : Type 0 where
  pub name : e.name ≡ spec.name
  pub icon : e.icon ≡ spec.icon
  pub level : e.level ≡ spec.level

level_differs-false_iff : (a b : Option ℤ) → (level_differs a b ≡ false) ↔ (b ≡ a)
unfolding level_differs
level_differs-false_iff (some a) (some b) = ground (arith, eq_int_iff a b)
level_differs-false_iff none none = ground arith
level_differs-false_iff none (some b) = ground arith
level_differs-false_iff (some a) none = ground arith

-- A floor is updated exactly when its name, its icon or its level is not what the spec asks for.
pub needs_floor_update-false_iff :
    (spec : FloorSpec) (e : FloorEntry) → (needs_floor_update spec e ≡ false) ↔ FloorReflects spec e
unfolding needs_floor_update
needs_floor_update-false_iff spec e = ground (
  arith,
  eq_iff e.name spec.name,
  eq_iff spec.icon e.icon,
  level_differs-false_iff spec.level e.level,
)
