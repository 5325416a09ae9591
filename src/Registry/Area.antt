-- ===== src/Registry/Area.antt =====
-- internal/controller/homeassistantarea_controller.go: how the references of an area to its floor
-- and its labels are resolved, and what is particular to areas. The reconcile itself is that of
-- `Registry`.
pub mod Links
use homeassistant_operator.Prelude.{
  String, ◌≡◌, ◌↔◌, Bool, true, false, not, Option, none, some, List, [], ◌∷◌, ◌++◌, ◌==◌, eq_iff,
  arith, if◌then◌else◌,
}
use homeassistant_operator.Cluster.{Result, ok, err, Reply}
use homeassistant_operator.Credentials.{Session}
use homeassistant_operator.Registry.{
  text, texts, Payload, Kind, Env, Resolved, links, unresolved, reconcile, decoded, find_by_name,
  floor_not_found, failed_to_list_floors, failed_to_list_labels,
}
use homeassistant_operator.Registry.Floor.{FloorEntry, floor_kind, text_entry}
use homeassistant_operator.Registry.Label.{LabelEntry, label_kind}
use homeassistant_operator.Registry.Slices.{string_slices_equal, string_slices_equal_iff, count}

pub record AreaSpec : Type 0 where
  pub name : String
  pub floor_name : String
  pub icon : String
  pub labels : List String

pub record AreaEntry : Type 0 where
  pub area_id : String
  pub name : String
  pub icon : String
  pub floor_id : String
  pub label_ids : List String

-- What the references of an area resolve to.
pub record AreaLinks : Type 0 where
  pub floor_id : String
  pub label_ids : List String

unfoldable pub needs_area_update : AreaSpec → AreaLinks → AreaEntry → Bool
needs_area_update spec l e =
    if not (e.name == spec.name)
    then true
    else if not (spec.icon == e.icon)
    then true
    else if not (l.floor_id == e.floor_id)
    then true
    else if not (string_slices_equal l.label_ids e.label_ids)
    then true
    else false

labels_entry : List String → Payload
labels_entry [] = []
labels_entry (x ∷ xs) = ("labels", texts (x ∷ xs)) ∷ []

unfoldable pub create_area : AreaSpec → AreaLinks → Payload
unfolding labels_entry text_entry
create_area spec l =
    ("name", text spec.name)
    ∷ (text_entry "icon" spec.icon
        ++ (text_entry "floor_id" l.floor_id ++ labels_entry l.label_ids))

unfoldable pub update_area : String → AreaSpec → AreaLinks → Payload
update_area id spec l =
    ("area_id", text id)
    ∷ ("name", text spec.name)
    ∷ ("icon", text spec.icon)
    ∷ ("floor_id", text l.floor_id)
    ∷ ("labels", texts l.label_ids)
    ∷ []

abbrev pub delete_area : String → Payload
delete_area id = ("area_id", text id) ∷ []

abbrev pub area_kind : Kind AreaSpec AreaLinks AreaEntry
area_kind = record {
  ready_reason = "AreaReady";
  failed_reason = "AreaFailed";
  not_ready_reason = "HANotReady";
  token_reason = "TokenNotAvailable";
  list_command = "config/area_registry/list";
  create_command = "config/area_registry/create";
  update_command = "config/area_registry/update";
  delete_command = "config/area_registry/delete";
  entry_id = λ e. e.area_id;
  entry_name = λ e. e.name;
  spec_name = λ s. s.name;
  needs_update = needs_area_update;
  create_payload = create_area;
  update_payload = update_area;
  delete_payload = delete_area;
}

-- The ids of the labels that exist; a name that no label has is skipped.
unfoldable pub label_ids_of : List LabelEntry → List String → List String
label_ids_of labels [] = []
label_ids_of labels (name ∷ names) =
    let rest = label_ids_of labels names in
    elim (find_by_name (λ e. e.name) name labels) [ none ↦ rest | some e ↦ e.label_id ∷ rest ]

-- The environment of the area controller reads lists of floors and of labels too.
pub record AreaEnv (W J : Type 0) : Type 0 where
  pub env : Env W AreaSpec AreaEntry J
  pub decode_floors : J → Option (List FloorEntry)
  pub decode_labels : J → Option (List LabelEntry)

module _ {W J : Type 0} (a : AreaEnv W J) where
  pub list_floors : Session → W → Result (List FloorEntry) × W
  list_floors s w =
      let (r, w') = a.env.send s floor_kind.list_command [] w in (decoded a.decode_floors r, w')

  pub list_labels : Session → W → Result (List LabelEntry) × W
  list_labels s w =
      let (r, w') = a.env.send s label_kind.list_command [] w in (decoded a.decode_labels r, w')

  pub floor_found : String → Result (List FloorEntry) → Resolved String
  floor_found name (err e) = unresolved "AreaFailed" (failed_to_list_floors e)
  floor_found name (ok floors) = elim (find_by_name (λ e. e.name) name floors) [
    | none ↦ unresolved "FloorNotFound" (floor_not_found name)
    | some e ↦ links e.floor_id
  ]

  pub resolve_floor : Session → AreaSpec → W → Resolved String × W
  unfolding floor_found
  resolve_floor s spec w =
      if spec.floor_name == ""
      then (links "", w)
      else let (r, w') = list_floors s w in (floor_found spec.floor_name r, w')

  pub labels_found : List String → Result (List LabelEntry) → Resolved (List String)
  labels_found names (err e) = unresolved "AreaFailed" (failed_to_list_labels e)
  labels_found names (ok labels) = links (label_ids_of labels names)

  pub resolve_labels : Session → List String → W → Resolved (List String) × W
  unfolding labels_found
  resolve_labels s [] w = (links [], w)
  resolve_labels s (x ∷ xs) w = let (r, w') = list_labels s w in (labels_found (x ∷ xs) r, w')

  pub with_labels : String → Resolved (List String) × W → Resolved AreaLinks × W
  with_labels floor_id (unresolved reason message, w) = (unresolved reason message, w)
  with_labels floor_id (links ids, w) = (links (record { floor_id = floor_id; label_ids = ids }), w)

  pub with_floor : Session → AreaSpec → Resolved String × W → Resolved AreaLinks × W
  with_floor s spec (unresolved reason message, w) = (unresolved reason message, w)
  with_floor s spec (links id, w) = with_labels id (resolve_labels s spec.labels w)

  -- The floor first, then the labels.
  unfoldable pub resolve_area : Session → AreaSpec → W → Resolved AreaLinks × W
  unfolding with_labels with_floor resolve_floor resolve_labels list_floors list_labels decoded
  resolve_area s spec w = with_floor s spec (resolve_floor s spec w)

  unfoldable pub reconcile_area : W → Reply × W
  reconcile_area = reconcile a.env area_kind resolve_area

-- An area has the name and the icon of the spec, and the ids that its references resolved to, those
-- of the labels as a multiset.
pub record AreaReflects (spec : AreaSpec) (l : AreaLinks) (e : AreaEntry) : Type 0 where
  pub name : e.name ≡ spec.name
  pub icon : e.icon ≡ spec.icon
  pub floor : e.floor_id ≡ l.floor_id
  pub labels : (x : String) → count x l.label_ids ≡ count x e.label_ids

record SameFields (spec : AreaSpec) (l : AreaLinks) (e : AreaEntry) : Type 0 where
  name : e.name ≡ spec.name
  icon : e.icon ≡ spec.icon
  floor : e.floor_id ≡ l.floor_id
  labels : string_slices_equal l.label_ids e.label_ids ≡ true

area_fields_iff :
    (spec : AreaSpec) (l : AreaLinks) (e : AreaEntry)
    → (needs_area_update spec l e ≡ false) ↔ SameFields spec l e
unfolding needs_area_update
area_fields_iff spec l e =
    ground (arith, eq_iff e.name spec.name, eq_iff spec.icon e.icon, eq_iff l.floor_id e.floor_id)

-- Given the floor id and the label ids that the references of a spec resolved to, an area is left
-- alone exactly if it has the name and the icon of the spec, that floor id and, as a multiset, those
-- label ids. Otherwise it is updated.
pub needs_area_update-false_iff :
    (spec : AreaSpec) (l : AreaLinks) (e : AreaEntry)
    → (needs_area_update spec l e ≡ false) ↔ AreaReflects spec l e
needs_area_update-false_iff spec l e =
    let (to, from) = area_fields_iff spec l e in
    let (split, join) = string_slices_equal_iff l.label_ids e.label_ids in
    (
      λ h.
          let s = to h in
          record { name = s.name; icon = s.icon; floor = s.floor; labels = split s.labels },
      λ r. from (record { name = r.name; icon = r.icon; floor = r.floor; labels = join r.labels }),
    )
