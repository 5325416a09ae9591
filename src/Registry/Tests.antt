-- ===== src/Registry/Tests.antt =====
-- The theorems about areas, floors and labels at concrete resources.
use homeassistant_operator.Prelude.{
  String, ◌≡◌, ◌↔◌, refl, true, false, Option, none, some, List, [], ◌∷◌, eq_iff, arith, leb,
  if◌then◌else◌, pos,
}
use homeassistant_operator.Cluster.{ok, is_true}
use homeassistant_operator.Credentials.{Session}
use homeassistant_operator.Registry.{
  Resource, Payload, texts, Env, Verdict, find_by_id, find_by_name, list_entries, create_entry,
  ready, not_ready, after_create, created_id, sync_existing, adopt_or_create, sync_entries, on_list,
  sync, set_condition, on_resolved, links, with_condition, decoded, empty,
}
use homeassistant_operator.Registry.Reflect.{IsRegistry}
use homeassistant_operator.Registry.Toy.{Response, toy, shown, toy_law}
use homeassistant_operator.Registry.Converge.{
  text_at, number_at, texts_at, FloorCarries, LabelCarries, AreaCarries, AreDistinct, area_twice,
  floor_converges, label_converges,
}
use homeassistant_operator.Registry.Create.{
  UpdatesAtMost, listed_name_not_created, repeated_label_never_settles,
}
use homeassistant_operator.Registry.Slices.{count, string_slices_equal, string_slices_equal_iff}
use homeassistant_operator.Registry.Floor.{
  FloorSpec, FloorEntry, floor_kind, FloorReflects, create_floor, needs_floor_update,
  needs_floor_update-false_iff,
}
use homeassistant_operator.Registry.Label.{
  LabelSpec, LabelEntry, label_kind, LabelReflects, create_label, needs_label_update,
  needs_label_update-false_iff,
}
use homeassistant_operator.Registry.Area.{
  AreaSpec, AreaEntry, AreaLinks, AreaEnv, resolve_area, area_kind, AreaReflects, create_area,
  update_area, needs_area_update, needs_area_update-false_iff,
}

dedup : List String → List String
dedup [] = []
dedup (x ∷ xs) = let rest = dedup xs in if leb 1 (count x rest) then rest else x ∷ rest

count-dedup :
    (x : String) (xs : List String) → count x (dedup xs) ≡ (if leb 1 (count x xs) then 1 else 0)
unfolding dedup
count-dedup x [] = refl
count-dedup x (y ∷ ys) = ground (arith, count-dedup x ys, count-dedup y ys, eq_iff y x)

abbrev area_of : Payload → AreaEntry
area_of p = record {
  area_id = "a1";
  name = text_at "name" p;
  icon = text_at "icon" p;
  floor_id = text_at "floor_id" p;
  label_ids = dedup (texts_at "labels" p);
}

abbrev floor_of : Payload → FloorEntry
floor_of p = record {
  floor_id = "a1";
  name = text_at "name" p;
  level = number_at "level" p;
  icon = text_at "icon" p;
}

abbrev label_of : Payload → LabelEntry
label_of p = record {
  label_id = "a1";
  name = text_at "name" p;
  icon = text_at "icon" p;
  color = text_at "color" p;
}

abbrev resource : {S : Type 0} → S → Resource S
resource spec = record {
  name = "r";
  namespace = "home";
  generation = 1;
  deleting = false;
  has_finalizer = true;
  home_assistant_ref = "ha";
  spec = spec;
  id = "";
  observed_generation = 0;
  last_error = empty;
  ready = none;
}

abbrev session : Session
session = record { url = record { service = "ha"; namespace = "home"; port = 8123 }; token = "t" }

abbrev kitchen : AreaSpec
kitchen = record {
  name = "Kitchen";
  floor_name = "Ground";
  icon = "";
  labels = "warm" ∷ "wet" ∷ [];
}

abbrev kitchen_links : AreaLinks
kitchen_links = record { floor_id = "f1"; label_ids = "l1" ∷ "l2" ∷ [] }

abbrev ground_floor : FloorSpec
ground_floor = record { name = "Ground"; level = some (pos 0); icon = "mdi:home" }

abbrev warm : LabelSpec
warm = record { name = "Warm"; icon = ""; color = "red" }

distinct_links : AreDistinct kitchen_links
distinct_links x = ground (arith, eq_iff "l1" x, eq_iff "l2" x, eq_iff "l1" "l2")

area_law : IsRegistry (toy area_kind area_of) area_kind AreaCarries (shown area_kind area_of)
area_law =
    toy_law area_kind area_of AreaCarries (λ p. refl)
      (λ p. record {
        name = refl;
        icon = refl;
        floor = refl;
        labels = λ x. count-dedup x (texts_at "labels" p);
      })
      refl refl refl

floor_law : IsRegistry (toy floor_kind floor_of) floor_kind FloorCarries (shown floor_kind floor_of)
floor_law =
    toy_law floor_kind floor_of FloorCarries (λ p. refl)
      (λ p. record { name = refl; icon = refl; level = refl }) refl refl refl

label_law : IsRegistry (toy label_kind label_of) label_kind LabelCarries (shown label_kind label_of)
label_law =
    toy_law label_kind label_of LabelCarries (λ p. refl)
      (λ p. record { name = refl; icon = refl; color = refl }) refl refl refl

create_runs : Unit {0}
unfolding sync on_list list_entries sync_entries adopt_or_create sync_existing create_entry
    created_id after_create ready not_ready decoded create_area create_floor create_label dedup
create_runs = tt

abbrev area_env : Env (Option Payload) AreaSpec AreaEntry (Response AreaEntry)
area_env = toy area_kind area_of

abbrev shown_areas : Option Payload → List AreaEntry
shown_areas = shown area_kind area_of

-- An instance with one floor and two labels, beside the areas.
abbrev house : AreaEnv (Option Payload) (Response AreaEntry)
house = record {
  env = area_env;
  decode_floors =
      λ _. some (record { floor_id = "f1"; name = "Ground"; level = none; icon = "" } ∷ []);
  decode_labels = λ _. some (
      record { label_id = "l1"; name = "warm"; icon = ""; color = "" }
      ∷ record { label_id = "l2"; name = "wet"; icon = ""; color = "" }
      ∷ []);
}

abbrev kitchen_made : Verdict AreaSpec × Option Payload
kitchen_made =
    sync area_env area_kind session (resource kitchen) kitchen_links
      (resolve_area house session kitchen none).1

kitchen_ready : kitchen_made.0.status ≡ is_true
unfolding create_runs resolve_area
kitchen_ready = refl

kitchen_listed :
    (list_entries area_env area_kind session kitchen_made.1).0 ≡ ok (shown_areas kitchen_made.1)
unfolding create_runs resolve_area
kitchen_listed = refl

area_twice_example :
    on_resolved area_env area_kind
      (resolve_area house)
      session
      (with_condition kitchen_made.0)
      (links kitchen_links, kitchen_made.1)
    ≡ set_condition area_env area_kind
        (ready area_env area_kind (with_condition kitchen_made.0))
        (list_entries area_env area_kind session kitchen_made.1).1
area_twice_example =
    area_twice house shown_areas area_law session (resource kitchen) kitchen_links
      (resolve_area house session kitchen none).1 kitchen_made.1 (shown_areas kitchen_made.1)
      distinct_links kitchen_ready refl kitchen_listed

abbrev floor_env : Env (Option Payload) FloorSpec FloorEntry (Response FloorEntry)
floor_env = toy floor_kind floor_of

abbrev floor_made : Verdict FloorSpec × Option Payload
floor_made = sync floor_env floor_kind session (resource ground_floor) tt none

floor_ready : floor_made.0.status ≡ is_true
unfolding create_runs
floor_ready = refl

floor_converges_example :
    (e : FloorEntry) × (find_by_id
        (λ x. x.floor_id)
        floor_made.0.resource.id
        (shown floor_kind floor_of floor_made.1)
      ≡ some e)
    × FloorReflects floor_made.0.resource.spec e
floor_converges_example =
    floor_converges floor_env (shown floor_kind floor_of) floor_law session (resource ground_floor)
      none floor_ready

abbrev label_env : Env (Option Payload) LabelSpec LabelEntry (Response LabelEntry)
label_env = toy label_kind label_of

abbrev label_made : Verdict LabelSpec × Option Payload
label_made = sync label_env label_kind session (resource warm) tt none

label_ready : label_made.0.status ≡ is_true
unfolding create_runs
label_ready = refl

label_converges_example :
    (e : LabelEntry) × (find_by_id
        (λ x. x.label_id)
        label_made.0.resource.id
        (shown label_kind label_of label_made.1)
      ≡ some e)
    × LabelReflects label_made.0.resource.spec e
label_converges_example =
    label_converges label_env (shown label_kind label_of) label_law session (resource warm) none
      label_ready

kitchen_named :
    find_by_name (λ x. x.name) "Kitchen" (shown_areas kitchen_made.1)
    ≡ some (area_of (create_area kitchen kitchen_links))
unfolding create_runs resolve_area
kitchen_named = refl

listed_name_not_created_example :
    UpdatesAtMost area_env area_kind session kitchen_links
      (resource kitchen)
      (list_entries area_env area_kind session kitchen_made.1).1
      (sync area_env area_kind session (resource kitchen) kitchen_links kitchen_made.1).1
listed_name_not_created_example =
    listed_name_not_created area_env area_kind session kitchen_links (resource kitchen)
      (shown_areas kitchen_made.1) kitchen_made.1 (area_of (create_area kitchen kitchen_links))
      kitchen_listed kitchen_named

abbrev twice_warm : AreaLinks
twice_warm = record { floor_id = ""; label_ids = "l1" ∷ "l1" ∷ [] }

abbrev once_warm : AreaEntry
once_warm = record {
  area_id = "a1";
  name = "Kitchen";
  icon = "";
  floor_id = "";
  label_ids = "l1" ∷ [];
}

abbrev once_labelled : Payload
once_labelled = ("labels", texts ("l1" ∷ [])) ∷ []

abbrev settled_kitchen : Resource AreaSpec
settled_kitchen = record (resource kitchen) { id = "a1" }

once_listed :
    (list_entries area_env area_kind session (some once_labelled)).0
    ≡ ok (area_of once_labelled ∷ [])
unfolding create_runs
once_listed = refl

repeated_label_never_settles_example :
    (sync area_env area_kind session settled_kitchen twice_warm (some once_labelled)).1
    ≡ (area_env.send session "config/area_registry/update"
        (update_area "a1" kitchen twice_warm)
        (list_entries area_env area_kind session (some once_labelled)).1).1
unfolding dedup
repeated_label_never_settles_example =
    repeated_label_never_settles area_env session settled_kitchen twice_warm (some once_labelled)
      (area_of once_labelled ∷ []) (area_of once_labelled) "l1" once_listed refl refl (omega arith)
      (omega arith)

string_slices_equal_iff_example :
    (string_slices_equal ("a" ∷ "b" ∷ []) ("b" ∷ "a" ∷ []) ≡ true)
    ↔ ((x : String) → count x ("a" ∷ "b" ∷ []) ≡ count x ("b" ∷ "a" ∷ []))
string_slices_equal_iff_example = string_slices_equal_iff ("a" ∷ "b" ∷ []) ("b" ∷ "a" ∷ [])

string_slices_run :
    (string_slices_equal ("a" ∷ "b" ∷ []) ("b" ∷ "a" ∷ []) ≡ true)
    × (string_slices_equal ("a" ∷ "a" ∷ []) ("a" ∷ "b" ∷ []) ≡ false)
unfolding string_slices_equal
string_slices_run = (refl, refl)

needs_floor_update-false_iff_example :
    (needs_floor_update ground_floor (floor_of (create_floor ground_floor)) ≡ false)
    ↔ FloorReflects ground_floor (floor_of (create_floor ground_floor))
needs_floor_update-false_iff_example =
    needs_floor_update-false_iff ground_floor (floor_of (create_floor ground_floor))

needs_area_update-false_iff_example :
    (needs_area_update kitchen twice_warm once_warm ≡ false)
    ↔ AreaReflects kitchen twice_warm once_warm
needs_area_update-false_iff_example = needs_area_update-false_iff kitchen twice_warm once_warm

abbrev warm_label : LabelSpec
warm_label = record { name = "warm"; icon = ""; color = "red" }

needs_label_update-false_iff_example :
    (needs_label_update warm_label
        (record { label_id = "w"; name = "warm"; icon = ""; color = "blue" })
      ≡ false)
    ↔ LabelReflects warm_label (record { label_id = "w"; name = "warm"; icon = ""; color = "blue" })
needs_label_update-false_iff_example =
    needs_label_update-false_iff warm_label
      (record { label_id = "w"; name = "warm"; icon = ""; color = "blue" })
