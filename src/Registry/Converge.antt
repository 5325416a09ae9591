-- ===== src/Registry/Converge.antt =====
-- The three kinds of registry entries, each brought to its spec and then left alone.
use homeassistant_operator.Prelude.{
  ◌≤◌, ℤ, String, ◌≡◌, ap, Option, none, some, List, [], eq_iff, arith, if◌then◌else◌, leb,
}
use homeassistant_operator.Cluster.{ok, lookup, is_true}
use homeassistant_operator.Credentials.{Session}
use homeassistant_operator.Registry.{
  Resource, Value, text, number, texts, null, Payload, Env, links, find_by_id, list_entries, ready,
  sync, set_condition, on_resolved, with_condition,
}
use homeassistant_operator.Registry.Reflect.{Faithful, IsRegistry, sync-Achieves}
use homeassistant_operator.Registry.Stable.{sync_twice}
use homeassistant_operator.Registry.Slices.{count}
use homeassistant_operator.Registry.Floor.{
  FloorSpec, FloorEntry, create_floor, update_floor, floor_kind, FloorReflects,
  needs_floor_update-false_iff,
}
use homeassistant_operator.Registry.Label.{
  LabelSpec, LabelEntry, create_label, update_label, label_kind, LabelReflects,
  needs_label_update-false_iff,
}
use homeassistant_operator.Registry.Area.{
  AreaSpec, AreaEntry, AreaLinks, AreaEnv, resolve_area, create_area, update_area, area_kind,
  AreaReflects, needs_area_update-false_iff,
}

-- The values that an entry shows for the data of a command: a value that is left out is empty.
abbrev as_text : Option Value → String
as_text (some (text v)) = v
as_text (some (number n)) = ""
as_text (some (texts xs)) = ""
as_text (some null) = ""
as_text none = ""

abbrev as_number : Option Value → Option ℤ
as_number (some (number n)) = some n
as_number (some (text v)) = none
as_number (some (texts xs)) = none
as_number (some null) = none
as_number none = none

abbrev as_texts : Option Value → List String
as_texts (some (texts xs)) = xs
as_texts (some (text v)) = []
as_texts (some (number n)) = []
as_texts (some null) = []
as_texts none = []

abbrev pub text_at : String → Payload → String
text_at key p = as_text (lookup key p)

abbrev pub number_at : String → Payload → Option ℤ
number_at key p = as_number (lookup key p)

abbrev pub texts_at : String → Payload → List String
texts_at key p = as_texts (lookup key p)

pub record FloorCarries (p : Payload) (e : FloorEntry) : Type 0 where
  pub name : e.name ≡ text_at "name" p
  pub icon : e.icon ≡ text_at "icon" p
  pub level : e.level ≡ number_at "level" p

pub record LabelCarries (p : Payload) (e : LabelEntry) : Type 0 where
  pub name : e.name ≡ text_at "name" p
  pub icon : e.icon ≡ text_at "icon" p
  pub color : e.color ≡ text_at "color" p

-- Home Assistant keeps the labels of an area as a set.
pub record AreaCarries (p : Payload) (e : AreaEntry) : Type 0 where
  pub name : e.name ≡ text_at "name" p
  pub icon : e.icon ≡ text_at "icon" p
  pub floor : e.floor_id ≡ text_at "floor_id" p
  pub labels :
      (x : String) → count x e.label_ids ≡ (if leb 1 (count x (texts_at "labels" p)) then 1 else 0)

abbrev AnyLinks : Unit {0} → Type 0
AnyLinks l = Unit

-- No label id stands twice.
abbrev pub AreDistinct : AreaLinks → Type 0
AreDistinct l = (x : String) → count x l.label_ids ≤ 1

floor_faithful : Faithful floor_kind AnyLinks FloorCarries (λ s l e. FloorReflects s e)
unfolding create_floor update_floor
floor_faithful = record {
  unchanged = λ s l e. needs_floor_update-false_iff s e;
  after_update = λ id s l e _ c. ground arith;
  after_create = λ s l e _ c. ground (arith, eq_iff s.icon "");
}

label_faithful : Faithful label_kind AnyLinks LabelCarries (λ s l e. LabelReflects s e)
unfolding create_label update_label
label_faithful = record {
  unchanged = λ s l e. needs_label_update-false_iff s e;
  after_update = λ id s l e _ c. ground arith;
  after_create = λ s l e _ c. ground (arith, eq_iff s.icon "", eq_iff s.color "");
}

area_created :
    (s : AreaSpec) (l : AreaLinks) (e : AreaEntry)
    → AreDistinct l
    → AreaCarries (create_area s l) e
    → AreaReflects s l e
unfolding create_area
area_created s l e d c = record {
  name = ground (arith, c.name);
  icon = ground (arith, c.icon, eq_iff s.icon "");
  floor = ground (arith, c.floor, eq_iff s.icon "", eq_iff l.floor_id "");
  labels = λ x. ground (arith, c.labels x, d x, eq_iff s.icon "", eq_iff l.floor_id "");
}

area_faithful : Faithful area_kind AreDistinct AreaCarries AreaReflects
unfolding update_area
area_faithful = record {
  unchanged = needs_area_update-false_iff;
  after_update = λ id s l e d c. record {
    name = ground arith;
    icon = ground arith;
    floor = ground arith;
    labels = λ x. ground (arith, c.labels x, d x);
  };
  after_create = area_created;
}

-- After an area became Ready, consider a later pass over the stored resource whose references resolve
-- to the same ids, while Home Assistant still holds the area entries that the first pass left. From
-- the resolved references on, the pass sends the list command of areas, no create and no update, and
-- writes a status with Ready True. The label ids are distinct, the list command is answered, and Home
-- Assistant keeps its registry laws.
pub area_twice :
    {W J : Type 0} (a : AreaEnv W J) (shows : W → List AreaEntry)
    (law : IsRegistry a.env area_kind AreaCarries shows) (s : Session) (r : Resource AreaSpec)
    (l : AreaLinks) (w w' : W) (entries : List AreaEntry)
    → AreDistinct l
    → (sync a.env area_kind s r l w).0.status ≡ is_true
    → shows w' ≡ shows (sync a.env area_kind s r l w).1
    → (list_entries a.env area_kind s w').0 ≡ ok entries
    → on_resolved a.env area_kind
        (resolve_area a)
        s
        (with_condition (sync a.env area_kind s r l w).0)
        (links l, w')
      ≡ set_condition a.env area_kind
          (ready a.env area_kind (with_condition (sync a.env area_kind s r l w).0))
          (list_entries a.env area_kind s w').1
unfolding on_resolved
area_twice a shows law s r l w w' entries d h same listed =
    ap (λ x. set_condition a.env area_kind x.0 x.1)
      (sync_twice area_faithful law s l r w w' entries d h same listed)

-- When the floor controller reports a floor Ready, Home Assistant holds an entry with the id that it
-- stores in the status, and the entry has the name, the icon and the level of the spec. Home
-- Assistant keeps its registry laws.
pub floor_converges :
    {W J : Type 0} (env : Env W FloorSpec FloorEntry J) (shows : W → List FloorEntry)
    (law : IsRegistry env floor_kind FloorCarries shows) (s : Session) (r : Resource FloorSpec)
    (w : W)
    → (sync env floor_kind s r tt w).0.status ≡ is_true
    → (e : FloorEntry) × (find_by_id
          (λ x. x.floor_id)
          (sync env floor_kind s r tt w).0.resource.id
          (shows (sync env floor_kind s r tt w).1)
        ≡ some e)
      × FloorReflects (sync env floor_kind s r tt w).0.resource.spec e
floor_converges env shows law s r w h = sync-Achieves floor_faithful law s tt tt r w h

-- When the label controller reports a label Ready, Home Assistant holds an entry with the id that it
-- stores in the status, and the entry has the name, the icon and the color of the spec. Home
-- Assistant keeps its registry laws.
pub label_converges :
    {W J : Type 0} (env : Env W LabelSpec LabelEntry J) (shows : W → List LabelEntry)
    (law : IsRegistry env label_kind LabelCarries shows) (s : Session) (r : Resource LabelSpec)
    (w : W)
    → (sync env label_kind s r tt w).0.status ≡ is_true
    → (e : LabelEntry) × (find_by_id
          (λ x. x.label_id)
          (sync env label_kind s r tt w).0.resource.id
          (shows (sync env label_kind s r tt w).1)
        ≡ some e)
      × LabelReflects (sync env label_kind s r tt w).0.resource.spec e
label_converges env shows law s r w h = sync-Achieves label_faithful law s tt tt r w h
