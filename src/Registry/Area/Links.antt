-- ===== src/Registry/Area/Links.antt =====
-- internal/controller/homeassistantarea_controller.go: what the references of an area resolve to.
use mathlib.Core.Path.{subst}
use homeassistant_operator.Prelude.{
  ◌≤◌, String, ◌≡◌, ◌⊎◌, ◌↔◌, ◌∙◌, refl, sym, ap, true, some, List, [], ◌∷◌, ◌==◌, eq_iff, eq_refl,
  any, arith, Bool-cases, Option-cases, inl, inr,
}
use homeassistant_operator.Cluster.{Result, ok, err}
use homeassistant_operator.Credentials.{Session}
use homeassistant_operator.Registry.{Resolved, links, unresolved, find_by_name}
use homeassistant_operator.Registry.Floor.{FloorEntry}
use homeassistant_operator.Registry.Label.{LabelEntry}
use homeassistant_operator.Registry.Slices.{count}
use homeassistant_operator.Registry.Area.{
  AreaSpec, AreaLinks, AreaEnv, label_ids_of, list_floors, list_labels, floor_found, resolve_floor,
  labels_found, resolve_labels, with_labels, with_floor, resolve_area,
}

-- The id is that of the first label that has one of the names.
pub record IsNamed (x : String) (labels : List LabelEntry) (names : List String) : Type 0 where
  pub name : String
  pub label : LabelEntry
  pub listed : any (λ n. n == name) names ≡ true
  pub found : find_by_name (λ e. e.name) name labels ≡ some label
  pub id : label.label_id ≡ x

count-IsNamed :
    (x : String) (labels : List LabelEntry) (names : List String)
    → 1 ≤ count x (label_ids_of labels names)
    → IsNamed x labels names
unfolding label_ids_of
count-IsNamed x labels [] h = absurd (omega (arith, h))
count-IsNamed x labels (n ∷ ns) h = elim (Option-cases (find_by_name (λ e. e.name) n labels)) [
  | inl gone ↦
      let t = count-IsNamed x labels ns (rw (gone, label_ids_of) at h) in
      record {
        name = t.name;
        label = t.label;
        listed = ground (arith, t.listed);
        found = t.found;
        id = t.id;
      }
  | inr (e, found) ↦ elim (Bool-cases (e.label_id == x)) [
    | inl same ↦ record {
      name = n;
      label = e;
      listed = ground (arith, eq_refl n);
      found = found;
      id = (eq_iff e.label_id x).0 same;
    }
    | inr other ↦
        let h' : 1 ≤ count x (e.label_id ∷ label_ids_of labels ns) =
          rw (found, label_ids_of) at h in
        let t = count-IsNamed x labels ns (ground (arith, h', other)) in
        record {
          name = t.name;
          label = t.label;
          listed = ground (arith, t.listed);
          found = t.found;
          id = t.id;
        }
  ]
]

IsNamed-count :
    (x name : String) (e : LabelEntry) (labels : List LabelEntry) (names : List String)
    → any (λ n. n == name) names ≡ true
    → find_by_name (λ e. e.name) name labels ≡ some e
    → e.label_id ≡ x
    → 1 ≤ count x (label_ids_of labels names)
unfolding label_ids_of
IsNamed-count x name e labels [] h found id = cc
IsNamed-count x name e labels (n ∷ ns) h found id = elim (Bool-cases (n == name)) [
  | inl same ↦
      let first : find_by_name (λ e. e.name) n labels ≡ some e =
        rw ((eq_iff n name).0 same) found in
      rw (first, label_ids_of) (ground (arith, eq_iff e.label_id x, id))
  | inr other ↦
      let rest = IsNamed-count x name e labels ns (ground (arith, h, other)) found id in
      elim (Option-cases (find_by_name (λ e. e.name) n labels)) [
        | inl gone ↦ rw (gone, label_ids_of) rest
        | inr (f, first) ↦ rw (first, label_ids_of) (ground (arith, rest))
      ]
]

module _ {W J : Type 0} (a : AreaEnv W J) (s : Session) (spec : AreaSpec) where
  -- The floor id is that of the first listed floor with the name in the spec, or "" without a name.
  pub data IsFloor (w : W) (id : String) : Type 0 where
    without : spec.floor_name ≡ "" → id ≡ "" → IsFloor w id
    within :
        (floors : List FloorEntry) (f : FloorEntry)
        → (list_floors a s w).0 ≡ ok floors
        → find_by_name (λ e. e.name) spec.floor_name floors ≡ some f
        → f.floor_id ≡ id
        → IsFloor w id

  -- What the references of the spec stand for when they are read in the world `w`: the label ids are
  -- those of the names that a listed label has, and a name that no label has stands for none.
  pub record IsLinked (w : W) (l : AreaLinks) : Type 0 where
    pub floor : IsFloor w l.floor_id
    pub labels : List LabelEntry
    pub listed : (spec.labels ≡ []) ⊎ ((list_labels a s (resolve_floor a s spec w).1).0 ≡ ok labels)
    pub ids : (x : String) → (1 ≤ count x l.label_ids) ↔ IsNamed x labels spec.labels

  found-IsFloor :
      (w : W) (id : String) (r : Result (List FloorEntry))
      → (list_floors a s w).0 ≡ r
      → floor_found a spec.floor_name r ≡ links id
      → IsFloor w id
  unfolding floor_found
  found-IsFloor w id (err e) q h = cc
  found-IsFloor w id (ok floors) q h =
      elim (Option-cases (find_by_name (λ e. e.name) spec.floor_name floors)) [
        | inl gone ↦ absurd (cc (rw (gone, floor_found) at h))
        | inr (f, found) ↦ within floors f q found (cc (rw (found, floor_found) at h))
      ]

  resolve_floor-IsFloor :
      (w : W) (id : String) → (resolve_floor a s spec w).0 ≡ links id → IsFloor w id
  unfolding resolve_floor
  resolve_floor-IsFloor w id h = elim (Bool-cases (spec.floor_name == "")) [
    | inl unset ↦
        without ((eq_iff spec.floor_name "").0 unset) (cc (rw (unset, resolve_floor) at h))
    | inr given ↦ found-IsFloor w id (list_floors a s w).0 refl (rw (given, resolve_floor) at h)
  ]

  ids-IsNamed :
      (labels : List LabelEntry) (names : List String) (x : String)
      → (1 ≤ count x (label_ids_of labels names)) ↔ IsNamed x labels names
  ids-IsNamed labels names x = (
    count-IsNamed x labels names,
    λ n. IsNamed-count x n.name n.label labels names n.listed n.found n.id,
  )

  no_ids-IsNamed : (x : String) → (1 ≤ count x []) ↔ IsNamed x [] []
  unfolding label_ids_of
  no_ids-IsNamed x = ids-IsNamed [] [] x

  abbrev AreLabels : List String → W → List String → Type 0
  AreLabels names w ids =
      (labels : List LabelEntry) × ((names ≡ []) ⊎ ((list_labels a s w).0 ≡ ok labels))
      × ((x : String) → (1 ≤ count x ids) ↔ IsNamed x labels names)

  found-AreLabels :
      (names : List String) (w : W) (ids : List String) (r : Result (List LabelEntry))
      → (list_labels a s w).0 ≡ r
      → labels_found a names r ≡ links ids
      → AreLabels names w ids
  unfolding labels_found
  found-AreLabels names w ids (err e) q h = cc
  found-AreLabels names w ids (ok labels) q h =
      let same : label_ids_of labels names ≡ ids = cc h in
      (labels, inr q, λ x. rw same at (ids-IsNamed labels names x))

  resolve_labels-AreLabels :
      (names : List String) (w : W) (ids : List String)
      → (resolve_labels a s names w).0 ≡ links ids
      → AreLabels names w ids
  unfolding resolve_labels
  resolve_labels-AreLabels [] w ids h =
      let same : [] ≡ ids = cc h in
      ([], inl refl, λ x. subst (λ t. (1 ≤ count x t) ↔ IsNamed x [] []) same (no_ids-IsNamed x))
  resolve_labels-AreLabels (n ∷ ns) w ids h =
      found-AreLabels (n ∷ ns) w ids (list_labels a s w).0 refl h

  with_labels-links :
      (id : String) (x : Resolved (List String) × W) (l : AreaLinks)
      → (with_labels a id x).0 ≡ links l
      → (id ≡ l.floor_id) × (x.0 ≡ links l.label_ids)
  unfolding with_labels
  with_labels-links id (unresolved reason message, w) l h = cc
  with_labels-links id (links ids, w) l h =
      let same : (record { floor_id = id; label_ids = ids }) ≡ l = cc h in
      (ap (λ k. k.floor_id) same, ap (λ k. links k.label_ids) same)

  with_floor-IsLinked :
      (w : W) (x : Resolved String × W) (l : AreaLinks)
      → resolve_floor a s spec w ≡ x
      → (with_floor a s spec x).0 ≡ links l
      → IsLinked w l
  unfolding with_floor
  with_floor-IsLinked w (unresolved reason message, w') l q h = cc
  with_floor-IsLinked w (links id, w') l q h =
      let (floor, ids) = with_labels-links id (resolve_labels a s spec.labels w') l h in
      let (labels, read, named) = resolve_labels-AreLabels spec.labels w' l.label_ids ids in
      record {
        floor = resolve_floor-IsFloor w l.floor_id (ap (λ p. p.0) q ∙ ap (λ t. links t) floor);
        labels = labels;
        listed =
            subst (λ v. (spec.labels ≡ []) ⊎ ((list_labels a s v).0 ≡ ok labels))
              (sym (ap (λ p. p.1) q)) read;
        ids = named;
      }

  pub resolve_area-IsLinked :
      (w : W) (l : AreaLinks) → (resolve_area a s spec w).0 ≡ links l → IsLinked w l
  unfolding resolve_area
  resolve_area-IsLinked w l h = with_floor-IsLinked w (resolve_floor a s spec w) l refl h
