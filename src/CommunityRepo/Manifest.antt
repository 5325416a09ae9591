-- ===== src/CommunityRepo/Manifest.antt =====
-- internal/communityrepo/manifest.go and target.go: what a fetched repository installs, and as what.
-- JSON and Unicode case folding are the record `Library`; an inner error is left out.
use homeassistant_operator.Prelude.{
  String, Bool, true, not, ◌&&◌, Option, none, some, List, [], ◌∷◌, ◌++◌, ◌==◌, eqb, any,
  if◌then◌else◌,
}
use homeassistant_operator.GoPath.{Bytes, slash, dot, bytes_eq, has_slash, clean}
use homeassistant_operator.CommunityRepo.{ExtractedRepo, Fetched, ok, err, not_exist}
use homeassistant_operator.CommunityRepo.Query.{DirEntry, read_file, exists, read_dir}

pub record HacsManifest : Type 0 where
  pub category : String
  pub filename : Bytes

pub record Library : Type 0 where
  pub hacs_manifest : Bytes → Option HacsManifest
  pub component_domain : Bytes → Option Bytes
  pub equal_fold : Bytes → Bytes → Bool

pub record Resolved : Type 0 where
  pub source_path : Bytes
  pub resolved_target : Bytes

pub data Refusal : Type 0 where
  category_mismatch structure_invalid unreadable : Refusal

pub data Outcome (A : Type 0) : Type 0 where
  resolved : A → Outcome A
  refused : Refusal → Outcome A

-- `path.Ext`: from the last dot of the last element on.
unfoldable pub ext : Bytes → Bytes
ext [] = []
ext (c ∷ s) =
    let rest = ext s in
    if not (bytes_eq rest []) then rest else if eqb c 46 && not (has_slash s) then c ∷ s else []

-- `strings.TrimSuffix`
unfoldable pub trim_suffix : Bytes → Bytes → Bytes
trim_suffix [] t = []
trim_suffix (c ∷ s) t = let rest = trim_suffix s t in if bytes_eq (c ∷ s) t then [] else c ∷ rest

-- `path.Base`
unfoldable pub drop_slashes : Bytes → Bytes
drop_slashes [] = []
drop_slashes (c ∷ s) =
    let rest = drop_slashes s in if eqb c slash && bytes_eq rest [] then [] else c ∷ rest

unfoldable pub after_slash : Bytes → Bytes
after_slash [] = []
after_slash (c ∷ s) = let rest = after_slash s in if has_slash (c ∷ s) then rest else c ∷ s

unfoldable pub base : Bytes → Bytes
unfolding drop_slashes after_slash
base [] = dot
base (c ∷ s) = let t = after_slash (drop_slashes (c ∷ s)) in if bytes_eq t [] then slash ∷ [] else t

unfoldable pub without_ext : Bytes → Bytes → Bytes
unfolding ext trim_suffix
without_ext name file = trim_suffix name (ext file)

-- `path.Join` of two elements that are not empty
abbrev pub join : Bytes → Bytes → Bytes
join a b = clean (a ++ slash ∷ b)

unfoldable pub dir_names : List DirEntry → List Bytes
dir_names [] = []
dir_names (e ∷ es) = let rest = dir_names es in if e.is_dir then e.name ∷ rest else rest

abbrev pub custom_components : Bytes
custom_components =
    99 ∷ 117 ∷ 115 ∷ 116 ∷ 111 ∷ 109 ∷ 95 ∷ 99 ∷ 111 ∷ 109 ∷ 112 ∷ 111 ∷ 110 ∷ 101 ∷ 110 ∷ 116 ∷ 115
    ∷ []

abbrev pub manifest_json : Bytes
manifest_json = 109 ∷ 97 ∷ 110 ∷ 105 ∷ 102 ∷ 101 ∷ 115 ∷ 116 ∷ 46 ∷ 106 ∷ 115 ∷ 111 ∷ 110 ∷ []

abbrev pub hacs_json : Bytes
hacs_json = 104 ∷ 97 ∷ 99 ∷ 115 ∷ 46 ∷ 106 ∷ 115 ∷ 111 ∷ 110 ∷ []

abbrev pub themes : Bytes
themes = 116 ∷ 104 ∷ 101 ∷ 109 ∷ 101 ∷ 115 ∷ []

abbrev pub python_scripts : Bytes
python_scripts =
    112 ∷ 121 ∷ 116 ∷ 104 ∷ 111 ∷ 110 ∷ 95 ∷ 115 ∷ 99 ∷ 114 ∷ 105 ∷ 112 ∷ 116 ∷ 115 ∷ []

abbrev pub custom_templates : Bytes
custom_templates =
    99 ∷ 117 ∷ 115 ∷ 116 ∷ 111 ∷ 109 ∷ 95 ∷ 116 ∷ 101 ∷ 109 ∷ 112 ∷ 108 ∷ 97 ∷ 116 ∷ 101 ∷ 115 ∷ []

module _ (lib : Library) where
  unfoldable pub on_hacs : Fetched Bytes → Outcome (Option HacsManifest)
  on_hacs (err (not_exist p)) = resolved none
  on_hacs (err _) = refused unreadable
  on_hacs (ok contents) = elim (lib.hacs_manifest contents) [
    | none ↦ refused structure_invalid
    | some m ↦ resolved (some m)
  ]

  unfoldable pub read_hacs_manifest : ExtractedRepo → Outcome (Option HacsManifest)
  unfolding on_hacs
  read_hacs_manifest repo = on_hacs (read_file repo hacs_json)

  unfoldable pub on_component : Bytes → Fetched Bytes → Outcome Resolved
  on_component name (err _) = refused structure_invalid
  on_component name (ok contents) = elim (lib.component_domain contents) [
    | none ↦ refused structure_invalid
    | some domain ↦
        if bytes_eq domain []
        then refused structure_invalid
        else resolved
            (record { source_path = join custom_components name; resolved_target = domain })
  ]

  unfoldable pub on_directories : ExtractedRepo → List Bytes → Outcome Resolved
  unfolding on_component
  on_directories repo (name ∷ []) =
      on_component name (read_file repo (join (join custom_components name) manifest_json))
  on_directories repo _ = refused structure_invalid

  unfoldable pub on_components : ExtractedRepo → Fetched (List DirEntry) → Outcome Resolved
  unfolding on_directories dir_names
  on_components repo (err _) = refused structure_invalid
  on_components repo (ok entries) = on_directories repo (dir_names entries)

  unfoldable pub resolve_integration : ExtractedRepo → Outcome Resolved
  unfolding on_components
  resolve_integration repo = on_components repo (read_dir repo custom_components)

  -- No extension in the list means any.
  unfoldable pub accepts : List Bytes → Bytes → Bool
  unfolding ext
  accepts [] name = true
  accepts (x ∷ xs) name = any (λ t. lib.equal_fold (ext name) t) (x ∷ xs)

  unfoldable pub file_names : List Bytes → List DirEntry → List Bytes
  unfolding accepts
  file_names extensions [] = []
  file_names extensions (e ∷ es) =
      let rest = file_names extensions es in
      if not e.is_dir && accepts extensions e.name then e.name ∷ rest else rest

  unfoldable pub on_matches : Bytes → List Bytes → Outcome Resolved
  unfolding without_ext
  on_matches subdir (name ∷ []) = resolved (record {
    source_path = if bytes_eq subdir [] then name else join subdir name;
    resolved_target = without_ext name name;
  })
  on_matches subdir _ = refused structure_invalid

  unfoldable pub on_listing : Bytes → List Bytes → Fetched (List DirEntry) → Outcome Resolved
  unfolding on_matches file_names
  on_listing subdir extensions (err _) = refused structure_invalid
  on_listing subdir extensions (ok entries) = on_matches subdir (file_names extensions entries)

  unfoldable pub resolve_single_file : ExtractedRepo → Bytes → List Bytes → Outcome Resolved
  unfolding on_listing
  resolve_single_file repo subdir extensions =
      on_listing subdir extensions (read_dir repo (if bytes_eq subdir [] then dot else subdir))

  unfoldable pub resolve_plugin : ExtractedRepo → Option HacsManifest → Outcome Resolved
  unfolding resolve_single_file base without_ext
  resolve_plugin repo manifest =
      let js = resolve_single_file repo [] ((46 ∷ 106 ∷ 115 ∷ []) ∷ []) in
      elim manifest [
        | none ↦ js
        | some m ↦
            if bytes_eq m.filename []
            then js
            else if not (exists repo m.filename)
            then refused structure_invalid
            else resolved (record {
              source_path = m.filename;
              resolved_target = without_ext (base m.filename) m.filename;
            })
      ]

  unfoldable pub by_category : ExtractedRepo → String → Option HacsManifest → Outcome Resolved
  unfolding resolve_integration resolve_plugin resolve_single_file
  by_category repo category manifest =
      if category == "integration"
      then resolve_integration repo
      else if category == "plugin"
      then resolve_plugin repo manifest
      else if category == "theme"
      then resolve_single_file repo themes
          ((46 ∷ 121 ∷ 97 ∷ 109 ∷ 108 ∷ []) ∷ (46 ∷ 121 ∷ 109 ∷ 108 ∷ []) ∷ [])
      else if category == "python_script"
      then resolve_single_file repo python_scripts ((46 ∷ 112 ∷ 121 ∷ []) ∷ [])
      else if category == "template"
      then resolve_single_file repo custom_templates []
      else refused structure_invalid

  unfoldable pub on_manifest :
      ExtractedRepo → String → Outcome (Option HacsManifest) → Outcome Resolved
  unfolding by_category
  on_manifest repo category (refused e) = refused e
  on_manifest repo category (resolved none) = by_category repo category none
  on_manifest repo category (resolved (some m)) =
      if not (m.category == "") && not (m.category == category)
      then refused category_mismatch
      else by_category repo category (some m)

  unfoldable pub validate_and_resolve : ExtractedRepo → String → Outcome Resolved
  unfolding on_manifest read_hacs_manifest
  validate_and_resolve repo category = on_manifest repo category (read_hacs_manifest repo)

-- What a resource occupies on an instance.
pub record ConflictKey : Type 0 where
  pub home_assistant_name : Bytes
  pub category : Bytes
  pub resolved_target : Bytes

-- `ConflictKey.String`
unfoldable pub conflict_text : ConflictKey → Bytes
conflict_text k = k.home_assistant_name ++ slash ∷ (k.category ++ slash ∷ k.resolved_target)

pub new_conflict_key : Bytes → Bytes → Resolved → ConflictKey
new_conflict_key name category r = record {
  home_assistant_name = name;
  category = category;
  resolved_target = r.resolved_target;
}
