-- ===== src/CommunityRepo/ManifestTests.antt =====
-- internal/communityrepo/manifest.go and target.go: a repository with one template.
use homeassistant_operator.Prelude.{◌≡◌, refl, true, some, [], ◌∷◌, ◌++◌}
use homeassistant_operator.GoPath.{Bytes, slash, clean, bytes_eq}
use homeassistant_operator.CommunityRepo.{FileEntry, ExtractedRepo, get}
use homeassistant_operator.CommunityRepo.Query.{read_file}
use homeassistant_operator.CommunityRepo.Manifest.{
  HacsManifest, Library, Resolved, refused, category_mismatch, on_hacs, read_hacs_manifest,
  on_manifest, validate_and_resolve, custom_templates, hacs_json, ConflictKey,
}
use homeassistant_operator.CommunityRepo.Keys.{conflict_text-injective}

abbrev template : HacsManifest
template = record { category = "template"; filename = [] }

abbrev library : Library
library = record {
  hacs_manifest = λ _. some template;
  component_domain = λ b. some b;
  equal_fold = bytes_eq;
}

abbrev entry : FileEntry
entry = record { content = 123 ∷ 125 ∷ []; retained = true; size = 2 }

-- custom_templates/a.b
abbrev template_path : Bytes
template_path = custom_templates ++ slash ∷ 97 ∷ 46 ∷ 98 ∷ []

abbrev repository : ExtractedRepo
repository = record {
  files = (hacs_json, entry) ∷ (template_path, entry) ∷ [];
  dirs = custom_templates ∷ [];
}

abbrev target : Resolved
target = record { source_path = template_path; resolved_target = 97 ∷ [] }

mismatches : validate_and_resolve library repository "theme" ≡ refused category_mismatch
unfolding get validate_and_resolve on_manifest read_hacs_manifest on_hacs read_file clean
mismatches = refl

abbrev key : ConflictKey
key = record {
  home_assistant_name = 104 ∷ [];
  category = 116 ∷ [];
  resolved_target = 97 ∷ slash ∷ 98 ∷ [];
}

conflict_text-injective_example : key ≡ key
conflict_text-injective_example = conflict_text-injective key key refl refl refl refl refl
