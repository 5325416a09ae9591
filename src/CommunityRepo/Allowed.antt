-- ===== src/CommunityRepo/Allowed.antt =====
-- internal/communityrepo/manifest.go: which repositories are installed for a category.
use homeassistant_operator.Prelude.{true, String, ◌≡◌, ◌⊎◌, Option, none, some, [], ◌∷◌}
use homeassistant_operator.CommunityRepo.{ExtractedRepo, FileEntry, get}
use homeassistant_operator.CommunityRepo.Found.{IsIntegration, IsPlugin, IsSingleFile}
use homeassistant_operator.CommunityRepo.Manifest.{
  themes, python_scripts, custom_templates, HacsManifest, Library, Resolved, hacs_json,
}

-- The five categories, each with what the repository holds for it.
pub data IsResolved (lib : Library) (repo : ExtractedRepo) (m : Option HacsManifest)
    (category : String) (r : Resolved) : Type 0 where
  is_integration :
      category ≡ "integration" → IsIntegration lib repo r → IsResolved lib repo m category r
  is_plugin : category ≡ "plugin" → IsPlugin lib repo m r → IsResolved lib repo m category r
  is_theme :
      category ≡ "theme"
      → IsSingleFile lib repo themes
          ((46 ∷ 121 ∷ 97 ∷ 109 ∷ 108 ∷ []) ∷ (46 ∷ 121 ∷ 109 ∷ 108 ∷ []) ∷ [])
          r
      → IsResolved lib repo m category r
  is_python_script :
      category ≡ "python_script"
      → IsSingleFile lib repo python_scripts ((46 ∷ 112 ∷ 121 ∷ []) ∷ []) r
      → IsResolved lib repo m category r
  is_template :
      category ≡ "template"
      → IsSingleFile lib repo custom_templates [] r
      → IsResolved lib repo m category r

module _ (lib : Library) (repo : ExtractedRepo) (category : String) where
  -- The manifest is none if the repository has no file hacs.json, and else what this file contains.
  pub data IsManifest (m : Option HacsManifest) : Type 0 where
    absent : get hacs_json repo.files ≡ none → m ≡ none → IsManifest m
    present :
        (entry : FileEntry) (h : HacsManifest)
        → get hacs_json repo.files ≡ some entry
        → entry.retained ≡ true
        → lib.hacs_manifest entry.content ≡ some h
        → m ≡ some h
        → IsManifest m

  -- The repository has no manifest, or its manifest names no other category.
  pub record IsAllowed (m : Option HacsManifest) (r : Resolved) : Type 0 where
    pub found : IsResolved lib repo m category r
    pub declared :
        (m ≡ none)
        ⊎ ((h : HacsManifest) × (m ≡ some h) × ((h.category ≡ "") ⊎ (h.category ≡ category)))
