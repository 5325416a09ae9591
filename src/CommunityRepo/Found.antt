-- ===== src/CommunityRepo/Found.antt =====
-- internal/communityrepo/manifest.go: what is in the repository when it is resolved.
use mathlib.Core.Path.{subst}
use homeassistant_operator.Prelude.{
  ◌≡◌, ◌⊎◌, refl, inl, inr, true, false, Option, none, some, List, [], ◌∷◌, Bool-cases,
  Option-cases, if◌then◌else◌,
}
use homeassistant_operator.GoPath.{Bytes, dot, bytes_eq, bytes_eq_iff}
use homeassistant_operator.CommunityRepo.{ExtractedRepo, Fetched, ok, err}
use homeassistant_operator.CommunityRepo.Query.{DirEntry, read_file, exists, read_dir}
use homeassistant_operator.CommunityRepo.Single.{
  IsOnly, wanted, dir_names-IsOnly, file_names-IsOnly,
}
use homeassistant_operator.CommunityRepo.Names.{IsSplit, without_ext-IsSplit}
use homeassistant_operator.CommunityRepo.Manifest.{
  HacsManifest, Library, Resolved, resolved, base, ext, trim_suffix, without_ext, join, dir_names,
  custom_components, manifest_json, on_component, on_directories, on_components,
  resolve_integration, file_names, on_matches, on_listing, resolve_single_file, resolve_plugin,
}

abbrev entry_at : Bytes → Bytes → Resolved
entry_at path target = record { source_path = path; resolved_target = target }

module _ (lib : Library) (repo : ExtractedRepo) where
  -- The one directory under custom_components/, with a manifest.json that names the domain.
  pub record IsIntegration (r : Resolved) : Type 0 where
    pub entries : List DirEntry
    pub name : Bytes
    pub contents : Bytes
    pub lists : read_dir repo custom_components ≡ ok entries
    pub single : IsOnly (λ e. e.is_dir) name entries
    pub reads : read_file repo (join (join custom_components name) manifest_json) ≡ ok contents
    pub domain : lib.component_domain contents ≡ some r.resolved_target
    pub filled : bytes_eq r.resolved_target [] ≡ false
    pub path : r.source_path ≡ join custom_components name

  -- The one file of the directory that has one of the extensions.
  pub record IsSingleFile (subdir : Bytes) (extensions : List Bytes) (r : Resolved) : Type 0 where
    pub entries : List DirEntry
    pub name : Bytes
    pub lists : read_dir repo (if bytes_eq subdir [] then dot else subdir) ≡ ok entries
    pub single : IsOnly (wanted lib extensions) name entries
    pub path : r.source_path ≡ (if bytes_eq subdir [] then name else join subdir name)
    pub target : IsSplit name r.resolved_target (ext name)

  -- The file that the manifest names, or else the one JavaScript file at the root.
  pub data IsPlugin (m : Option HacsManifest) (r : Resolved) : Type 0 where
    named :
        (h : HacsManifest)
        → m ≡ some h
        → bytes_eq h.filename [] ≡ false
        → exists repo h.filename ≡ true
        → r ≡ record {
          source_path = h.filename;
          resolved_target = trim_suffix (base h.filename) (ext h.filename);
        }
        → IsPlugin m r
    only :
        (m ≡ none) ⊎ ((h : HacsManifest) × (m ≡ some h) × (h.filename ≡ []))
        → IsSingleFile [] ((46 ∷ 106 ∷ 115 ∷ []) ∷ []) r
        → IsPlugin m r

  named-IsIntegration :
      (r : Resolved) (es : List DirEntry) (n : Bytes) (f : Fetched Bytes)
      → read_dir repo custom_components ≡ ok es
      → dir_names es ≡ n ∷ []
      → read_file repo (join (join custom_components n) manifest_json) ≡ f
      → on_component lib n f ≡ resolved r
      → IsIntegration r
  unfolding on_component
  named-IsIntegration r es n (err _) ls s q h = cc
  named-IsIntegration r es n (ok contents) ls s q h =
      elim (Option-cases (lib.component_domain contents)) [
        | inl missing ↦ absurd (cc (rw (missing, on_component) at h))
        | inr (d, found) ↦ elim (Bool-cases (bytes_eq d [])) [
          | inl blank ↦ absurd (cc (rw (found, blank, on_component) at h))
          | inr filled ↦
              let same : entry_at (join custom_components n) d ≡ r =
                cc (rw (found, filled, on_component) at h) in
              subst (λ t. IsIntegration t) same
                (record {
                  entries = es;
                  name = n;
                  contents = contents;
                  lists = ls;
                  single = dir_names-IsOnly es n s;
                  reads = q;
                  domain = found;
                  filled = filled;
                  path = refl;
                })
        ]
      ]

  directories-IsIntegration :
      (r : Resolved) (es : List DirEntry) (ns : List Bytes)
      → read_dir repo custom_components ≡ ok es
      → dir_names es ≡ ns
      → on_directories lib repo ns ≡ resolved r
      → IsIntegration r
  unfolding on_directories
  directories-IsIntegration r es [] ls s h = cc
  directories-IsIntegration r es (n ∷ []) ls s h =
      named-IsIntegration r es n (read_file repo (join (join custom_components n) manifest_json)) ls
        s refl h
  directories-IsIntegration r es (n ∷ _ ∷ _) ls s h = cc

  listing-IsIntegration :
      (r : Resolved) (f : Fetched (List DirEntry))
      → read_dir repo custom_components ≡ f
      → on_components lib repo f ≡ resolved r
      → IsIntegration r
  unfolding on_components
  listing-IsIntegration r (err _) ls h = cc
  listing-IsIntegration r (ok es) ls h = directories-IsIntegration r es (dir_names es) ls refl h

  pub resolve_integration-IsIntegration :
      (r : Resolved) → resolve_integration lib repo ≡ resolved r → IsIntegration r
  unfolding resolve_integration
  resolve_integration-IsIntegration r h =
      listing-IsIntegration r (read_dir repo custom_components) refl h

  matches-IsSingleFile :
      (d : Bytes) (xs : List Bytes) (r : Resolved) (es : List DirEntry) (ns : List Bytes)
      → read_dir repo (if bytes_eq d [] then dot else d) ≡ ok es
      → file_names lib xs es ≡ ns
      → on_matches lib d ns ≡ resolved r
      → IsSingleFile d xs r
  unfolding on_matches
  matches-IsSingleFile d xs r es [] ls s h = cc
  matches-IsSingleFile d xs r es (n ∷ []) ls s h =
      let same : entry_at (if bytes_eq d [] then n else join d n) (without_ext n n) ≡ r = cc h in
      subst (λ t. IsSingleFile d xs t) same
        (record {
          entries = es;
          name = n;
          lists = ls;
          single = file_names-IsOnly lib xs es n s;
          path = refl;
          target = without_ext-IsSplit n;
        })
  matches-IsSingleFile d xs r es (n ∷ _ ∷ _) ls s h = cc

  listing-IsSingleFile :
      (d : Bytes) (xs : List Bytes) (r : Resolved) (f : Fetched (List DirEntry))
      → read_dir repo (if bytes_eq d [] then dot else d) ≡ f
      → on_listing lib d xs f ≡ resolved r
      → IsSingleFile d xs r
  unfolding on_listing
  listing-IsSingleFile d xs r (err _) ls h = cc
  listing-IsSingleFile d xs r (ok es) ls h =
      matches-IsSingleFile d xs r es (file_names lib xs es) ls refl h

  pub resolve_single_file-IsSingleFile :
      (d : Bytes) (xs : List Bytes) (r : Resolved)
      → resolve_single_file lib repo d xs ≡ resolved r
      → IsSingleFile d xs r
  unfolding resolve_single_file
  resolve_single_file-IsSingleFile d xs r h =
      listing-IsSingleFile d xs r (read_dir repo (if bytes_eq d [] then dot else d)) refl h

  pub resolve_plugin-IsPlugin :
      (m : Option HacsManifest) (r : Resolved)
      → resolve_plugin lib repo m ≡ resolved r
      → IsPlugin m r
  unfolding resolve_plugin without_ext
  resolve_plugin-IsPlugin none r h =
      only (inl refl) (resolve_single_file-IsSingleFile [] ((46 ∷ 106 ∷ 115 ∷ []) ∷ []) r h)
  resolve_plugin-IsPlugin (some m) r h = elim (Bool-cases (bytes_eq m.filename [])) [
    | inl unset ↦ only (inr (m, refl, (bytes_eq_iff m.filename []).0 unset)) (
        resolve_single_file-IsSingleFile [] ((46 ∷ 106 ∷ 115 ∷ []) ∷ []) r
          (rw (unset, resolve_plugin) at h))
    | inr given ↦ elim (Bool-cases (exists repo m.filename)) [
      | inl there ↦ named m refl given there (cc (rw (given, there, resolve_plugin) at h))
      | inr gone ↦ absurd (cc (rw (given, gone, resolve_plugin) at h))
    ]
  ]
