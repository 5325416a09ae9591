-- ===== src/CommunityRepo/Single.antt =====
-- internal/communityrepo/manifest.go: the loops that collect the candidates, and when they find one.
use homeassistant_operator.Prelude.{
  ℕ, ◌+◌, ◌≡◌, ◌⊎◌, ◌∙◌, refl, sym, ap, inl, inr, Bool, true, false, not, ◌&&◌, ◌||◌, List, [], ◌∷◌,
  All, any, Bool-cases, if◌then◌else◌,
}
use homeassistant_operator.GoPath.{Bytes}
use homeassistant_operator.CommunityRepo.Query.{DirEntry}
use homeassistant_operator.CommunityRepo.Manifest.{Library, ext, accepts, dir_names, file_names}

abbrev pub count_if : {A : Type 0} → (A → Bool) → List A → ℕ
count_if p [] = 0
count_if p (x ∷ xs) = let rest = count_if p xs in if p x then 1 + rest else rest

-- Exactly one entry passes the test, and it has this name.
pub record IsOnly (p : DirEntry → Bool) (name : Bytes) (entries : List DirEntry) : Type 0 where
  pub once : count_if p entries ≡ 1
  pub named : All (λ e. (p e ≡ false) ⊎ (e.name ≡ name)) entries

abbrev pub is_empty : List Bytes → Bool
is_empty [] = true
is_empty (x ∷ xs) = false

none_passes :
    (entries : List DirEntry)
    → dir_names entries ≡ []
    → (count_if (λ e. e.is_dir) entries ≡ 0)
      × ((name : Bytes) → All (λ e. (e.is_dir ≡ false) ⊎ (e.name ≡ name)) entries)
unfolding dir_names
none_passes [] h = (refl, λ name. tt)
none_passes (e ∷ es) h = elim (Bool-cases e.is_dir) [
  | inl folder ↦ absurd (cc (rw (folder, dir_names) at h))
  | inr file ↦
      let (n, rest) = none_passes es (rw (file, dir_names) at h) in
      (rw file n, λ name. (inl file, rest name))
]

pub dir_names-IsOnly :
    (entries : List DirEntry) (name : Bytes)
    → dir_names entries ≡ name ∷ []
    → IsOnly (λ e. e.is_dir) name entries
unfolding dir_names
dir_names-IsOnly [] name h = cc
dir_names-IsOnly (e ∷ es) name h = elim (Bool-cases e.is_dir) [
  | inl folder ↦
      let h' : e.name ∷ dir_names es ≡ name ∷ [] = rw (folder, dir_names) at h in
      let (n, rest) = none_passes es (cc h') in
      record { once = rw folder (ap (λ k. 1 + k) n); named = (inr (cc h'), rest name) }
  | inr file ↦
      let t = dir_names-IsOnly es name (rw (file, dir_names) at h) in
      record { once = rw file t.once; named = (inl file, t.named) }
]

module _ (lib : Library) where
  -- A file whose extension is one of those of the list, if it has any.
  abbrev pub wanted : List Bytes → DirEntry → Bool
  wanted extensions e =
      not e.is_dir && (is_empty extensions || any (λ x. lib.equal_fold (ext e.name) x) extensions)

  accepts-wanted :
      (xs : List Bytes) (e : DirEntry) → (not e.is_dir && accepts lib xs e.name) ≡ wanted xs e
  unfolding accepts
  accepts-wanted [] e = refl
  accepts-wanted (x ∷ xs) e = refl

  none_wanted :
      (xs : List Bytes) (entries : List DirEntry)
      → file_names lib xs entries ≡ []
      → (count_if (wanted xs) entries ≡ 0)
        × ((name : Bytes) → All (λ e. (wanted xs e ≡ false) ⊎ (e.name ≡ name)) entries)
  unfolding file_names
  none_wanted xs [] h = (refl, λ name. tt)
  none_wanted xs (e ∷ es) h = elim (Bool-cases (not e.is_dir && accepts lib xs e.name)) [
    | inl good ↦ absurd (cc (rw (good, file_names) at h))
    | inr bad ↦
        let (n, rest) = none_wanted xs es (rw (bad, file_names) at h) in
        let unwanted = sym (accepts-wanted xs e) ∙ bad in
        (rw unwanted n, λ name. (inl unwanted, rest name))
  ]

  pub file_names-IsOnly :
      (xs : List Bytes) (entries : List DirEntry) (name : Bytes)
      → file_names lib xs entries ≡ name ∷ []
      → IsOnly (wanted xs) name entries
  unfolding file_names
  file_names-IsOnly xs [] name h = cc
  file_names-IsOnly xs (e ∷ es) name h = elim (Bool-cases (not e.is_dir && accepts lib xs e.name)) [
    | inl good ↦
        let h' : e.name ∷ file_names lib xs es ≡ name ∷ [] = rw (good, file_names) at h in
        let (n, rest) = none_wanted xs es (cc h') in
        let is_wanted = sym (accepts-wanted xs e) ∙ good in
        record { once = rw is_wanted (ap (λ k. 1 + k) n); named = (inr (cc h'), rest name) }
    | inr bad ↦
        let t = file_names-IsOnly xs es name (rw (bad, file_names) at h) in
        let unwanted = sym (accepts-wanted xs e) ∙ bad in
        record { once = rw unwanted t.once; named = (inl unwanted, t.named) }
  ]
