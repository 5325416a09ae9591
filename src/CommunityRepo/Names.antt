-- ===== src/CommunityRepo/Names.antt =====
-- internal/communityrepo/manifest.go: the extension of a file name, and the name without it.
use homeassistant_operator.Prelude.{
  ℕ, ◌≡◌, ◌∙◌, refl, ap, inl, inr, Bool, true, false, not, ◌&&◌, [], ◌∷◌, ◌++◌, arith, eqb, eqb_iff,
  any, length, length-append, Bool-cases,
}
use homeassistant_operator.GoPath.{Bytes, bytes_eq, bytes_eq_iff, bytes_eq_refl, has_slash}
use homeassistant_operator.CommunityRepo.Manifest.{ext, trim_suffix, without_ext}

abbrev pub has_dot : Bytes → Bool
has_dot s = any (λ c. eqb c 46) s

-- The suffix is a dot and what follows it up to the end of the text, with no dot and no slash, or it
-- is empty and no dot stands behind the last slash.
pub data IsExtension (s suffix : Bytes) : Type 0 where
  dotted :
      (u : Bytes) → suffix ≡ 46 ∷ u → has_dot u ≡ false → has_slash u ≡ false → IsExtension s suffix
  without_slash : suffix ≡ [] → has_dot s ≡ false → IsExtension s suffix
  within_folder : suffix ≡ [] → has_slash s ≡ true → IsExtension s suffix

-- The text is the stem and the extension.
pub record IsSplit (s stem suffix : Bytes) : Type 0 where
  pub whole : s ≡ stem ++ suffix
  pub extension : IsExtension s suffix

ext-whole : (s : Bytes) → (stem : Bytes) × (s ≡ stem ++ ext s)
unfolding ext
ext-whole [] = ([], refl)
ext-whole (c ∷ s) = elim (Bool-cases (bytes_eq (ext s) [])) [
  | inr long ↦ let (stem, e) = ext-whole s in (c ∷ stem, rw (long, ext) (ap (λ t. c ∷ t) e))
  | inl short ↦ elim (Bool-cases (eqb c 46 && not (has_slash s))) [
    | inl here ↦ ([], rw (short, here, ext) refl)
    | inr other ↦
        let (stem, e) = ext-whole s in
        let empty : ext s ≡ [] = (bytes_eq_iff (ext s) []).0 short in
        (c ∷ stem, rw (short, other, ext) (ap (λ t. c ∷ t) (rw empty at e)))
  ]
]

ext-no_dot : (s : Bytes) → ext s ≡ [] → has_slash s ≡ false → has_dot s ≡ false
unfolding ext
ext-no_dot [] h plain = refl
ext-no_dot (c ∷ s) h plain = elim (Bool-cases (bytes_eq (ext s) [])) [
  | inr long ↦
      let empty : ext s ≡ [] = rw (long, ext) at h in
      absurd (ground (arith, bytes_eq_iff (ext s) [], empty))
  | inl short ↦
      let empty : ext s ≡ [] = (bytes_eq_iff (ext s) []).0 short in
      elim (Bool-cases (eqb c 46)) [
        | inl here ↦
            let none_left : has_slash s ≡ false = ground (arith, plain) in
            absurd (cc (rw (short, here, none_left, ext) at h))
        | inr other ↦ ground (arith, other, ext-no_dot s empty (ground (arith, plain)))
      ]
]

ext-IsExtension : (s : Bytes) → IsExtension s (ext s)
unfolding ext
ext-IsExtension [] = without_slash refl refl
ext-IsExtension (c ∷ s) = elim (Bool-cases (bytes_eq (ext s) [])) [
  | inr long ↦
      rw (long, ext)
        (elim (ext-IsExtension s) [
          | dotted u e d f ↦ dotted u e d f
          | without_slash e d ↦ absurd (ground (arith, bytes_eq_iff (ext s) [], e))
          | within_folder e d ↦ absurd (ground (arith, bytes_eq_iff (ext s) [], e))
        ])
  | inl short ↦
      let empty : ext s ≡ [] = (bytes_eq_iff (ext s) []).0 short in
      elim (Bool-cases (has_slash s)) [
        | inl folder ↦
            rw (short, folder, ext) (within_folder (ground arith) (ground (arith, folder)))
        | inr plain ↦ elim (Bool-cases (eqb c 46)) [
          | inl here ↦
              let same : c ≡ 46 = (eqb_iff c 46).0 here in
              rw (short, plain, here, ext)
                (dotted s (ap (λ x. x ∷ s) same) (ext-no_dot s empty plain) plain)
          | inr other ↦
              rw (short, plain, other, ext)
                (without_slash refl (ground (arith, other, ext-no_dot s empty plain)))
        ]
      ]
]

longer : (c : ℕ) (stem t : Bytes) → bytes_eq (c ∷ (stem ++ t)) t ≡ false
longer c stem t = elim (Bool-cases (bytes_eq (c ∷ (stem ++ t)) t)) [
  | inr differs ↦ differs
  | inl same ↦
      let e = ap (λ s. length s) ((bytes_eq_iff (c ∷ (stem ++ t)) t).0 same) in
      absurd (omega (arith, e, length-append stem t))
]

trim_suffix-append : (stem t : Bytes) → trim_suffix (stem ++ t) t ≡ stem
unfolding trim_suffix
trim_suffix-append [] [] = refl
trim_suffix-append [] (c ∷ t) = rw (bytes_eq_refl (c ∷ t)) refl
trim_suffix-append (c ∷ stem) t = rw (longer c stem t) (ap (λ s. c ∷ s) (trim_suffix-append stem t))

pub without_ext-IsSplit : (s : Bytes) → IsSplit s (without_ext s s) (ext s)
unfolding without_ext
without_ext-IsSplit s =
    let (stem, e) = ext-whole s in
    let trimmed : trim_suffix s (ext s) ≡ stem =
      ap (λ t. trim_suffix t (ext s)) e ∙ trim_suffix-append stem (ext s) in
    record { whole = rw trimmed e; extension = ext-IsExtension s }
