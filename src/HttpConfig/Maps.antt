-- ===== src/HttpConfig/Maps.antt =====
-- internal/controller/http_config.go: lookups in the maps that the settings are built from, and what
-- the comparison of two configurations compares.
use mathlib.Core.Path.{subst}
use homeassistant_operator.Prelude.{
  String, ◌≡◌, ◌≢◌, ◌↔◌, refl, sym, ap, ◌∙◌, inl, inr, Bool, true, false, not, ◌&&◌, Option, none,
  some, [], ◌∷◌, ◌==◌, arith, eq_iff, eq_refl, Bool-cases, Option-cases, if◌then◌else◌,
}
use homeassistant_operator.Cluster.{lookup}
use homeassistant_operator.HttpConfig.{
  HttpValue, Settings, Library, is_metadata, put, keep, put_all, stripped_metadata,
  canonical_proxies, canonicalize_trusted_proxies, rendered, same_text, agree_on, http_config_equal,
}

abbrev pub or_else {ℓ} : {A : Type ℓ} → Option A → Option A → Option A
or_else none b = b
or_else (some a) b = some a

module _ {O : Type 0} where
  pub lookup-put :
      (k j : String) (v : HttpValue O) (m : Settings O)
      → lookup k (put j v m) ≡ (if j == k then some v else lookup k m)
  unfolding put
  lookup-put k j v [] = refl
  lookup-put k j v ((i, u) ∷ m) =
      ground (arith, lookup-put k j v m, eq_iff i j, eq_iff j k, eq_iff i k)

  pub lookup-keep :
      (p : String → Bool) (k : String) (m : Settings O)
      → lookup k (keep p m) ≡ (if p k then lookup k m else none)
  unfolding keep
  lookup-keep p k [] = elim (Bool-cases (p k)) [ inl e ↦ rw e refl | inr e ↦ rw e refl ]
  lookup-keep p k ((i, u) ∷ m) = elim (Bool-cases (i == k)) [
    | inl same ↦
        let e = (eq_iff i k).0 same in
        elim (Bool-cases (p k)) [
          | inl kept ↦ rw (e, kept, eq_refl k) refl
          | inr dropped ↦ rw (e, dropped) (lookup-keep p k m ∙ rw dropped refl)
        ]
    | inr differs ↦ elim (Bool-cases (p i)) [
      | inl kept ↦ rw (kept, differs) (lookup-keep p k m)
      | inr dropped ↦ rw (dropped, differs) (lookup-keep p k m)
    ]
  ]

  pub lookup-put_all :
      (k : String) (m base : Settings O)
      → lookup k (put_all m base) ≡ or_else (lookup k m) (lookup k base)
  unfolding put_all
  lookup-put_all k [] base = refl
  lookup-put_all k ((j, v) ∷ m) base = elim (Bool-cases (j == k)) [
    | inl same ↦ lookup-put k j v (put_all m base) ∙ rw same refl
    | inr differs ↦ lookup-put k j v (put_all m base) ∙ rw differs (lookup-put_all k m base)
  ]

  pub lookup-stripped :
      (k : String) (m : Settings O)
      → lookup k (stripped_metadata m) ≡ (if not (is_metadata k) then lookup k m else none)
  unfolding stripped_metadata
  lookup-stripped k m = lookup-keep (λ j. not (is_metadata j)) k m

module _ {O : Type 0} (lib : Library O) where
  -- What the canonical form of a map has at a key.
  abbrev pub canonical_at : String → Option (HttpValue O) → Option (HttpValue O)
  canonical_at k none = none
  canonical_at k (some v) =
      if "trusted_proxies" == k then some (canonical_proxies lib v) else some v

  pub other_key :
      (k : String) (o : Option (HttpValue O))
      → ("trusted_proxies" == k) ≡ false
      → o ≡ canonical_at k o
  other_key k none h = refl
  other_key k (some v) h = rw h refl

  absent_key : (k : String) (o : Option (HttpValue O)) → o ≡ none → o ≡ canonical_at k o
  absent_key k o h = rw h refl

  at_proxies :
      (k : String) (raw : HttpValue O)
      → ("trusted_proxies" == k) ≡ true
      → some (canonical_proxies lib raw) ≡ canonical_at k (some raw)
  at_proxies k raw same = rw same refl

  canonical-put :
      (k : String) (m : Settings O) (raw : HttpValue O)
      → lookup "trusted_proxies" m ≡ some raw
      → lookup k (put "trusted_proxies" (canonical_proxies lib raw) m) ≡ canonical_at k (lookup k m)
  canonical-put k m raw here = elim (Bool-cases ("trusted_proxies" == k)) [
    | inl same ↦
        let found : lookup k m ≡ some raw =
          subst (λ j. lookup j m ≡ some raw) ((eq_iff "trusted_proxies" k).0 same) here in
        lookup-put k "trusted_proxies" (canonical_proxies lib raw) m
        ∙ rw (same, found) (at_proxies k raw same)
    | inr differs ↦
        lookup-put k "trusted_proxies" (canonical_proxies lib raw) m
        ∙ rw differs (other_key k (lookup k m) differs)
  ]

  pub lookup-canonical :
      (k : String) (m : Settings O)
      → lookup k (canonicalize_trusted_proxies lib m) ≡ canonical_at k (lookup k m)
  unfolding canonicalize_trusted_proxies
  lookup-canonical k m = elim (Option-cases (lookup "trusted_proxies" m)) [
    | inl absent ↦
        rw (canonicalize_trusted_proxies, absent)
          (elim (Bool-cases ("trusted_proxies" == k)) [
            | inl same ↦
                absent_key k (lookup k m)
                  (subst (λ j. lookup j m ≡ none) ((eq_iff "trusted_proxies" k).0 same) absent)
            | inr differs ↦ other_key k (lookup k m) differs
          ])
    | inr (raw, here) ↦ rw (canonicalize_trusted_proxies, here) (canonical-put k m raw here)
  ]

  same_text_iff : (a b : Option String) → (same_text lib a b ≡ true) ↔ (a ≡ b)
  same_text_iff none none = ground arith
  same_text_iff none (some b) = ground arith
  same_text_iff (some a) none = ground arith
  same_text_iff (some a) (some b) = ground (arith, eq_iff a b)

  abbrev Same : Settings O → Settings O → String → Type 0
  Same a b k = rendered lib (lookup k a) ≡ rendered lib (lookup k b)

  agree_on_sound :
      (keys a b : Settings O) (k : String)
      → agree_on lib keys a b ≡ true
      → lookup k keys ≢ none
      → Same a b k
  unfolding agree_on
  agree_on_sound [] a b k h found = absurd (found refl)
  agree_on_sound ((i, v) ∷ keys) a b k h found = elim (Bool-cases (i == k)) [
    | inl same ↦
        let here : same_text lib (rendered lib (lookup i a)) (rendered lib (lookup i b)) ≡ true =
          ground arith in
        rw ((eq_iff i k).0 same) at
          ((same_text_iff (rendered lib (lookup i a)) (rendered lib (lookup i b))).0 here)
    | inr differs ↦ agree_on_sound keys a b k (ground arith) (rw differs at found)
  ]

  agree_on_complete :
      (keys a b : Settings O) → ((k : String) → Same a b k) → agree_on lib keys a b ≡ true
  unfolding agree_on
  agree_on_complete [] a b h = refl
  agree_on_complete ((i, v) ∷ keys) a b h = ground (
    arith,
    (same_text_iff (rendered lib (lookup i a)) (rendered lib (lookup i b))).1 (h i),
    agree_on_complete keys a b h,
  )

  -- What the comparison looks at: no metadata, and proxies in their canonical form.
  abbrev pub compared : Settings O → String → Option String
  compared m k = if not (is_metadata k) then rendered lib (canonical_at k (lookup k m)) else none

  compared-lookup :
      (m : Settings O) (k : String)
      → rendered lib (lookup k (canonicalize_trusted_proxies lib (stripped_metadata m)))
        ≡ compared m k
  compared-lookup m k =
      ap (λ o. rendered lib o)
        (lookup-canonical k (stripped_metadata m)
          ∙ ap (λ o. canonical_at k o) (lookup-stripped k m))
      ∙ elim (Bool-cases (is_metadata k)) [ inl e ↦ rw e refl | inr e ↦ rw e refl ]

  present : (a b : Settings O) (k : String) → lookup k a ≡ none → lookup k b ≡ none → Same a b k
  present a b k h i = rw (h, i) refl

  both_agree :
      (a b : Settings O)
      → (agree_on lib a a b && agree_on lib b a b) ≡ true
      → (k : String) → Same a b k
  both_agree a b h k = elim (Option-cases (lookup k a)) [
    | inr (v, here) ↦ agree_on_sound a a b k (ground arith) (λ gone. cc (gone, here))
    | inl gone ↦ elim (Option-cases (lookup k b)) [
      | inr (v, here) ↦ agree_on_sound b a b k (ground arith) (λ away. cc (away, here))
      | inl away ↦ present a b k gone away
    ]
  ]

  -- Two configurations are equal exactly if they have the same keys that are no metadata, and each of
  -- their values is printed alike once the trusted proxies are in canonical form.
  pub http_config_equal_iff :
      (a b : Settings O)
      → (http_config_equal lib a b ≡ true) ↔ ((k : String) → compared a k ≡ compared b k)
  unfolding http_config_equal
  http_config_equal_iff a b =
      let ca = canonicalize_trusted_proxies lib (stripped_metadata a) in
      let cb = canonicalize_trusted_proxies lib (stripped_metadata b) in
      (
        λ h k. sym (compared-lookup a k) ∙ both_agree ca cb h k ∙ compared-lookup b k,
        λ h.
            let same : (k : String) → Same ca cb k =
              λ k. compared-lookup a k ∙ h k ∙ sym (compared-lookup b k) in
            ground (arith, agree_on_complete ca ca cb same, agree_on_complete cb ca cb same),
      )
