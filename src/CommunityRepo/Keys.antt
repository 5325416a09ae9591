-- ===== src/CommunityRepo/Keys.antt =====
-- internal/communityrepo/target.go: the text of a conflict key.
use homeassistant_operator.Prelude.{◌≡◌, refl, false, [], ◌∷◌, ◌++◌, arith, eqb_iff}
use homeassistant_operator.GoPath.{Bytes, slash, has_slash}
use homeassistant_operator.CommunityRepo.Manifest.{ConflictKey, conflict_text}

-- The part before the first slash, and what follows it.
split-first :
    (a b s t : Bytes)
    → has_slash a ≡ false
    → has_slash b ≡ false
    → a ++ slash ∷ s ≡ b ++ slash ∷ t
    → (a ≡ b) × (s ≡ t)
split-first [] [] s t ha hb h = (refl, cc h)
split-first [] (y ∷ b) s t ha hb h =
    let same : slash ≡ y = cc h in absurd (ground (arith, eqb_iff y slash))
split-first (x ∷ a) [] s t ha hb h =
    let same : x ≡ slash = cc h in absurd (ground (arith, eqb_iff x slash))
split-first (x ∷ a) (y ∷ b) s t ha hb h =
    let same : x ≡ y = cc h in
    let tails : a ++ slash ∷ s ≡ b ++ slash ∷ t = cc h in
    let (e, rest) = split-first a b s t (ground (arith, ha)) (ground (arith, hb)) tails in
    (λ i. same i ∷ e i, rest)

-- Two conflict keys have the same text only if they are equal, if neither the names nor the
-- categories contain a slash; a target may contain one.
pub conflict_text-injective :
    (k l : ConflictKey)
    → has_slash k.home_assistant_name ≡ false
    → has_slash k.category ≡ false
    → has_slash l.home_assistant_name ≡ false
    → has_slash l.category ≡ false
    → conflict_text k ≡ conflict_text l
    → k ≡ l
unfolding conflict_text
conflict_text-injective k l hk ck hl cl h =
    let (name, rest) = split-first _ _ _ _ hk hl h in
    let (category, target) = split-first _ _ _ _ ck cl rest in
    λ i. record { home_assistant_name = name i; category = category i; resolved_target = target i }
