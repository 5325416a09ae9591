-- ===== src/Cluster/Maps.antt =====
-- Maps as association lists: what a lookup finds after an entry is written.
use homeassistant_operator.Prelude.{
  String, ◌≡◌, ◌∙◌, ap, refl, false, none, some, List, [], ◌∷◌, ◌==◌, eq_iff, eq_refl, arith,
  if◌then◌else◌,
}
use homeassistant_operator.Cluster.{lookup, set, remove, value_at}

module _ {ℓ} {V : Type ℓ} where
  pub lookup-set :
      (key other : String) (v : V) (m : List (String × V))
      → lookup other (set key v m) ≡ (if key == other then some v else lookup other m)
  unfolding set
  lookup-set key other v [] = refl
  lookup-set key other v ((k, u) ∷ m) =
      ground (arith, lookup-set key other v m, eq_iff k key, eq_iff key other, eq_iff k other)

  pub lookup-set_same :
      (key : String) (v : V) (m : List (String × V)) → lookup key (set key v m) ≡ some v
  lookup-set_same key v m = ground (arith, lookup-set key key v m, eq_refl key)

  pub lookup-remove :
      (key other : String) (m : List (String × V))
      → lookup other (remove key m) ≡ (if key == other then none else lookup other m)
  unfolding remove
  lookup-remove key other [] = ground arith
  lookup-remove key other ((k, u) ∷ m) =
      ground (arith, lookup-remove key other m, eq_iff k key, eq_iff key other, eq_iff k other)

  pub lookup-remove_same : (key : String) (m : List (String × V)) → lookup key (remove key m) ≡ none
  lookup-remove_same key m = ground (arith, lookup-remove key key m, eq_refl key)

pub value-set : (key v : String) (m : List (String × String)) → value_at key (set key v m) ≡ v
value-set key v m = ap (λ o. elim o [ none ↦ "" | some x ↦ x ]) (lookup-set_same key v m)

pub value-set_other :
    (key other v : String) (m : List (String × String))
    → (key == other) ≡ false
    → value_at other (set key v m) ≡ value_at other m
value-set_other key other v m differs =
    ap (λ o. elim o [ none ↦ "" | some x ↦ x ])
      (lookup-set key other v m ∙ ap (λ b. if b then some v else lookup other m) differs)
