-- ===== src/Applied/Conditions.antt =====
-- internal/controller, the automation, scene and script controllers: the conditions after an entry was
-- applied.
use homeassistant_operator.Prelude.{
  ℕ, String, ◌≡◌, ◌∙◌, refl, ◌||◌, not, some, ◌==◌, inl, inr, Bool-cases, if◌then◌else◌,
}
use homeassistant_operator.Cluster.{is_true, lookup}
use homeassistant_operator.Cluster.Maps.{lookup-set, lookup-set_same}
use homeassistant_operator.Applied.Model.{Resource, applied, loaded, Library, Env, Kind}
use homeassistant_operator.Applied.{with_condition, record_apply, recorded, finished, succeeded}

module _ {W S J : Type 0} (lib : Library J) (env : Env W S J) (k : Kind S J) where
  finished-ready :
      (hash : String) (r : Resource S)
      → lookup "Ready" (finished lib env k hash r).status.conditions
        ≡ some (record {
          status = is_true;
          reason = k.generated_reason;
          message = loaded;
          observed_generation = r.generation;
        })
  unfolding finished with_condition
  finished-ready hash r = lookup-set_same "Ready" _ r.status.conditions

  finished-reload :
      (hash : String) (r : Resource S)
      → lookup "ReloadReady" (finished lib env k hash r).status.conditions
        ≡ lookup "ReloadReady" r.status.conditions
  unfolding finished with_condition
  finished-reload hash r = lookup-set "Ready" "ReloadReady" _ r.status.conditions

  apply-reload :
      (now : ℕ) (r : Resource S)
      → lookup "ReloadReady" (record_apply lib env k now r).status.conditions
        ≡ some (record {
          status = is_true;
          reason = "ReloadSuccessful";
          message = applied;
          observed_generation = r.generation;
        })
  unfolding record_apply with_condition
  apply-reload now r = lookup-set_same "ReloadReady" _ r.status.conditions

  apply-generation :
      (now : ℕ) (r : Resource S) → (record_apply lib env k now r).generation ≡ r.generation
  unfolding record_apply with_condition
  apply-generation now r = refl

  -- The two conditions of the status that is written after an entry was applied.
  pub succeeded-conditions :
      (now : ℕ) (hash : String) (r : Resource S)
      → (lookup "Ready" (succeeded lib env k now hash r).status.conditions
          ≡ some (record {
            status = is_true;
            reason = k.generated_reason;
            message = loaded;
            observed_generation = r.generation;
          }))
        × (lookup "ReloadReady" (succeeded lib env k now hash r).status.conditions ≡ (
            if k.always_records || not (r.status.hash == hash)
            then some (record {
              status = is_true;
              reason = "ReloadSuccessful";
              message = applied;
              observed_generation = r.generation;
            })
            else lookup "ReloadReady" r.status.conditions))
  unfolding succeeded recorded
  succeeded-conditions now hash r = elim (Bool-cases k.always_records) [
    | inl always ↦
        rw (always, succeeded)
          (
            rw⁻¹ (apply-generation now r) (finished-ready hash (record_apply lib env k now r)),
            finished-reload hash (record_apply lib env k now r) ∙ apply-reload now r,
          )
    | inr sometimes ↦ elim (Bool-cases (r.status.hash == hash)) [
      | inl same ↦ rw (sometimes, same, succeeded) (finished-ready hash r, finished-reload hash r)
      | inr differs ↦
          rw (sometimes, differs, succeeded)
            (
              rw⁻¹ (apply-generation now r) (finished-ready hash (record_apply lib env k now r)),
              finished-reload hash (record_apply lib env k now r) ∙ apply-reload now r,
            )
    ]
  ]
