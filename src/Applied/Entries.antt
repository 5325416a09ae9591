-- ===== src/Applied/Entries.antt =====
-- internal/controller, the automation, scene and script controllers: the entries that Home Assistant
-- holds, and what the REST calls of a pass make of them.
use homeassistant_operator.Prelude.{
  String, ◌≡◌, ◌∙◌, refl, false, Option, none, some, ◌==◌, inl, inr, Bool-cases, Option-cases, ap,
}
use homeassistant_operator.Cluster.{Failure, HomeAssistant}
use homeassistant_operator.Credentials.{Session, get_api_token}
use homeassistant_operator.Credentials.Checked.{get_api_token-reads}
use homeassistant_operator.Applied.Model.{Resource, Payload, Library, Env, Kind}
use homeassistant_operator.Applied.{
  effective_id, delete_previous, disable_if, after_patch, after_put, reconcile_via_api,
}

-- What Home Assistant documents of the REST calls: `stored w id` is the configuration under an id. A
-- call that fails leaves the entries as they are, and the API server's calls do not touch them.
pub record IsHome {W S J : Type 0} (env : Env W S J) (stored : W → String → Option (Payload J))
    : Type 0 where
  pub home_kept : (ns n : String) (w : W) → stored (env.api.get_home_assistant ns n w).1 ≡ stored w
  pub secret_kept : (ns n : String) (w : W) → stored (env.api.get_secret ns n w).1 ≡ stored w
  pub update_kept : (r : Resource S) (w : W) → stored (env.update r w).1 ≡ stored w
  pub status_kept : (r : Resource S) (w : W) → stored (env.update_status r w).1 ≡ stored w
  pub patch_kept : (r : Resource S) (w : W) → stored (env.patch r w).1 ≡ stored w
  pub disable_kept :
      (s : Session) (id : String) (w : W) → stored (env.disable_item s id w).1 ≡ stored w
  pub put_stored :
      (s : Session) (id : String) (m : Payload J) (w : W)
      → (env.put_item s id m w).0 ≡ none
      → stored (env.put_item s id m w).1 id ≡ some m
  pub put_failed :
      (s : Session) (id : String) (m : Payload J) (w : W) (e : Failure)
      → (env.put_item s id m w).0 ≡ some e
      → stored (env.put_item s id m w).1 ≡ stored w
  pub put_other :
      (s : Session) (id other : String) (m : Payload J) (w : W)
      → (id == other) ≡ false
      → stored (env.put_item s id m w).1 other ≡ stored w other
  pub deleted :
      (s : Session) (id : String) (w : W)
      → (env.delete_item s id w).0 ≡ none
      → stored (env.delete_item s id w).1 id ≡ none
  pub delete_other :
      (s : Session) (id other : String) (w : W)
      → (id == other) ≡ false
      → stored (env.delete_item s id w).1 other ≡ stored w other

module _ {W S J : Type 0} (lib : Library J) (env : Env W S J) (k : Kind S J)
    (stored : W → String → Option (Payload J)) (home : IsHome env stored) where
  pub token-kept : (ha : HomeAssistant) (w : W) → stored (get_api_token env.api ha w).1 ≡ stored w
  token-kept ha w =
      let (name, same) = get_api_token-reads env.api ha w in
      ap stored same ∙ home.secret_kept ha.namespace name w

  disabled-kept :
      (s : Session) (r : Resource S) (w : W) → stored (disable_if lib env k s r w) ≡ stored w
  unfolding disable_if
  disabled-kept s r w = elim (Bool-cases (k.is_disabled r.spec)) [
    | inl e ↦ rw (e, disable_if) (home.disable_kept s (effective_id lib env k r) w)
    | inr e ↦ rw (e, disable_if) refl
  ]

  patched-kept :
      (s : Session) (r : Resource S) (x : Option Failure × W)
      → stored (after_patch lib env k s r x).1 ≡ stored x.1
  unfolding after_patch
  patched-kept s r (none, w) = disabled-kept s r w
  patched-kept s r (some e, w) = elim (Bool-cases k.patch_is_fatal) [
    | inl fatal ↦ rw (fatal, after_patch) refl
    | inr logged ↦ rw (logged, after_patch) (disabled-kept s r w)
  ]

  pub put-kept :
      (s : Session) (r : Resource S) (x : Option Failure × W)
      → stored (after_put lib env k s r x).1 ≡ stored x.1
  unfolding after_put
  put-kept s r (some e, w) = refl
  put-kept s r (none, w) = patched-kept s _ (env.patch _ w) ∙ home.patch_kept _ w

  put-done :
      (s : Session) (r : Resource S) (x : Option Failure × W)
      → (after_put lib env k s r x).0.0 ≡ none
      → x.0 ≡ none
  unfolding after_put
  put-done s r (some e, w) h = cc
  put-done s r (none, w) h = refl

  -- The REST calls of a pass that succeeds store the configuration under the effective id.
  pub reconcile_via_api-IsStored :
      (s : Session) (r : Resource S) (w : W)
      → (reconcile_via_api lib env k s r w).0.0 ≡ none
      → (m : Payload J) × (k.to_map (effective_id lib env k r) r.spec ≡ some m)
        × (stored (reconcile_via_api lib env k s r w).1 (effective_id lib env k r)
            ≡ some (k.sent m))
  unfolding reconcile_via_api
  reconcile_via_api-IsStored s r w h =
      let id = effective_id lib env k r in
      let w' = delete_previous lib env k s r w in
      elim (Option-cases (k.to_map id r.spec)) [
        | inl bad ↦ absurd (cc (rw (bad, reconcile_via_api) at h))
        | inr (m, good) ↦
            let x = env.put_item s id (k.sent m) w' in
            let put = put-done s r x (rw (good, reconcile_via_api) at h) in
            (
              m,
              good,
              rw (good, reconcile_via_api)
                  (ap (λ f. f id) (put-kept s r x) ∙ home.put_stored s id (k.sent m) w' put),
            )
      ]
