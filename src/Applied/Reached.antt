-- ===== src/Applied/Reached.antt =====
-- internal/controller, the automation, scene and script controllers: what a pass that ends without an
-- error and without a requeue has achieved in Home Assistant.
use mathlib.Core.Path.{subst}
use homeassistant_operator.Prelude.{
  String, ◌≡◌, ◌≢◌, ◌∙◌, sym, refl, true, false, Option, none, some, inl, inr, arith, Option-cases,
  ap,
}
use homeassistant_operator.Cluster.{Failure, Result, ok, err, not_found, done, HomeAssistant}
use homeassistant_operator.Credentials.{get_api_token}
use homeassistant_operator.Applied.Model.{Resource, Payload, Library, Env, Kind}
use homeassistant_operator.Applied.{
  effective_id, calculate_hash, session, on_reference, validate_home_assistant_ref, after_removal,
  reconcile_via_api, report_not_ready, on_applied, on_token, on_home_assistant, apply,
  reconcile_resource,
}
use homeassistant_operator.Applied.Entries.{IsHome, reconcile_via_api-IsStored}

module _ {W S J : Type 0} (lib : Library J) (env : Env W S J) (k : Kind S J) where
  pub live-pass :
      (r : Resource S) (w : W)
      → r.deleting ≡ false
      → r.has_finalizer ≡ true
      → reconcile_resource lib env k r w
        ≡ on_home_assistant lib env k (
            on_reference lib env k r
              (env.api.get_home_assistant r.namespace r.home_assistant_ref w))
  unfolding reconcile_resource apply validate_home_assistant_ref
  live-pass r w live has = simp (live, has)

module _ {W S J : Type 0} (lib : Library J) (env : Env W S J) (k : Kind S J)
    (stored : W → String → Option (Payload J)) (home : IsHome env stored) where
  -- Home Assistant holds the configuration of the resource under its effective id.
  pub IsStored : Resource S → W → Type 0
  IsStored r w =
      (m : Payload J) × (k.to_map (effective_id lib env k r) r.spec ≡ some m)
      × (stored w (effective_id lib env k r) ≡ some (k.sent m))

  removal-world : (x : Option Failure × W) → (after_removal lib env k x).1 ≡ x.1
  unfolding after_removal
  removal-world (none, w) = refl
  removal-world (some e, w) = refl

  on_applied-done :
      (hash : String) (x : (Option Failure × Resource S) × W)
      → (on_applied lib env k hash x).0 ≡ done
      → (x.0.0 ≡ none) × (stored (on_applied lib env k hash x).1 ≡ stored x.1)
  unfolding on_applied report_not_ready
  on_applied-done hash ((some e, r), w) h = absurd (omega (arith, ap (λ p. p.requeue_after) h))
  on_applied-done hash ((none, r), w) h = (refl, ap stored (removal-world _) ∙ home.status_kept _ w)

  on_token-done :
      (ha : HomeAssistant) (hash : String) (r : Resource S) (x : Result String × W)
      → (on_token lib env k ha hash r x).0 ≡ done
      → IsStored r (on_token lib env k ha hash r x).1
  unfolding on_token report_not_ready IsStored
  on_token-done ha hash r (err e, w) h = absurd (omega (arith, ap (λ p. p.requeue_after) h))
  on_token-done ha hash r (ok token, w) h =
      let s = session lib env k ha token in
      let (sent, same) = on_applied-done hash (reconcile_via_api lib env k s r w) h in
      let (m, good, put) = reconcile_via_api-IsStored lib env k stored home s r w sent in
      (m, good, ap (λ f. f (effective_id lib env k r)) same ∙ put)

  on_home-done :
      (r : Resource S) (x : Result HomeAssistant × W)
      → k.ref_delay ≢ 0
      → (on_home_assistant lib env k (on_reference lib env k r x)).0 ≡ done
      → IsStored r (on_home_assistant lib env k (on_reference lib env k r x)).1
  unfolding on_home_assistant on_reference
  on_home-done r (err not_found, w) delay h = absurd (delay (ap (λ p. p.requeue_after) h))
  on_home-done r (err _, w) delay h = absurd (delay (ap (λ p. p.requeue_after) h))
  on_home-done r (ok ha, w) delay h = elim (Option-cases (calculate_hash lib env k r)) [
    | inl bad ↦ absurd (cc (rw (bad, on_home_assistant) at h))
    | inr (hash, good) ↦
        rw (good, on_home_assistant)
          (on_token-done ha hash r (get_api_token env.api ha w) (rw (good, on_home_assistant) at h))
  ]

  -- When a pass over a resource that has its finalizer and is not being deleted ends with no error and
  -- no requeue, Home Assistant holds the configuration of the spec under the effective id.
  pub reconcile-IsStored :
      (r : Resource S) (w : W)
      → k.ref_delay ≢ 0
      → r.deleting ≡ false
      → r.has_finalizer ≡ true
      → (reconcile_resource lib env k r w).0 ≡ done
      → IsStored r (reconcile_resource lib env k r w).1
  reconcile-IsStored r w delay live has h =
      let x = env.api.get_home_assistant r.namespace r.home_assistant_ref w in
      let same = live-pass lib env k r w live has in
      subst (λ y. IsStored r y.1) (sym same) (on_home-done r x delay (ap (λ y. y.0) (sym same) ∙ h))
