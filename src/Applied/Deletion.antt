-- ===== src/Applied/Deletion.antt =====
-- internal/controller, the automation, scene and script controllers: what the deletion of a resource
-- removes from Home Assistant.
use mathlib.Core.Path.{subst}
use homeassistant_operator.Prelude.{
  String, ◌≡◌, ◌∙◌, refl, sym, ap, false, Option, none, some, ◌==◌, inl, inr, Bool-cases,
}
use homeassistant_operator.Cluster.{Failure, Result, ok, err, not_found, Reply, done, HomeAssistant}
use homeassistant_operator.Credentials.{get_api_token}
use homeassistant_operator.Applied.Model.{Resource, Payload, Library, Env, Kind}
use homeassistant_operator.Applied.{
  effective_id, session, on_reference, validate_home_assistant_ref, delete_with_token, delete_from,
  after_removal, handle_deletion,
}
use homeassistant_operator.Applied.Entries.{IsHome, token-kept}

module _ {W S J : Type 0} (lib : Library J) (env : Env W S J) (k : Kind S J)
    (stored : W → String → Option (Payload J)) (home : IsHome env stored) where
  removal-world : (x : Option Failure × W) → (after_removal lib env k x).1 ≡ x.1
  unfolding after_removal
  removal-world (none, w) = refl
  removal-world (some e, w) = refl

  removal-done : (x : Option Failure × W) → x.0 ≡ none → (after_removal lib env k x).0 ≡ done
  unfolding after_removal
  removal-done (none, w) h = refl
  removal-done (some e, w) h = cc

  token-others :
      (ha : HomeAssistant) (r : Resource S) (id : String) (x : Result String × W)
      → (effective_id lib env k r == id) ≡ false
      → stored (delete_with_token lib env k ha r x) id ≡ stored x.1 id
  unfolding delete_with_token
  token-others ha r id (err e, w) differs = refl
  token-others ha r id (ok token, w) differs =
      home.delete_other (session lib env k ha token) (effective_id lib env k r) id w differs

  from-others :
      (r : Resource S) (id : String) (x : Result HomeAssistant × W)
      → (effective_id lib env k r == id) ≡ false
      → stored (delete_from lib env k (on_reference lib env k r x)).1 id ≡ stored x.1 id
  unfolding delete_from on_reference
  from-others r id (err not_found, w) differs = ap (λ f. f id) (home.status_kept _ w)
  from-others r id (err _, w) differs = refl
  from-others r id (ok ha, w) differs =
      token-others ha r id (get_api_token env.api ha w) differs
      ∙ ap (λ f. f id) (token-kept lib env k stored home ha w)

  Ends : Resource S → W → String → Reply × W → Type 0
  Ends r w id y = (y.0 ≡ done) × (stored y.1 id ≡ stored w id)

  -- The deletion of a resource touches at most the entry under its effective id: the entry under any
  -- other id stays in Home Assistant, that of an id which was applied before a rename among them. If
  -- the API server accepts each update, the deletion ends without an error, whatever the state of
  -- Home Assistant.
  pub handle_deletion-others :
      (r : Resource S) (w : W) (id : String)
      → ((r' : Resource S) (w' : W) → (env.update r' w').0 ≡ none)
      → (effective_id lib env k r == id) ≡ false
      → ((handle_deletion lib env k r w).0 ≡ done)
        × (stored (handle_deletion lib env k r w).1 id ≡ stored w id)
  unfolding handle_deletion validate_home_assistant_ref Ends
  handle_deletion-others r w id accepted differs =
      let x = env.api.get_home_assistant r.namespace r.home_assistant_ref w in
      let y = delete_from lib env k (on_reference lib env k r x) in
      let z = env.update (record y.0 { has_finalizer = false }) y.1 in
      elim (Bool-cases r.has_finalizer) [
        | inr bare ↦
            let same : handle_deletion lib env k r w ≡ (done, w) = simp bare in
            subst (Ends r w id) (sym same) (refl, refl)
        | inl has ↦
            let same : handle_deletion lib env k r w ≡ after_removal lib env k z = simp has in
            subst (Ends r w id) (sym same) (
              removal-done z (accepted _ y.1),
              ap (λ w'. stored w' id) (removal-world z)
                  ∙ ap (λ f. f id) (home.update_kept _ y.1)
                  ∙ from-others r id x differs
                  ∙ ap (λ f. f id) (home.home_kept r.namespace r.home_assistant_ref w),
            )
      ]
