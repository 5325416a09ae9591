-- ===== src/Applied.antt =====
-- The reconcile loop that the automation, scene and script controllers of internal/controller share:
-- fetch, finalizer, Home Assistant, hash, token, then the REST calls and the status. Its parameters
-- are what differs between the three, filled in by Applied/Automation, Applied/Scene and
-- Applied/Script. An object in memory stays as written, and a wrapped error keeps the inner one.
pub mod Model
pub mod Scene
pub mod Script
pub mod Automation
pub mod Entries
pub mod Reached
pub mod Rename
pub mod Deletion
pub mod Conditions
pub mod Reported
mod Tests
use Prim.Native.String.{◌++◌ as str_append}
use homeassistant_operator.Prelude.{
  ℕ, ℤ, String, Bool, true, false, not, ◌&&◌, Option, none, some, List, [], ◌∷◌, ◌==◌,
  if◌then◌else◌,
}
use homeassistant_operator.Cluster.{
  Failure, Result, ok, err, not_found, Reply, done, requeue, failed, ConditionStatus, is_true,
  is_false, set, value_at, HomeAssistant, Api,
}
use homeassistant_operator.Applied.Model.{
  Message, token_not_available, applied, loaded, home_assistant_not_found, failed_to_post,
  Condition, Status, Resource, Payload, Library, Env, Kind, last_applied_key,
}
use homeassistant_operator.Credentials.{get_api_token, build_home_assistant_url, Session}

abbrev cannot_decode : Failure
cannot_decode = Failure.other "failed to unmarshal"

with_condition :
    {S : Type 0} → String → ConditionStatus → String → Message → Resource S → Resource S
with_condition type status reason message r =
    let c : Condition = record {
      status = status;
      reason = reason;
      message = message;
      observed_generation = r.generation;
    } in
    record r { status = record r.status { conditions = set type c r.status.conditions } }

not_ready : {S : Type 0} → String → Message → Resource S → Resource S
unfolding with_condition
not_ready reason message r =
    with_condition "ReloadReady" is_false reason message
      (with_condition "Ready" is_false reason message r)

module _ {W S J : Type 0} (lib : Library J) (env : Env W S J) (k : Kind S J) where
  abbrev pub effective_id : Resource S → String
  effective_id r = if k.spec_id r.spec == "" then r.name else k.spec_id r.spec

  abbrev pub previous_id : Resource S → String
  previous_id r = value_at last_applied_key r.annotations

  abbrev session : HomeAssistant → String → Session
  session ha token = record { url = build_home_assistant_url ha; token = token }

  pub calculate_hash : Resource S → Option String
  calculate_hash r = elim (k.to_map (effective_id r) r.spec) [
    | none ↦ none
    | some m ↦ elim (lib.marshal m) [
      | none ↦ none
      | some bytes ↦ some (lib.sha256 (str_append (k.hash_prefix (effective_id r)) bytes))
    ]
  ]

  pub on_reference : Resource S → Result HomeAssistant × W → (Result HomeAssistant × Resource S) × W
  unfolding with_condition
  on_reference r (ok ha, w) = ((ok ha, r), w)
  on_reference r (err not_found, w) =
      let r' =
        with_condition "Ready" is_false k.invalid_reason
          (home_assistant_not_found r.home_assistant_ref) r in
      let (e, w') = env.update_status r' w in ((err not_found, r'), w')
  on_reference r (err e, w) = ((err e, r), w)

  pub validate_home_assistant_ref : Resource S → W → (Result HomeAssistant × Resource S) × W
  unfolding on_reference
  validate_home_assistant_ref r w =
      on_reference r (env.api.get_home_assistant r.namespace r.home_assistant_ref w)

  delete_with_token : HomeAssistant → Resource S → Result String × W → W
  delete_with_token ha r (err e, w) = w
  delete_with_token ha r (ok token, w) = (env.delete_item (session ha token) (effective_id r) w).1

  delete_from : (Result HomeAssistant × Resource S) × W → Resource S × W
  unfolding delete_with_token
  delete_from ((err e, r), w) = (r, w)
  delete_from ((ok ha, r), w) = (r, delete_with_token ha r (get_api_token env.api ha w))

  after_removal : Option Failure × W → Reply × W
  after_removal (none, w) = (done, w)
  after_removal (some e, w) = (failed e, w)

  -- The cleanup in Home Assistant is best effort: only the removal of the finalizer can fail.
  pub handle_deletion : Resource S → W → Reply × W
  unfolding delete_from after_removal
  handle_deletion r w =
      if not r.has_finalizer
      then (done, w)
      else let (r', w') = delete_from (validate_home_assistant_ref r w) in
        after_removal (env.update (record r' { has_finalizer = false }) w')

  -- The entry under the id that was applied last, if the id has changed since. An error is logged.
  pub delete_previous : Session → Resource S → W → W
  delete_previous s r w =
      if not (previous_id r == "") && not (previous_id r == effective_id r)
      then (env.delete_item s (previous_id r) w).1
      else w

  disable_if : Session → Resource S → W → W
  disable_if s r w = if k.is_disabled r.spec then (env.disable_item s (effective_id r) w).1 else w

  after_patch : Session → Resource S → Option Failure × W → (Option Failure × Resource S) × W
  unfolding disable_if
  after_patch s r (none, w) = ((none, r), disable_if s r w)
  after_patch s r (some e, w) =
      let w' = disable_if s r w in if k.patch_is_fatal then ((some e, r), w) else ((none, r), w')

  pub after_put : Session → Resource S → Option Failure × W → (Option Failure × Resource S) × W
  unfolding after_patch
  after_put s r (some e, w) = ((some e, r), w)
  after_put s r (none, w) =
      let r' = record r { annotations = set last_applied_key (effective_id r) r.annotations } in
      after_patch s r' (env.patch r' w)

  pub reconcile_via_api : Session → Resource S → W → (Option Failure × Resource S) × W
  unfolding after_put
  reconcile_via_api s r w = elim (k.to_map (effective_id r) r.spec) [
    | none ↦ ((some cannot_decode, r), w)
    | some m ↦ after_put s r (env.put_item s (effective_id r) (k.sent m) (delete_previous s r w))
  ]

  record_apply : ℕ → Resource S → Resource S
  unfolding with_condition
  record_apply now r =
      let method : String = elim k.reload_method [
        | none ↦ r.status.last_reload_method
        | some m ↦ m
      ] in
      with_condition "ReloadReady" is_true "ReloadSuccessful" applied (record r {
        status = record r.status {
          last_reload_time = some now;
          last_reload_method = method;
          last_error = "";
        };
      })

  -- The apply is recorded, by some controllers only if the hash has changed.
  recorded : ℕ → String → Resource S → Resource S
  unfolding record_apply
  recorded now hash r =
      let recorded = record_apply now r in
      if k.always_records then recorded else if r.status.hash == hash then r else recorded

  finished : String → Resource S → Resource S
  unfolding with_condition
  finished hash r = with_condition "Ready" is_true k.generated_reason loaded (record r {
    status = record r.status {
      hash = hash;
      observed_generation = r.generation;
      entity_count = k.entity_count r.spec;
    };
  })

  -- The status after the entry was applied.
  pub succeeded : ℕ → String → Resource S → Resource S
  unfolding recorded finished
  succeeded now hash r = finished hash (recorded now hash r)

  -- The errors of this status update are logged.
  report_not_ready : String → Message → Resource S → W → Reply × W
  unfolding not_ready
  report_not_ready reason message r w =
      let (e, w') = env.update_status (not_ready reason message r) w in (requeue 30, w')

  on_applied : String → (Option Failure × Resource S) × W → Reply × W
  unfolding report_not_ready succeeded after_removal
  on_applied hash ((some e, r), w) = report_not_ready "ReconciliationFailed" (failed_to_post e) r w
  on_applied hash ((none, r), w) =
      after_removal (env.update_status (succeeded (env.now w) hash r) w)

  on_token : HomeAssistant → String → Resource S → Result String × W → Reply × W
  unfolding on_applied report_not_ready
  on_token ha hash r (err e, w) = report_not_ready "TokenNotAvailable" token_not_available r w
  on_token ha hash r (ok token, w) = on_applied hash (reconcile_via_api (session ha token) r w)

  pub on_home_assistant : (Result HomeAssistant × Resource S) × W → Reply × W
  unfolding on_token
  on_home_assistant ((err e, r), w) = (requeue k.ref_delay, w)
  on_home_assistant ((ok ha, r), w) = elim (calculate_hash r) [
    | none ↦ (failed cannot_decode, w)
    | some hash ↦ on_token ha hash r (get_api_token env.api ha w)
  ]

  -- The reconcile of a resource that is not being deleted and has its finalizer.
  pub apply : Resource S → W → Reply × W
  unfolding on_home_assistant
  apply r w = on_home_assistant (validate_home_assistant_ref r w)

  on_finalizer : Resource S → Option Failure × W → Reply × W
  on_finalizer r (some e, w) = (failed e, w)
  on_finalizer r (none, w) =
      let rest = apply r w in if k.returns_after_finalizer then (done, w) else rest

  pub reconcile_resource : Resource S → W → Reply × W
  unfolding on_finalizer
  reconcile_resource r w =
      if r.deleting
      then handle_deletion r w
      else if r.has_finalizer
      then apply r w
      else let r' = record r { has_finalizer = true } in on_finalizer r' (env.update r' w)

  on_get : Result (Resource S) × W → Reply × W
  on_get (err not_found, w) = (done, w)
  on_get (err e, w) = (failed e, w)
  on_get (ok r, w) = reconcile_resource r w

  pub reconcile : W → Reply × W
  unfolding on_get
  reconcile w = on_get (env.get w)

-- The resources to reconcile when an instance changes, by name and namespace.
pub find_for_home_assistant :
    {S : Type 0} → HomeAssistant → Result (List (Resource S)) → List (String × String)
find_for_home_assistant ha (err e) = []
find_for_home_assistant ha (ok []) = []
find_for_home_assistant ha (ok (r ∷ rs)) =
    let rest = find_for_home_assistant ha (ok rs) in
    if r.home_assistant_ref == ha.name then (r.name, r.namespace) ∷ rest else rest
