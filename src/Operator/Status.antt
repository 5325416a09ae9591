-- ===== src/Operator/Status.antt =====
-- internal/controller/operator_account.go: operatorAccountStatus, with setOperatorCredentialConditions
-- of homeassistant_controller.go, and the answers to a failed call.
use homeassistant_operator.Prelude.{
  String, Bool, true, false, not, ◌&&◌, Option, none, some, ◌==◌, if◌then◌else◌,
}
use homeassistant_operator.Cluster.{
  Failure, forbidden, unauthorized, banned, Reply, done, requeue, failed, ConditionStatus, is_true,
  is_false, set, value_at, Secret, OperatorAccountSpec, OperatorAccountStatus, BootstrapStatus,
  StatusCondition, HomeAssistant,
}
use homeassistant_operator.Credentials.{user_key}
use homeassistant_operator.BanRecovery.{handle_self_ban}
use homeassistant_operator.Operator.Act.{Env}
use homeassistant_operator.Operator.Provision.{recovery_key, recovery_result_key}

abbrev pub legacy_key : String
legacy_key = "homeassistant-operator.io/legacy-secret-name"

abbrev pub Answer : Type 0 → Type 0
Answer W = (Reply × HomeAssistant) × W

abbrev pub no_account : OperatorAccountStatus
no_account = record {
  user_id = "";
  token_secret_name = "";
  token_secret_namespace = "";
  phase = "";
  capability = "";
  migration_phase = "";
  legacy_secret_name = "";
  last_recovery_request_id = "";
  recovery_result = "";
}

abbrev pub no_bootstrap : BootstrapStatus
no_bootstrap = record {
  api_token_secret_name = "";
  operator_account = none;
  completed = false;
  api_token_ready = false;
  message = "";
}

abbrev pub bootstrap_of : HomeAssistant → BootstrapStatus
bootstrap_of ha = elim ha.bootstrap_status [ none ↦ no_bootstrap | some b ↦ b ]

abbrev pub account_of : HomeAssistant → OperatorAccountStatus
account_of ha = elim (bootstrap_of ha).operator_account [ none ↦ no_account | some a ↦ a ]

-- `meta.SetStatusCondition`
abbrev pub with_condition :
    String → ConditionStatus → String → String → HomeAssistant → HomeAssistant
with_condition type status reason message ha =
    let c : StatusCondition = record { status = status; reason = reason; message = message } in
    record ha { conditions = set type c ha.conditions }

abbrev is_degraded : String → Bool
is_degraded reason =
    not (reason == "Verified")
    && not (reason == "HomeAssistantUnavailable")
    && not (reason == "Provisioning")

unfoldable pub set_operator_credential_conditions : String → String → HomeAssistant → HomeAssistant
set_operator_credential_conditions reason message ha =
    let ready = if reason == "Verified" then is_true else is_false in
    let ha' = with_condition "OperatorCredentialReady" ready reason message ha in
    if is_degraded reason
    then with_condition "Degraded" is_true reason message ha'
    else with_condition "Degraded" is_false "AsExpected" message ha'

-- What the status takes over from the managed Secret.
unfoldable pub from_secret : Option Secret → OperatorAccountStatus → OperatorAccountStatus
from_secret none a = a
from_secret (some s) a = record a {
  user_id = value_at user_key s.annotations;
  last_recovery_request_id = value_at recovery_key s.annotations;
  recovery_result = value_at recovery_result_key s.annotations;
  legacy_secret_name = value_at legacy_key s.annotations;
}

unfoldable pub verified_status :
    OperatorAccountSpec → String → OperatorAccountStatus → HomeAssistant → HomeAssistant
verified_status spec message a ha =
    let a' = record a {
      phase = "Verified";
      capability = "Administrator";
      token_secret_name = spec.token_secret_name;
      token_secret_namespace = ha.namespace;
      migration_phase = if a.legacy_secret_name == "" then a.migration_phase else "Completed";
    } in
    with_condition "BootstrapReady" is_true "BootstrapCompleted"
      "Onboarding complete; dedicated runtime credential verified"
      (record ha {
        bootstrap_status = some (record (bootstrap_of ha) {
          api_token_secret_name = spec.token_secret_name;
          operator_account = some a';
          completed = true;
          api_token_ready = true;
          message = message;
        });
      })

unfoldable pub unverified_status :
    String → String → OperatorAccountStatus → HomeAssistant → HomeAssistant
unverified_status reason message a ha =
    let b = bootstrap_of ha in
    let phase = if a.phase == "Verified" then "Verified" else "Provisioning" in
    let migration =
      if not (a.legacy_secret_name == "") && not (phase == "Verified")
      then "Provisioning"
      else a.migration_phase in
    let b' = record b {
      operator_account = some (record a { phase = phase; migration_phase = migration });
      api_token_ready = false;
      message = if b.completed then b.message else message;
    } in
    let ha' = record ha { bootstrap_status = some b' } in
    if b.completed then ha' else with_condition "BootstrapReady" is_false reason message ha'

module _ {W : Type 0} (env : Env W) (spec : OperatorAccountSpec) where
  unfoldable pub after_status_patch : Reply → HomeAssistant → Option Failure × W → Answer W
  after_status_patch reply ha (some e, w) = ((failed e, ha), w)
  after_status_patch reply ha (none, w) = ((reply, ha), w)

  unfoldable pub new_status : Option Secret → String → String → HomeAssistant → HomeAssistant
  unfolding from_secret verified_status unverified_status set_operator_credential_conditions
  new_status s reason message ha =
      let a = from_secret s (account_of ha) in
      set_operator_credential_conditions reason message (
        if reason == "Verified"
        then verified_status spec message a ha
        else unverified_status reason message a ha)

  unfoldable pub operator_account_status :
      Option Secret → String → String → HomeAssistant → W → Answer W
  unfolding new_status after_status_patch
  operator_account_status s reason message ha w =
      let ha' = new_status s reason message ha in
      let reply = if reason == "Verified" then done else requeue 30 in
      after_status_patch reply ha' (env.ban.patch_status ha' w)

  unfoldable pub self_ban : HomeAssistant → W → Answer W
  self_ban ha w = handle_self_ban env.ban (env.now w) (env.now w) ha w

  unfoldable pub operator_secret_write_failure : Failure → HomeAssistant → W → Answer W
  unfolding operator_account_status
  operator_secret_write_failure forbidden ha w =
      operator_account_status none "SecretAccessDenied"
        "Cannot write operator Secret; check managed-namespace Secret permissions" ha w
  operator_secret_write_failure unauthorized ha w =
      operator_account_status none "SecretAccessDenied"
        "Cannot write operator Secret; check managed-namespace Secret permissions" ha w
  operator_secret_write_failure e ha w = ((failed e, ha), w)

  unfoldable pub operator_core_config_failure : Failure → Secret → HomeAssistant → W → Answer W
  unfolding operator_account_status self_ban
  operator_core_config_failure banned s ha w = self_ban ha w
  operator_core_config_failure e s ha w =
      operator_account_status (some s) "HomeAssistantUnavailable"
        "Requested core configuration (including country) was not applied" ha w
