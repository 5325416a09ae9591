-- ===== src/Operator.antt =====
-- internal/controller/operator_account.go and operator_account_migration.go: the dedicated operator
-- account. The managed Secret is observed first; a missing or rejected credential is provisioned again
-- only on an explicit request. The text of an inner error is left out of the messages.
pub mod Act
pub mod Provision
pub mod Ledger
pub mod Issued
pub mod Status
pub mod Migrate
pub mod Run
pub mod Observed
pub mod Replay
mod Tests
use homeassistant_operator.Prelude.{
  String, Bool, true, false, not, ◌&&◌, ◌||◌, Option, none, some, List, [], ◌∷◌, ◌==◌, any, codes,
  if◌then◌else◌,
}
use homeassistant_operator.Cluster.{
  Failure, Result, ok, err, not_found, forbidden, unauthorized, banned, refused, Reply, done,
  failed, lookup, value_at, Secret, OperatorAccountSpec, BootstrapSpec, HomeAssistant,
}
use homeassistant_operator.Credentials.{
  stage_key, user_key, is_blank, is_padded, validate_operator_secret,
}
use homeassistant_operator.BanRecovery.{reset_ban_recovery}
use homeassistant_operator.Operator.Act.{AuthUser, Env, annotate}
use homeassistant_operator.Operator.Provision.{recovery_key, recovery_result_key}
use homeassistant_operator.Operator.Status.{Answer, bootstrap_of, operator_account_status, self_ban}
use homeassistant_operator.Operator.Run.{run_operator_provisioning}

module _ {W : Type 0} (env : Env W) (b : BootstrapSpec) (a : OperatorAccountSpec) where
  status : Option Secret → String → String → HomeAssistant → W → Answer W
  unfolding operator_account_status
  status s reason message ha w = operator_account_status env a s reason message ha w

  observed : Secret → HomeAssistant → W → Answer W
  unfolding status
  observed s ha w =
      let (ha', w') = reset_ban_recovery env.ban ha w in
      status (some s) "Verified"
        "Dedicated credential verified; bootstrap credentials retired from routine use" ha' w'

  after_observed : Secret → HomeAssistant → Option Failure × W → Answer W
  unfolding observed
  after_observed s ha (some e, w) = ((failed e, ha), w)
  after_observed s ha (none, w) = observed s ha w

  verified_secret : Secret → Secret
  verified_secret s =
      let s' = annotate stage_key "Verified" s in
      if value_at recovery_key s.annotations == ""
      then s'
      else annotate recovery_result_key "Succeeded" s'

  accept_token : Secret → HomeAssistant → W → Answer W
  unfolding after_observed verified_secret
  accept_token s ha w =
      if value_at stage_key s.annotations == "Verified"
      then observed s ha w
      else after_observed (verified_secret s) ha (env.update_secret (verified_secret s) w)

  on_user : Secret → HomeAssistant → Result AuthUser × W → Answer W
  unfolding accept_token status self_ban
  on_user s ha (err banned, w) = self_ban env a ha w
  on_user s ha (err refused, w) =
      status (some s) "CredentialRejected"
        "Check service availability or request explicit credential recovery" ha w
  on_user s ha (err e, w) =
      status (some s) "HomeAssistantUnavailable"
        "Check service availability or request explicit credential recovery" ha w
  on_user s ha (ok user, w) =
      if not (user.id == value_at user_key s.annotations) || user.is_owner
      then status (some s) "CredentialRejected"
          "Token identifies another user; restore the dedicated credential or request recovery" ha w
      else if not user.is_admin
      then status (some s) "RequiresElevatedRole"
          "The dedicated identity requires the documented administrator role" ha w
      else accept_token s ha w

  pub observe_operator_token : Secret → HomeAssistant → W → Answer W
  unfolding on_user status
  observe_operator_token s ha w =
      let token = value_at "token" s.contents in
      if is_padded (codes token) || any is_blank (codes token)
      then status (some s) "CredentialMalformed"
          "Operator token is malformed; restore it or submit a new recoveryRequestID" ha w
      else on_user s ha (env.current_user token w)

  -- What a pass knows before it acts.
  pub record Observation : Type 0 where
    pub ledger : Option Secret
    pub request : String
    pub verified_before : Bool

  abbrev stage_of : Option Secret → String
  stage_of none = ""
  stage_of (some s) = value_at stage_key s.annotations

  observe : Option Secret → HomeAssistant → Observation
  observe s ha =
      let from_status : String × Bool = elim (bootstrap_of ha).operator_account [
        | none ↦ ("", false)
        | some o ↦
            (o.last_recovery_request_id, (o.phase == "Verified") || not (o.token_secret_name == ""))
      ] in
      record {
        ledger = s;
        request = elim s [ none ↦ from_status.0 | some t ↦ value_at recovery_key t.annotations ];
        verified_before = from_status.1 || (stage_of s == "Verified");
      }

  abbrev is_recovery : Observation → Bool
  is_recovery o = not (a.recovery_request_id == "") && not (a.recovery_request_id == o.request)

  abbrev has_token : Option Secret → Bool
  has_token none = false
  has_token (some s) = not (value_at "token" s.contents == "")

  missing_reason : Observation → String
  missing_reason o = elim o.ledger [
    | none ↦ "CredentialMissing"
    | some s ↦
        if not (o.request == "") && (value_at recovery_result_key s.annotations == "Failed")
        then "RecoveryFailed"
        else "CredentialMalformed"
  ]

  -- No new recovery was requested.
  observe_or_wait : Observation → HomeAssistant → W → Answer W
  unfolding observe_operator_token status missing_reason
  observe_or_wait o ha w =
      let provisioned = run_operator_provisioning env b a o.ledger false ha w in
      let waiting =
        status o.ledger (missing_reason o)
          "Restore the operator Secret or submit a new recoveryRequestID with valid bootstrap owner credentials"
          ha w in
      if stage_of o.ledger == "Recovering"
      then status o.ledger "RecoveryFailed"
          "Recovery was interrupted or failed; correct bootstrap owner credentials and submit a new recoveryRequestID"
          ha w
      else elim o.ledger [
        | none ↦ if o.verified_before || not (o.request == "") then waiting else provisioned
        | some s ↦
            if has_token (some s)
            then observe_operator_token s ha w
            else if o.verified_before || (stage_of o.ledger == "Issuing") || not (o.request == "")
            then waiting
            else provisioned
      ]

  on_observation : Observation → HomeAssistant → W → Answer W
  unfolding observe_or_wait
  on_observation o ha w =
      if is_recovery o
      then run_operator_provisioning env b a o.ledger true ha w
      else observe_or_wait o ha w

  unreadable : Failure → String
  unreadable forbidden = "SecretAccessDenied"
  unreadable unauthorized = "SecretAccessDenied"
  unreadable e = "HomeAssistantUnavailable"

  on_secret : HomeAssistant → Result Secret × W → Answer W
  unfolding on_observation observe unreadable status
  on_secret ha (err not_found, w) = on_observation (observe none ha) ha w
  on_secret ha (err e, w) =
      status none (unreadable e)
        "Cannot read the operator Secret; check managed-namespace permissions" ha w
  on_secret ha (ok s, w) = elim (validate_operator_secret ha s) [
    | some e ↦
        status none "CredentialMalformed"
          "Conflicting operator Secret; use an unused name or restore its managed ownership and metadata"
          ha w
    | none ↦ on_observation (observe (some s) ha) ha w
  ]

  pub reconcile_operator_account : HomeAssistant → W → Answer W
  unfolding on_secret status
  reconcile_operator_account ha w =
      if not b.enabled
      then ((done, ha), w)
      else if a.token_secret_name == ""
      then status none "CredentialMalformed" "Dedicated mode requires tokenSecretName" ha w
      else on_secret ha (env.api.get_secret ha.namespace a.token_secret_name w)
