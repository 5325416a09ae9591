-- ===== src/Operator/Migrate.antt =====
-- internal/controller/operator_account_migration.go: the migration from a legacy token, and
-- completeOperatorProvisioning of operator_account.go, which ends every provisioning.
use Prim.Native.String.{◌++◌ as str_append}
use homeassistant_operator.Prelude.{
  String, Bool, true, false, not, ◌&&◌, ◌||◌, Option, none, some, ◌==◌, any, codes, if◌then◌else◌,
}
use homeassistant_operator.Cluster.{
  Failure, Result, ok, err, not_found, forbidden, unauthorized, banned, refused, value_at, Secret,
  OperatorAccountSpec, BootstrapSpec, HomeAssistant,
}
use homeassistant_operator.Credentials.{user_key, is_blank, is_padded, is_all_space}
use homeassistant_operator.BanRecovery.{reset_ban_recovery}
use homeassistant_operator.Operator.Act.{AuthUser, Env, annotate}
use homeassistant_operator.Operator.Provision.{provision_operator_credential}
use homeassistant_operator.Operator.Status.{
  legacy_key, Answer, operator_account_status, self_ban, operator_secret_write_failure,
  operator_core_config_failure,
}

unfoldable pub get_api_token_secret_name : BootstrapSpec → HomeAssistant → String
get_api_token_secret_name b ha =
    if b.api_token_secret_name == ""
    then str_append ha.name "-homeassistant-api-token"
    else b.api_token_secret_name

abbrev is_unusable : String → Bool
is_unusable token =
    is_all_space (codes token) || is_padded (codes token) || any is_blank (codes token)

module _ {W : Type 0} (env : Env W) (b : BootstrapSpec) (a : OperatorAccountSpec) where
  -- The name of the legacy Secret of a migration, "" where there is none.
  unfoldable pub legacy_migration_secret_name : HomeAssistant → Secret → String
  unfolding get_api_token_secret_name
  legacy_migration_secret_name ha s =
      if not (value_at legacy_key s.annotations == "")
      then value_at legacy_key s.annotations
      else elim ha.bootstrap_status [
        | none ↦ ""
        | some t ↦
            let name =
              if (t.api_token_secret_name == "") && t.completed
              then get_api_token_secret_name b ha
              else t.api_token_secret_name in
            if name == a.token_secret_name then "" else name
      ]

  unfoldable pub after_provision :
      Bool → HomeAssistant → (Result (Unit {0}) × Secret) × W → Answer W
  after_provision recovery ha ((ok _, s), w) =
      let (ha', w') = reset_ban_recovery env.ban ha w in
      operator_account_status env a (some s) "Verified"
        "Dedicated operator credential verified; bootstrap credentials are retired from routine use"
        ha' w'
  after_provision recovery ha ((err banned, s), w) = self_ban env a ha w
  after_provision recovery ha ((err forbidden, s), w) =
      operator_account_status env a (some s) "SecretAccessDenied"
        "Cannot write managed token Secret; check managed-namespace permissions" ha w
  after_provision recovery ha ((err unauthorized, s), w) =
      operator_account_status env a (some s) "SecretAccessDenied"
        "Cannot write managed token Secret; check managed-namespace permissions" ha w
  after_provision recovery ha ((err e, s), w) =
      if not recovery && not (value_at legacy_key s.annotations == "")
      then operator_account_status env a (some s) "MigrationFailed"
          "Legacy-token migration failed; check administrator permissions and provisioning checkpoints"
          ha w
      else operator_account_status env a (some s) "RecoveryFailed"
          "Dedicated credential provisioning failed; check the owner account and submit a new recoveryRequestID"
          ha w

  unfoldable pub complete_operator_provisioning :
      Bool → String → Secret → HomeAssistant → W → Answer W
  unfolding after_provision
  complete_operator_provisioning recovery owner s ha w =
      after_provision recovery ha (provision_operator_credential env ha recovery owner s w)

  unfoldable pub apply_operator_bootstrap_core_config : String → Bool → W → Option Failure × W
  apply_operator_bootstrap_core_config token resume w =
      if resume && b.has_location then env.resume_bootstrap_core_config token w else (none, w)

  unfoldable pub after_core_config :
      Bool → String → Secret → HomeAssistant → Option Failure × W → Answer W
  unfolding complete_operator_provisioning
  after_core_config recovery token s ha (some e, w) = operator_core_config_failure env a e s ha w
  after_core_config recovery token s ha (none, w) =
      complete_operator_provisioning recovery token s ha w

  unfoldable pub on_principal : String → Secret → HomeAssistant → Result AuthUser × W → Answer W
  unfolding after_core_config apply_operator_bootstrap_core_config
  on_principal token s ha (err banned, w) = self_ban env a ha w
  on_principal token s ha (err refused, w) =
      operator_account_status env a (some s) "LegacyCredentialRejected"
        "Cannot authenticate the legacy token; check Home Assistant availability or restore a valid legacy API credential"
        ha w
  on_principal token s ha (err e, w) =
      operator_account_status env a (some s) "HomeAssistantUnavailable"
        "Cannot authenticate the legacy token; check Home Assistant availability or restore a valid legacy API credential"
        ha w
  on_principal token s ha (ok p, w) =
      if p.id == value_at user_key s.annotations
      then operator_account_status env a (some s) "LegacyCredentialRejected"
          "Migration source token identifies the dedicated user instead of the existing administrator"
          ha w
      else if not p.is_admin
      then operator_account_status env a (some s) "LegacyCredentialRequiresAdmin"
          "Migration requires a legacy token with Home Assistant administrator permissions" ha w
      else after_core_config false token s ha (apply_operator_bootstrap_core_config token true w)

  unfoldable pub legacy_reason : Failure → String
  legacy_reason not_found = "LegacyCredentialMissing"
  legacy_reason forbidden = "SecretAccessDenied"
  legacy_reason unauthorized = "SecretAccessDenied"
  legacy_reason e = "HomeAssistantUnavailable"

  unfoldable pub on_legacy : Secret → HomeAssistant → Result Secret × W → Answer W
  unfolding on_principal legacy_reason
  on_legacy s ha (err e, w) =
      operator_account_status env a (some s) (legacy_reason e)
        "Cannot read legacy token Secret; restore it in the HomeAssistant namespace and check Secret permissions"
        ha w
  on_legacy s ha (ok legacy, w) =
      let token = value_at "token" legacy.contents in
      if not (legacy.type == "Opaque") || is_unusable token
      then operator_account_status env a (some s) "LegacyCredentialMalformed"
          "Restore a non-empty token key in the Opaque legacy Secret; migration does not fall back to owner password login"
          ha w
      else on_principal token s ha (env.current_user token w)

  unfoldable pub after_legacy_note : String → Secret → HomeAssistant → Option Failure × W → Answer W
  unfolding on_legacy
  after_legacy_note source s ha (some e, w) = operator_secret_write_failure env a e ha w
  after_legacy_note source s ha (none, w) =
      on_legacy s ha (env.api.get_secret ha.namespace source w)

  unfoldable pub migrate_operator_account : String → Secret → HomeAssistant → W → Answer W
  unfolding after_legacy_note
  migrate_operator_account source s ha w =
      let s' = annotate legacy_key source s in
      if (source == "") || (source == s.name)
      then operator_account_status env a (some s) "LegacyCredentialMalformed"
          "Migration requires a legacy token Secret distinct from the dedicated token Secret" ha w
      else if value_at legacy_key s.annotations == source
      then after_legacy_note source s ha (none, w)
      else after_legacy_note source s' ha (env.update_secret s' w)
