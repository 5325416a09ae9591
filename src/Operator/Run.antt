-- ===== src/Operator/Run.antt =====
-- internal/controller/operator_account.go: runOperatorProvisioning.
use homeassistant_operator.Prelude.{
  String, Bool, true, false, not, ◌&&◌, Option, none, some, [], ◌∷◌, ◌==◌, if◌then◌else◌,
}
use homeassistant_operator.Cluster.{
  Failure, Result, ok, err, banned, onboarding_done, other, lookup, value_at, Secret,
  CredentialsRef, OperatorAccountSpec, BootstrapSpec, HomeAssistant,
}
use homeassistant_operator.Credentials.{stage_key, user_key, purpose_key}
use homeassistant_operator.Operator.Act.{Env, annotate}
use homeassistant_operator.Operator.Provision.{recovery_key, recovery_result_key}
use homeassistant_operator.Operator.Status.{
  legacy_key, Answer, operator_account_status, self_ban, operator_secret_write_failure,
}
use homeassistant_operator.Operator.Migrate.{
  get_api_token_secret_name, legacy_migration_secret_name, after_core_config,
  apply_operator_bootstrap_core_config, migrate_operator_account,
}

abbrev pub onboarding_key : String
onboarding_key = "homeassistant-operator.io/onboarding-started"

unfoldable pub get_or_default : String → String → String
get_or_default value default = if value == "" then default else value

-- The reference to the bootstrap credentials, if it is valid.
unfoldable pub validate_bootstrap_config : BootstrapSpec → Option CredentialsRef
validate_bootstrap_config b = elim b.credentials [
  | none ↦ none
  | some c ↦ if c.name == "" then none else some c
]

unfoldable pub extract_credentials : CredentialsRef → Result Secret → Result (String × String)
unfolding get_or_default
extract_credentials c (err e) = err e
extract_credentials c (ok s) = elim (lookup (get_or_default c.username_key "username") s.contents) [
  | none ↦ err (other "credentials secret missing key")
  | some username ↦ elim (lookup (get_or_default c.password_key "password") s.contents) [
    | none ↦ err (other "credentials secret missing key")
    | some password ↦ ok (username, password)
  ]
]

module _ {W : Type 0} (env : Env W) (b : BootstrapSpec) (a : OperatorAccountSpec) where
  unfoldable pub get_bootstrap_credentials :
      CredentialsRef → HomeAssistant → W → Result (String × String) × W
  unfolding extract_credentials
  get_bootstrap_credentials c ha w =
      let (r, w') = env.api.get_secret ha.namespace c.name w in (extract_credentials c r, w')

  unfoldable pub on_login : Bool → Bool → Secret → HomeAssistant → Result String × W → Answer W
  unfolding after_core_config apply_operator_bootstrap_core_config
  on_login recovery already s ha (err banned, w) = self_ban env a ha w
  on_login recovery already s ha (err e, w) =
      operator_account_status env a (some s) "RecoveryFailed"
        "Cannot authenticate bootstrap owner; correct credentials and submit a new recoveryRequestID"
        ha w
  on_login recovery already s ha (ok token, w) =
      after_core_config env b a recovery token s ha
        (apply_operator_bootstrap_core_config env b a token already w)

  unfoldable pub on_bootstrap :
      String × String → Secret → HomeAssistant → Option Failure × W → Answer W
  unfolding on_login
  on_bootstrap (username, password) s ha (none, w) =
      on_login false false s ha (env.login_with_credentials username password w)
  on_bootstrap (username, password) s ha (some onboarding_done, w) =
      on_login false true s ha (env.login_with_credentials username password w)
  on_bootstrap login s ha (some banned, w) = self_ban env a ha w
  on_bootstrap login s ha (some e, w) =
      operator_account_status env a (some s) "HomeAssistantUnavailable"
        "Home Assistant bootstrap failed" ha w

  unfoldable pub on_credentials :
      Bool → Secret → HomeAssistant → Result (String × String) × W → Answer W
  unfolding on_bootstrap on_login
  on_credentials recovery s ha (err e, w) =
      operator_account_status env a (some s) "RecoveryFailed"
        "Bootstrap owner credentials unavailable; restore the referenced Secret and submit a new recoveryRequestID"
        ha w
  on_credentials true s ha (ok (username, password), w) =
      on_login true false s ha (env.login_with_credentials username password w)
  on_credentials false s ha (ok (username, password), w) =
      on_bootstrap (username, password) s ha (env.perform_bootstrap username password w)

  unfoldable pub as_owner : Bool → Secret → HomeAssistant → W → Answer W
  unfolding on_credentials get_bootstrap_credentials validate_bootstrap_config
  as_owner recovery s ha w = elim (validate_bootstrap_config b) [
    | none ↦
        operator_account_status env a (some s) "RecoveryFailed"
          "Supply a bootstrap owner credentials Secret; it is never recreated automatically" ha w
    | some c ↦ on_credentials recovery s ha (get_bootstrap_credentials c ha w)
  ]

  unfoldable pub after_note : Bool → Secret → HomeAssistant → Option Failure × W → Answer W
  unfolding as_owner
  after_note recovery s ha (some e, w) = operator_secret_write_failure env a e ha w
  after_note recovery s ha (none, w) = as_owner recovery s ha w

  abbrev has_started : Secret → Bool
  has_started s = value_at onboarding_key s.annotations == "true"

  unfoldable pub on_onboarding : Secret → HomeAssistant → Option Failure × W → Answer W
  unfolding migrate_operator_account get_api_token_secret_name after_note
  on_onboarding s ha (none, w) =
      let s' = annotate onboarding_key "true" s in
      if has_started s
      then after_note false s ha (none, w)
      else after_note false s' ha (env.update_secret s' w)
  on_onboarding s ha (some onboarding_done, w) =
      if has_started s
      then after_note false s ha (none, w)
      else migrate_operator_account env b a (get_api_token_secret_name b ha) s ha w
  on_onboarding s ha (some banned, w) = self_ban env a ha w
  on_onboarding s ha (some e, w) =
      operator_account_status env a (some s) "HomeAssistantUnavailable"
        "Waiting to determine Home Assistant onboarding state" ha w

  unfoldable pub on_api_ready : Secret → HomeAssistant → Option Failure × W → Answer W
  unfolding on_onboarding
  on_api_ready s ha (some banned, w) = self_ban env a ha w
  on_api_ready s ha (some e, w) =
      operator_account_status env a (some s) "HomeAssistantUnavailable"
        "Waiting for Home Assistant API readiness" ha w
  on_api_ready s ha (none, w) = on_onboarding s ha (env.check_onboarding_status w)

  -- The recovery request is consumed before any owner credential is read.
  unfoldable pub consumed : Secret → Secret
  consumed s =
      annotate stage_key "Recovering"
        (annotate recovery_result_key "Failed" (annotate recovery_key a.recovery_request_id s))

  unfoldable pub run_reserved : Bool → Secret → HomeAssistant → W → Answer W
  unfolding consumed after_note legacy_migration_secret_name migrate_operator_account on_api_ready
  run_reserved true s ha w = after_note true (consumed s) ha (env.update_secret (consumed s) w)
  run_reserved false s ha w =
      let legacy = legacy_migration_secret_name env b a ha s in
      if legacy == ""
      then on_api_ready s ha (env.check_api_ready w)
      else migrate_operator_account env b a legacy s ha w

  unfoldable pub new_secret : HomeAssistant → Secret
  new_secret ha =
      let plain : Secret = record {
        name = a.token_secret_name;
        namespace = ha.namespace;
        type = "Opaque";
        labels =
            ("app.kubernetes.io/managed-by", "homeassistant-operator")
            ∷ (purpose_key, "operator-api-token")
            ∷ [];
        annotations = (stage_key, "Provisioning") ∷ [];
        contents = [];
        owner = some (record {
          uid = ha.uid;
          name = ha.name;
          kind = "HomeAssistant";
          api_version = "ha.homeassistant.io/v1";
        });
      } in
      elim ha.bootstrap_status [
        | none ↦ plain
        | some t ↦
            let known : Secret = elim t.operator_account [
              | none ↦ plain
              | some o ↦ annotate user_key o.user_id plain
            ] in
            if not (t.api_token_secret_name == "")
              && not (t.api_token_secret_name == a.token_secret_name)
            then annotate legacy_key t.api_token_secret_name known
            else known
      ]

  unfoldable pub after_create : Bool → Secret → HomeAssistant → Option Failure × W → Answer W
  unfolding run_reserved
  after_create recovery s ha (some e, w) = operator_secret_write_failure env a e ha w
  after_create recovery s ha (none, w) = run_reserved recovery s ha w

  unfoldable pub run_operator_provisioning : Option Secret → Bool → HomeAssistant → W → Answer W
  unfolding after_create new_secret run_reserved
  run_operator_provisioning none recovery ha w =
      after_create recovery (new_secret ha) ha (env.create_secret (new_secret ha) w)
  run_operator_provisioning (some s) recovery ha w = run_reserved recovery s ha w
