-- ===== src/Credentials.antt =====
-- internal/controller/helpers.go: the token and the address with which the controllers speak to
-- Home Assistant. Secrets are read through `Api`.
pub mod Checked
mod Tests
use Prim.Native.String.{◌++◌ as str_append}
use mathlib.Core.List.{reverse}
use homeassistant_operator.Prelude.{
  ℕ, String, Bool, true, false, not, ◌&&◌, ◌||◌, Option, none, some, List, [], ◌∷◌, ◌==◌, codes,
  ltb, leb, eqb, any, length, if◌then◌else◌,
}
use homeassistant_operator.Cluster.{
  Failure, Result, ok, err, not_found, forbidden, unauthorized, credential, missing_token_key,
  lookup, value_at, Owner, Secret, OperatorAccountSpec, BootstrapSpec, OperatorAccountStatus,
  BootstrapStatus, HomeAssistant, Api,
}

abbrev pub stage_key : String
stage_key = "homeassistant-operator.io/credential-stage"

abbrev pub user_key : String
user_key = "homeassistant-operator.io/operator-user-id"

abbrev pub purpose_key : String
purpose_key = "homeassistant-operator.io/purpose"

-- `unicode.IsSpace`
abbrev pub is_space : ℕ → Bool
is_space c =
    (leb 9 c && leb c 13)
    || eqb c 32
    || eqb c 0x85
    || eqb c 0xa0
    || eqb c 0x1680
    || (leb 0x2000 c && leb c 0x200a)
    || eqb c 0x2028
    || eqb c 0x2029
    || eqb c 0x202f
    || eqb c 0x205f
    || eqb c 0x3000

-- `strings.ContainsAny(token, "\r\n\t ")`
abbrev pub is_blank : ℕ → Bool
is_blank c = eqb c 13 || eqb c 10 || eqb c 9 || eqb c 32

abbrev pub last_is_space : Bool → List ℕ → Bool
last_is_space b [] = b
last_is_space b (c ∷ s) = last_is_space (is_space c) s

abbrev pub first_is_space : List ℕ → Bool
first_is_space [] = false
first_is_space (c ∷ s) = is_space c

-- `strings.TrimSpace(s) != s`
unfoldable pub is_padded : List ℕ → Bool
is_padded s = first_is_space s || last_is_space false s

-- `strings.TrimSpace(s) == ""`
pub is_all_space : List ℕ → Bool
is_all_space [] = true
is_all_space (c ∷ s) = is_space c && is_all_space s

unfoldable pub dedicated_operator_account : HomeAssistant → Option OperatorAccountSpec
dedicated_operator_account ha = elim ha.bootstrap [
  | none ↦ none
  | some b ↦ elim b.operator_account [
    | none ↦ none
    | some a ↦ if a.mode == "dedicated" then some a else none
  ]
]

-- the stages that a managed Secret may be in
pub is_stage : String → Bool
is_stage s =
    s == "Provisioning" || s == "Creating" || s == "Issuing" || s == "Recovering" || s == "Verified"

pub owned_by : HomeAssistant → Option Owner → Bool
owned_by ha none = false
owned_by ha (some o) =
    o.uid == ha.uid
    && o.name == ha.name
    && o.kind == "HomeAssistant"
    && o.api_version == "ha.homeassistant.io/v1"

abbrev malformed : Failure
malformed = credential "CredentialMalformed"

pub validate_operator_secret : HomeAssistant → Secret → Option Failure
validate_operator_secret ha s =
    if not (is_stage (value_at stage_key s.annotations))
    then some malformed
    else if not (value_at "token" s.contents == "") && (value_at user_key s.annotations == "")
    then some malformed
    else if not (s.namespace == ha.namespace)
        || not (owned_by ha s.owner)
        || not (s.type == "Opaque")
        || not (value_at "app.kubernetes.io/managed-by" s.labels == "homeassistant-operator")
        || not (value_at purpose_key s.labels == "operator-api-token")
        || ltb 1 (length s.contents)
    then some malformed
    else none

-- Whether the legacy token stays active until a migration verifies its replacement.
pub is_migrating : OperatorAccountSpec → HomeAssistant → Bool
is_migrating a ha = elim ha.bootstrap_status [
  | none ↦ false
  | some b ↦
      not (b.api_token_secret_name == "")
      && not (b.api_token_secret_name == a.token_secret_name)
      && elim b.operator_account [ none ↦ true | some o ↦ not (o.phase == "Verified") ]
]

-- the reason reported when the Secret of a dedicated account cannot be read
dedicated_failure : Failure → Failure
dedicated_failure not_found = credential "CredentialMissing"
dedicated_failure forbidden = credential "SecretAccessDenied"
dedicated_failure unauthorized = credential "SecretAccessDenied"
dedicated_failure _ = credential "HomeAssistantUnavailable"

-- the tests of an accepted Secret and its token
checked_token : Secret → Result String
checked_token s =
    let token = value_at "token" s.contents in
    if not (value_at stage_key s.annotations == "Verified")
      || (value_at user_key s.annotations == "")
    then err malformed
    else if is_all_space (codes token) || is_padded (codes token) || any is_blank (codes token)
    then err malformed
    else ok token

-- What `getAPIToken` makes of the Secret of a dedicated account.
pub dedicated_token : HomeAssistant → Result Secret → Result String
unfolding checked_token
dedicated_token ha (err e) = err (dedicated_failure e)
dedicated_token ha (ok s) = elim (validate_operator_secret ha s) [
  | some e ↦ err e
  | none ↦ checked_token s
]

unfoldable pub legacy_mode_name : HomeAssistant → Option String
legacy_mode_name ha = elim ha.bootstrap [
  | none ↦ none
  | some b ↦ elim b.operator_account [
    | none ↦ none
    | some a ↦
        if a.mode == "legacy" && not (b.api_token_secret_name == "")
        then some b.api_token_secret_name
        else none
  ]
]

unfoldable pub default_name : HomeAssistant → String
default_name ha = elim ha.bootstrap_status [
  | none ↦ str_append ha.name "-homeassistant-api-token"
  | some b ↦
      if b.api_token_secret_name == ""
      then str_append ha.name "-homeassistant-api-token"
      else b.api_token_secret_name
]

-- the Secret that holds the legacy token
unfoldable pub token_secret_name : HomeAssistant → String
token_secret_name ha = elim (legacy_mode_name ha) [ none ↦ default_name ha | some name ↦ name ]

unfoldable pub legacy_token : Result Secret → Result String
legacy_token (err e) = err e
legacy_token (ok s) = elim (lookup "token" s.contents) [
  | none ↦ err missing_token_key
  | some token ↦ ok token
]

-- The account whose Secret is read: none means the legacy token.
unfoldable pub active_account : HomeAssistant → Option OperatorAccountSpec
active_account ha = elim (dedicated_operator_account ha) [
  | none ↦ none
  | some a ↦ if is_migrating a ha then none else some a
]

module _ {W : Type 0} (api : Api W) where
  unfoldable pub get_api_token : HomeAssistant → W → Result String × W
  get_api_token ha w = elim (active_account ha) [
    | some a ↦
        let (r, w') = api.get_secret ha.namespace a.token_secret_name w in
        (dedicated_token ha r, w')
    | none ↦
        let (r, w') = api.get_secret ha.namespace (token_secret_name ha) w in (legacy_token r, w')
  ]

-- The parts of the URL `http://<service>.<namespace>.svc.cluster.local:<port>` of an instance.
pub record Url : Type 0 where
  pub service : String
  pub namespace : String
  pub port : ℕ

pub build_home_assistant_url : HomeAssistant → Url
build_home_assistant_url ha = record {
  service = ha.name;
  namespace = ha.namespace;
  port = elim ha.service_port [ none ↦ 8123 | some p ↦ if eqb p 0 then 8123 else p ];
}

-- A client of one instance (`newHAClientForHA`) with the token that its calls carry.
pub record Session : Type 0 where
  pub url : Url
  pub token : String
