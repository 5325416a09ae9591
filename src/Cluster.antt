-- ===== src/Cluster.antt =====
-- What the controllers share of the Kubernetes API (api/v1 types, controller-runtime results).
-- A Go error is a `Failure`, a call that may fail returns a `Result`, and a map is an association
-- list with one entry for a key.
pub mod Maps
use homeassistant_operator.Prelude.{
  ℕ, String, ◌≡◌, refl, ◌⊎◌, inl, inr, Bool, Option, none, some, List, [], ◌∷◌, ◌==◌, if◌then◌else◌,
}

pub data Failure : Type 0 where
  not_found forbidden unauthorized : Failure
  -- `operatorCredentialError`, with its reason
  credential : String → Failure
  missing_token_key : Failure
  -- errors of the Home Assistant client: the operator's address is banned, onboarding is done, or the
  -- token is refused
  banned onboarding_done refused : Failure
  -- a response that does not decode
  invalid_response : Failure
  -- any other error, with its text
  other : String → Failure

pub data Result {ℓ} (A : Type ℓ) : Type ℓ where
  ok : A → Result A
  err : Failure → Result A

pub Result-cases {ℓ} :
    {A : Type ℓ} (r : Result A) → ((e : Failure) × (r ≡ err e)) ⊎ ((a : A) × (r ≡ ok a))
Result-cases (err e) = inl (e, refl)
Result-cases (ok a) = inr (a, refl)

-- `(ctrl.Result, error)`; the delay is in seconds, and 0 asks for no requeue
pub record Reply : Type 0 where
  pub requeue_after : ℕ
  pub error : Option Failure

abbrev pub done : Reply
done = record { requeue_after = 0; error = none }

abbrev pub requeue : ℕ → Reply
requeue seconds = record { requeue_after = seconds; error = none }

abbrev pub failed : Failure → Reply
failed e = record { requeue_after = 0; error = some e }

pub data ConditionStatus : Type 0 where
  is_true is_false is_unknown : ConditionStatus

module _ {ℓ} {V : Type ℓ} where
  abbrev pub lookup : String → List (String × V) → Option V
  lookup key [] = none
  lookup key ((k, v) ∷ m) = if k == key then some v else lookup key m

  -- `m[key] = v`
  unfoldable pub set : String → V → List (String × V) → List (String × V)
  set key v [] = (key, v) ∷ []
  set key v ((k, u) ∷ m) = if k == key then (key, v) ∷ m else (k, u) ∷ set key v m

  -- `delete(m, key)`
  unfoldable pub remove : String → List (String × V) → List (String × V)
  remove key [] = []
  remove key ((k, u) ∷ m) = let rest = remove key m in if k == key then rest else (k, u) ∷ rest

-- `m[key]` of a map of texts: the empty text where the key is missing
abbrev pub value_at : String → List (String × String) → String
value_at key m = elim (lookup key m) [ none ↦ "" | some v ↦ v ]

-- The controller among a Secret's owners (`metav1.GetControllerOf`).
pub record Owner : Type 0 where
  pub uid : String
  pub name : String
  pub kind : String
  pub api_version : String

pub record Secret : Type 0 where
  pub name : String
  pub namespace : String
  pub type : String
  pub labels : List (String × String)
  pub annotations : List (String × String)
  pub contents : List (String × String)
  pub owner : Option Owner

-- `spec.bootstrap.operatorAccount`
pub record OperatorAccountSpec : Type 0 where
  pub mode : String
  pub token_secret_name : String
  pub recovery_request_id : String

-- `spec.bootstrap.credentials.secretRef`
pub record CredentialsRef : Type 0 where
  pub name : String
  pub username_key : String
  pub password_key : String

-- The part of `spec.bootstrap` that the models read; `has_location` tells whether `location` is set.
pub record BootstrapSpec : Type 0 where
  pub enabled : Bool
  pub credentials : Option CredentialsRef
  pub operator_account : Option OperatorAccountSpec
  pub api_token_secret_name : String
  pub has_location : Bool

-- `status.bootstrap.operatorAccount`
pub record OperatorAccountStatus : Type 0 where
  pub user_id : String
  pub token_secret_name : String
  pub token_secret_namespace : String
  pub phase : String
  pub capability : String
  pub migration_phase : String
  pub legacy_secret_name : String
  pub last_recovery_request_id : String
  pub recovery_result : String

-- The part of `status.bootstrap` that the models read.
pub record BootstrapStatus : Type 0 where
  pub api_token_secret_name : String
  pub operator_account : Option OperatorAccountStatus
  pub completed : Bool
  pub api_token_ready : Bool
  pub message : String

-- The counters of ban recovery in the status; a time is in seconds.
pub record BanStatus : Type 0 where
  pub window_start : Option ℕ
  pub window_count : ℕ
  pub last_self_unban : Option ℕ
  pub self_unban_count : ℕ

-- A status condition, under its type in `conditions`.
pub record StatusCondition : Type 0 where
  pub status : ConditionStatus
  pub reason : String
  pub message : String

pub record HomeAssistant : Type 0 where
  pub name : String
  pub namespace : String
  pub uid : String
  pub service_port : Option ℕ
  pub bootstrap : Option BootstrapSpec
  pub bootstrap_status : Option BootstrapStatus
  pub ban : BanStatus
  pub conditions : List (String × StatusCondition)

-- The reads that the controllers make of the Kubernetes API server, over a state `W` of the world.
pub record Api (W : Type 0) : Type 0 where
  pub get_home_assistant : String → String → W → Result HomeAssistant × W
  pub get_secret : String → String → W → Result Secret × W
