-- ===== src/Applied/Model.antt =====
-- The data of the automation, scene and script controllers of internal/controller: a custom resource
-- with its status (api/v1), the configuration that is sent, and what the three controllers call.
use homeassistant_operator.Prelude.{ℕ, ℤ, String, Bool, Option, List}
use homeassistant_operator.Cluster.{Failure, Result, ConditionStatus, Api}
use homeassistant_operator.Credentials.{Session}

pub data Message : Type 0 where
  token_not_available applied loaded : Message
  home_assistant_not_found : String → Message
  failed_to_post : Failure → Message

pub record Condition : Type 0 where
  pub status : ConditionStatus
  pub reason : String
  pub message : Message
  pub observed_generation : ℕ

pub record Status : Type 0 where
  pub conditions : List (String × Condition)
  pub hash : String
  pub observed_generation : ℕ
  pub last_reload_time : Option ℕ
  pub last_reload_method : String
  pub last_error : String
  -- of a scene only
  pub entity_count : ℕ

pub record Resource (S : Type 0) : Type 0 where
  pub name : String
  pub namespace : String
  pub generation : ℕ
  pub deleting : Bool
  pub has_finalizer : Bool
  pub home_assistant_ref : String
  pub annotations : List (String × String)
  pub spec : S
  pub status : Status

-- A value of the configuration that is sent; `J` is a decoded JSON value.
pub data Value (J : Type 0) : Type 0 where
  text : String → Value J
  number : ℤ → Value J
  flag : Bool → Value J
  json : J → Value J

pub data Entry (J : Type 0) : Type 0 where
  one : Value J → Entry J
  list : List J → Entry J
  maps : List (List (String × J)) → Entry J
  fields : List (String × List (String × J)) → Entry J
  entities : List (String × List (String × Value J)) → Entry J

abbrev pub Payload : Type 0 → Type 0
Payload J = List (String × Entry J)

-- What packages encoding/json, yaml and crypto compute.
pub record Library (J : Type 0) : Type 0 where
  pub unmarshal : String → Option J
  pub unmarshal_map : String → Option (List (String × J))
  pub marshal : Payload J → Option String
  pub sha256 : String → String

-- The API server's writes of one resource, and the REST calls of a Home Assistant instance.
pub record Env (W S J : Type 0) : Type 0 where
  pub api : Api W
  pub get : W → Result (Resource S) × W
  pub update : Resource S → W → Option Failure × W
  pub update_status : Resource S → W → Option Failure × W
  pub patch : Resource S → W → Option Failure × W
  pub put_item : Session → String → Payload J → W → Option Failure × W
  pub delete_item : Session → String → W → Option Failure × W
  pub disable_item : Session → String → W → Option Failure × W
  pub now : W → ℕ

-- A controller. The id of an entry is given to `to_map`.
pub record Kind (S J : Type 0) : Type 0 where
  pub spec_id : S → String
  pub to_map : String → S → Option (Payload J)
  pub sent : Payload J → Payload J
  pub hash_prefix : String → String
  pub invalid_reason : String
  pub generated_reason : String
  pub returns_after_finalizer : Bool
  pub ref_delay : ℕ
  pub patch_is_fatal : Bool
  pub always_records : Bool
  pub reload_method : Option String
  pub entity_count : S → ℕ
  pub is_disabled : S → Bool

abbrev pub last_applied_key : String
last_applied_key = "ha.homeassistant.io/last-applied-id"
