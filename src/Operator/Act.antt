-- ===== src/Operator/Act.antt =====
-- internal/controller/operator_account.go: a step of provisioning. It reads and changes the managed
-- Secret in memory, calls the API server and Home Assistant, and may fail; what was written to the
-- Secret in memory stays written after an error.
use homeassistant_operator.Prelude.{ℕ, String, Bool, Option, none, some, List, if◌then◌else◌}
use homeassistant_operator.Cluster.{Failure, Result, ok, err, set, Secret, Api}
use homeassistant_operator.BanRecovery.{BanApi}

pub record AuthUser : Type 0 where
  pub id : String
  pub name : String
  pub username : String
  pub is_owner : Bool
  pub is_admin : Bool
  pub group_ids : List String

-- The calls of the API server and of the Home Assistant instance. A token, a user's id or a name stands
-- before what the call sends; `create_token` sends the name of the client, and `random_password` reads
-- the system's random numbers. The
-- name of the owner, the language and the settings that a bootstrap sends are left out.
pub record Env (W : Type 0) : Type 0 where
  pub api : Api W
  pub ban : BanApi W
  pub now : W → ℕ
  pub create_secret : Secret → W → Option Failure × W
  pub update_secret : Secret → W → Option Failure × W
  pub check_api_ready : W → Option Failure × W
  pub check_onboarding_status : W → Option Failure × W
  pub perform_bootstrap : String → String → W → Option Failure × W
  pub resume_bootstrap_core_config : String → W → Option Failure × W
  pub login_with_credentials : String → String → W → Result String × W
  pub list_users : String → W → Result (List AuthUser) × W
  pub create_auth_user : String → String → List String → W → Result AuthUser × W
  pub update_auth_user : String → String → List String → W → Option Failure × W
  pub reset_local_password : String → String → String → W → Option Failure × W
  pub attach_local_credentials : String → String → String → String → W → Option Failure × W
  pub create_long_lived_token : String → String → W → Result String × W
  pub current_user : String → W → Result AuthUser × W
  pub check_health_with_token : String → W → Option Failure × W
  pub random_password : W → Result String × W

abbrev pub annotate : String → String → Secret → Secret
annotate key v s = record s { annotations = set key v s.annotations }

abbrev pub Act : Type 0 → Type 0 → Type 0
Act W A = Secret → W → (Result A × Secret) × W

abbrev pub error_or_unit : Option Failure → Result (Unit {0})
error_or_unit none = ok tt
error_or_unit (some e) = err e

module _ {W : Type 0} where
  unfoldable pub pure : {A : Type 0} → A → Act W A
  pure a s w = ((ok a, s), w)

  unfoldable pub raise : {A : Type 0} → Failure → Act W A
  raise e s w = ((err e, s), w)

  unfoldable pub secret : Act W Secret
  secret s w = ((ok s, s), w)

  unfoldable pub modify : (Secret → Secret) → Act W (Unit {0})
  modify f s w = ((ok tt, f s), w)

  unfoldable pub ask : {A : Type 0} → (W → Result A × W) → Act W A
  ask call s w = let (r, w') = call w in ((r, s), w')

  unfoldable pub tell : (W → Option Failure × W) → Act W (Unit {0})
  tell call s w = let (e, w') = call w in ((error_or_unit e, s), w')

  -- A call that sends the Secret as it is in memory.
  unfoldable pub tell_secret : (Secret → W → Option Failure × W) → Act W (Unit {0})
  tell_secret call s w = let (e, w') = call s w in ((error_or_unit e, s), w')

  unfoldable pub raise_if : Bool → Failure → Act W (Unit {0})
  raise_if c e s w = ((if c then err e else ok tt, s), w)

  unfoldable pub lift : {A : Type 0} → Result A → Act W A
  lift r s w = ((r, s), w)

-- An error ends the steps.
abbrev pub after :
    {W A B : Type 0} → (Result A × Secret) × W → (A → Act W B) → (Result B × Secret) × W
after ((ok a, s), w) f = f a s w
after ((err e, s), w) f = ((err e, s), w)

infixl 5 ◌>>=◌ ◌>>◌
unfoldable pub ◌>>=◌ : {W A B : Type 0} → Act W A → (A → Act W B) → Act W B
◌>>=◌ m f s w = after (m s w) f

abbrev pub ◌>>◌ : {W A B : Type 0} → Act W A → Act W B → Act W B
m >> k = m >>= λ _. k
