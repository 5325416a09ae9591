-- ===== src/Credentials/Tests.antt =====
-- internal/controller/helpers.go: the token of a concrete instance.
use homeassistant_operator.Prelude.{
  ◌≡◌, ◌≢◌, refl, true, false, none, some, [], ◌∷◌, ◌==◌, if◌then◌else◌,
}
use homeassistant_operator.Cluster.{
  ok, err, not_found, Secret, OperatorAccountSpec, BootstrapStatus, HomeAssistant, Api,
}
use homeassistant_operator.Credentials.{
  active_account, dedicated_operator_account, is_migrating, dedicated_token, checked_token,
  validate_operator_secret, owned_by, is_stage, is_all_space, is_padded, get_api_token,
  legacy_token,
}
use homeassistant_operator.Credentials.Checked.{
  IsVerified, get_api_token-IsVerified, get_api_token-migrating,
}

abbrev account : OperatorAccountSpec
account = record { mode = "dedicated"; token_secret_name = "token"; recovery_request_id = "" }

abbrev home : HomeAssistant
home = record {
  name = "home";
  namespace = "default";
  uid = "u1";
  service_port = none;
  bootstrap = some (record {
    enabled = true;
    credentials = none;
    operator_account = some account;
    api_token_secret_name = "";
    has_location = false;
  });
  bootstrap_status = none;
  ban = record {
    window_start = none;
    window_count = 0;
    last_self_unban = none;
    self_unban_count = 0;
  };
  conditions = [];
}

-- The same instance before its migration is verified.
abbrev moving : HomeAssistant
moving = record home {
  bootstrap_status = some (record {
    api_token_secret_name = "old";
    operator_account = none;
    completed = true;
    api_token_ready = true;
    message = "";
  });
}

abbrev secret : Secret
secret = record {
  name = "token";
  namespace = "default";
  type = "Opaque";
  labels =
      ("app.kubernetes.io/managed-by", "homeassistant-operator")
      ∷ ("homeassistant-operator.io/purpose", "operator-api-token")
      ∷ [];
  annotations =
      ("homeassistant-operator.io/credential-stage", "Verified")
      ∷ ("homeassistant-operator.io/operator-user-id", "user")
      ∷ [];
  contents = ("token", "abc") ∷ [];
  owner = some (record {
    uid = "u1";
    name = "home";
    kind = "HomeAssistant";
    api_version = "ha.homeassistant.io/v1";
  });
}

abbrev old_secret : Secret
old_secret = record secret { name = "old"; contents = ("token", "xyz") ∷ [] }

abbrev api : Api Unit
api = record {
  get_home_assistant = λ _ _ w. (err not_found, w);
  get_secret = λ _ name w. (
    if name == "token" then ok secret else if name == "old" then ok old_secret else err not_found,
    w,
  );
}

read : (get_api_token api home tt).0 ≡ ok "abc"
unfolding get_api_token active_account dedicated_operator_account is_migrating dedicated_token
    checked_token validate_operator_secret owned_by is_stage is_all_space is_padded
read = refl

active : active_account home ≡ some account
unfolding active_account dedicated_operator_account is_migrating
active = refl

get_api_token-IsVerified_example :
    (s : Secret) × ((api.get_secret "default" "token" tt).0 ≡ ok s) × IsVerified home s "abc"
get_api_token-IsVerified_example = get_api_token-IsVerified api home tt account "abc" active read

dedicated : dedicated_operator_account moving ≡ some account
unfolding dedicated_operator_account
dedicated = refl

in_migration : is_migrating account moving ≡ true
unfolding is_migrating
in_migration = refl

get_api_token-migrating_example :
    (b : BootstrapStatus) × (moving.bootstrap_status ≡ some b)
    × (b.api_token_secret_name ≢ "")
    × (b.api_token_secret_name ≢ "token")
    × ((get_api_token api moving tt).0
        ≡ legacy_token (api.get_secret "default" b.api_token_secret_name tt).0)
get_api_token-migrating_example =
    get_api_token-migrating api moving tt account dedicated in_migration
