-- ===== src/Operator/Tests.antt =====
-- internal/controller/operator_account.go: runs on an instance that grants every request.
use homeassistant_operator.Prelude.{
  ℕ, String, ◌+◌, ◌≡◌, refl, inl, true, false, Option, none, some, [], ◌∷◌, arith,
}
use homeassistant_operator.Cluster.{
  ok, err, not_found, done, Secret, OperatorAccountSpec, BootstrapSpec, HomeAssistant,
}
use homeassistant_operator.Credentials.{stage_key, user_key, is_padded}
use homeassistant_operator.Operator.Act.{
  AuthUser, Env, ◌>>=◌, pure, secret, modify, ask, tell, tell_secret, raise_if, lift,
}
use homeassistant_operator.Operator.Provision.{
  find_operator, adopt_operator, obtain_operator, grant_admin, ensure_operator_user, set_password,
  verify_token, issue_token, issue_operator_credential, provision_operator_credential,
}
use homeassistant_operator.Operator.Ledger.{IsServer}
use homeassistant_operator.Operator.Issued.{IsAccounted, provision-IsAccounted}
use homeassistant_operator.Operator.Status.{operator_account_status, after_status_patch}
use homeassistant_operator.Operator.{
  observe_operator_token, reconcile_operator_account, on_user, accept_token, observed, status,
}
use homeassistant_operator.Operator.Observed.{IsOperator, observe_operator_token-IsOperator}
use homeassistant_operator.Operator.Replay.{
  IsSettled, IsCount, reconcile_operator_account-issues_none,
}

-- The managed Secret that is stored, and the number of long-lived tokens.
record Instance : Type 0 where
  ledger : Option Secret
  issued : ℕ

abbrev operator : AuthUser
operator = record {
  id = "u7";
  name = "Kubernetes operator u1";
  username = "";
  is_owner = false;
  is_admin = true;
  group_ids = "system-admin" ∷ [];
}

abbrev home : HomeAssistant
home = record {
  name = "home";
  namespace = "default";
  uid = "u1";
  service_port = none;
  bootstrap = none;
  bootstrap_status = none;
  ban = record {
    window_start = none;
    window_count = 0;
    last_self_unban = none;
    self_unban_count = 0;
  };
  conditions = [];
}

abbrev managed : String → String → Secret
managed stage token = record {
  name = "token";
  namespace = "default";
  type = "Opaque";
  labels = [];
  annotations = (stage_key, stage) ∷ (user_key, "u7") ∷ [];
  contents = ("token", token) ∷ [];
  owner = none;
}

abbrev env : Env Instance
env = record {
  api = record {
    get_home_assistant = λ ns n w. (err not_found, w);
    get_secret = λ ns n w. (ok (managed "Issuing" ""), w);
  };
  ban = record {
    patch_status = λ ha w. (none, w);
    get_pod = λ n ns w. (none, w);
    delete_pod = λ n ns w. (none, w);
    decimal = λ n. "";
  };
  now = λ w. 0;
  create_secret = λ s w. (none, record w { ledger = some s });
  update_secret = λ s w. (none, record w { ledger = some s });
  check_api_ready = λ w. (none, w);
  check_onboarding_status = λ w. (none, w);
  perform_bootstrap = λ u p w. (none, w);
  resume_bootstrap_core_config = λ t w. (none, w);
  login_with_credentials = λ u p w. (ok "session", w);
  list_users = λ t w. (ok (operator ∷ []), w);
  create_auth_user = λ t n g w. (ok operator, w);
  update_auth_user = λ t id g w. (none, w);
  reset_local_password = λ t id p w. (none, w);
  attach_local_credentials = λ t id u p w. (none, w);
  create_long_lived_token = λ t n w. (ok "abc", record w { issued = w.issued + 1 });
  current_user = λ t w. (ok operator, w);
  check_health_with_token = λ t w. (none, w);
  random_password = λ w. (ok "p", w);
}

abbrev ledger_of : Instance → Option Secret
ledger_of w = w.ledger

abbrev issued_of : Instance → ℕ
issued_of w = w.issued

server : IsServer ledger_of issued_of env
server = record {
  saved = λ s w h. refl;
  not_saved = λ s w e h. cc;
  save_tokens = λ s w. refl;
  issue_stored = λ t n w. refl;
  issue_tokens = λ t n w. omega arith;
  quiet_list = λ t. record { same_stored = λ w. refl; same_tokens = λ w. refl };
  quiet_create = λ t n g. record { same_stored = λ w. refl; same_tokens = λ w. refl };
  quiet_update = λ t id g. record { same_stored = λ w. refl; same_tokens = λ w. refl };
  quiet_reset = λ t id p. record { same_stored = λ w. refl; same_tokens = λ w. refl };
  quiet_attach = λ t id n p. record { same_stored = λ w. refl; same_tokens = λ w. refl };
  quiet_login = λ n p. record { same_stored = λ w. refl; same_tokens = λ w. refl };
  quiet_user = λ t. record { same_stored = λ w. refl; same_tokens = λ w. refl };
  quiet_health = λ t. record { same_stored = λ w. refl; same_tokens = λ w. refl };
  quiet_random = record { same_stored = λ w. refl; same_tokens = λ w. refl };
}

count : IsCount env issued_of
count = record {
  read = λ ns n w. refl;
  saved = λ s w. refl;
  patched = λ ha w. refl;
  got = λ n ns w. refl;
  deleted = λ n ns w. refl;
  asked = λ t w. refl;
}

abbrev start : Instance
start = record { ledger = some (managed "Creating" ""); issued = 0 }

provision-IsAccounted_example :
    IsAccounted ledger_of issued_of env home server start
      (provision_operator_credential env home false "owner" (managed "Creating" "") start)
provision-IsAccounted_example =
    provision-IsAccounted ledger_of issued_of env home server false "owner" (managed "Creating" "")
      start

one_token :
    (provision_operator_credential env home false "owner" (managed "Creating" "") start).1.issued
    ≡ 1
unfolding provision_operator_credential ensure_operator_user find_operator obtain_operator
    adopt_operator grant_admin issue_operator_credential issue_token set_password verify_token ◌>>=◌
    pure secret modify ask tell tell_secret raise_if lift
one_token = refl

abbrev account : OperatorAccountSpec
account = record { mode = "dedicated"; token_secret_name = "token"; recovery_request_id = "" }

abbrev bootstrap : BootstrapSpec
bootstrap = record {
  enabled = true;
  credentials = none;
  operator_account = some account;
  api_token_secret_name = "";
  has_location = false;
}

accepted :
    (observe_operator_token env bootstrap account (managed "Verified" "abc") home start).0.0 ≡ done
unfolding observe_operator_token on_user accept_token observed status operator_account_status
    after_status_patch is_padded
accepted = refl

observe_operator_token-IsOperator_example :
    (u : AuthUser) × ((env.current_user "abc" start).0 ≡ ok u)
    × IsOperator (managed "Verified" "abc") u
observe_operator_token-IsOperator_example =
    observe_operator_token-IsOperator env bootstrap account (managed "Verified" "abc") home start
      accepted

issuing : IsSettled (managed "Issuing" "")
unfolding IsSettled
issuing = inl refl

reconcile_operator_account-issues_none_example :
    issued_of (reconcile_operator_account env bootstrap account home start).1 ≡ 0
reconcile_operator_account-issues_none_example =
    reconcile_operator_account-issues_none env bootstrap account issued_of count
      (managed "Issuing" "") home start refl issuing (inl refl)
