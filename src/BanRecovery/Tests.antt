-- ===== src/BanRecovery/Tests.antt =====
-- internal/controller/bootstrap_controller.go: ban recovery on an instance whose operator is banned.
use homeassistant_operator.Prelude.{arith, ℕ, ◌+◌, ◌≤◌, ◌<◌, ◌≡◌, refl, inl, none, [], ◌∷◌}
use homeassistant_operator.Cluster.{BanStatus, HomeAssistant}
use homeassistant_operator.BanRecovery.{
  BanApi, expired, reset_expired, cooling, counted, report_limit, after_patch, commit_restart,
  after_delete, after_get, restart_pod, handle_self_ban,
}
use homeassistant_operator.BanRecovery.Passes.{IsServer, passes}
use homeassistant_operator.BanRecovery.Pace.{restart-cools}
use homeassistant_operator.BanRecovery.Limit.{IsOpenFrom, passes-limit}

abbrev no_bans : BanStatus
no_bans = record {
  window_start = none;
  window_count = 0;
  last_self_unban = none;
  self_unban_count = 0;
}

abbrev home : HomeAssistant
home = record {
  name = "home";
  namespace = "default";
  uid = "u1";
  service_port = none;
  bootstrap = none;
  bootstrap_status = none;
  ban = no_bans;
  conditions = [];
}

-- A cluster with the object and a count of the deleted pods.
record Cluster : Type 0 where
  object : HomeAssistant
  pods : ℕ

abbrev api : BanApi Cluster
api = record {
  patch_status = λ ha w. (none, record w { object = ha });
  get_pod = λ n ns w. (none, w);
  delete_pod = λ n ns w. (none, record w { pods = w.pods + 1 });
  decimal = λ n. "";
}

abbrev load : Cluster → HomeAssistant
load w = w.object

abbrev pods_of : Cluster → ℕ
pods_of w = w.pods

server : IsServer api load pods_of
server = record {
  patch_ok = λ ha w. refl;
  patch_load = λ ha w. refl;
  patch_deleted = λ ha w. refl;
  get_load = λ n ns w. refl;
  get_deleted = λ n ns w. refl;
  delete_load = λ n ns w. refl;
  delete_deleted = λ n ns w. refl;
}

abbrev start : Cluster
start = record { object = home; pods = 0 }

restarts_at_ten : pods_of start < pods_of (handle_self_ban api 10 10 (load start) start).1
unfolding handle_self_ban cooling reset_expired expired restart_pod after_get after_delete
    commit_restart after_patch counted
restarts_at_ten = omega arith

restart-cools_example : pods_of (passes api load (10 ∷ 20 ∷ 309 ∷ []) start) ≡ 0 + 1
restart-cools_example =
    restart-cools api load pods_of server 10 (20 ∷ 309 ∷ []) start restarts_at_ten (ground arith)

passes-limit_example : pods_of (passes api load (0 ∷ 300 ∷ 600 ∷ 900 ∷ []) start) + 0 ≤ 0 + 3
unfolding IsOpenFrom
passes-limit_example =
    passes-limit api load pods_of server 0 (0 ∷ 300 ∷ 600 ∷ 900 ∷ []) start (inl refl) (omega arith)
      (ground arith)

-- The fourth pass finds the limit.
third_pass : pods_of (passes api load (0 ∷ 300 ∷ 600 ∷ 900 ∷ []) start) ≡ 3
unfolding passes handle_self_ban reset_expired expired cooling report_limit restart_pod after_get
    after_delete commit_restart after_patch counted
third_pass = refl

-- Five restarts in twenty minutes: the window is not a sliding one.
five_restarts :
    pods_of (passes api load (0 ∷ 1440 ∷ 1740 ∷ 2040 ∷ 2340 ∷ 2640 ∷ []) start)
    ≡ pods_of (passes api load (0 ∷ []) start) + 5
unfolding passes handle_self_ban reset_expired expired cooling report_limit restart_pod after_get
    after_delete commit_restart after_patch counted
five_restarts = refl
