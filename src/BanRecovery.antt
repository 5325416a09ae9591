-- ===== src/BanRecovery.antt =====
-- internal/controller/bootstrap_controller.go: handleSelfBan and resetBanRecovery, with the constants
-- of homeassistant_controller.go. Times are in seconds. The two clock readings of a call, `metav1.Now`
-- and `time.Since`, are its arguments `now` and `later`.
pub mod Passes
pub mod Pace
pub mod Keeps
pub mod Limit
mod Tests
use Prim.Native.String.{◌++◌ as str_append}
use homeassistant_operator.Prelude.{
  ℕ, String, ◌+◌, ◌-◌, Bool, true, false, ◌&&◌, Option, none, some, List, [], ◌∷◌, ltb, leb, eqb,
  ◌==◌, if◌then◌else◌,
}
use homeassistant_operator.Cluster.{
  remove, Failure, not_found, Reply, done, requeue, is_true, is_false, lookup, set, BanStatus,
  StatusCondition, HomeAssistant,
}

-- The calls of the API server, on a state `W` of the world: the status patch, and the pod of a name
-- and a namespace, read and deleted. `decimal` is the text of a number.
pub record BanApi (W : Type 0) : Type 0 where
  pub patch_status : HomeAssistant → W → Option Failure × W
  pub get_pod : String → String → W → Option Failure × W
  pub delete_pod : String → String → W → Option Failure × W
  pub decimal : ℕ → String

abbrev pub ban_restart_max_count : ℕ
ban_restart_max_count = 3

abbrev pub ban_restart_window : ℕ
ban_restart_window = 1800

abbrev pub self_unban_cooldown : ℕ
self_unban_cooldown = 300

abbrev pub self_unban_requeue_wait : ℕ
self_unban_requeue_wait = 120

abbrev ban_recovery : String
ban_recovery = "BanRecoveryFailed"

pub expired : ℕ → BanStatus → Bool
expired now b = elim b.window_start [
  | none ↦ false
  | some start ↦ ltb (start + ban_restart_window) now
]

-- An expired window is forgotten before the limit is tested.
pub reset_expired : ℕ → BanStatus → BanStatus
reset_expired now b =
    if expired now b then record b { window_start = none; window_count = 0 } else b

pub cooling : ℕ → BanStatus → Option ℕ
cooling later b = elim b.last_self_unban [
  | none ↦ none
  | some last ↦
      if ltb later (last + self_unban_cooldown)
      then some (last + self_unban_cooldown - later)
      else none
]

-- The counters after one more restart.
pub counted : ℕ → BanStatus → BanStatus
counted now b = record b {
  window_start = elim b.window_start [ none ↦ some now | some start ↦ some start ];
  window_count = b.window_count + 1;
  last_self_unban = some now;
  self_unban_count = b.self_unban_count + 1;
}

limit_reached : StatusCondition
limit_reached = record {
  status = is_true;
  reason = "RestartLimitExceeded";
  message =
      "Ban-recovery restart limit (3 in 30m0s) reached; manually remove operator IP from /config/ip_bans.yaml and restart HA";
}

module _ {W : Type 0} (api : BanApi W) where
  in_progress : ℕ → StatusCondition
  in_progress count = record {
    status = is_false;
    reason = "RecoveryInProgress";
    message = str_append (str_append "Ban-recovery restart " (api.decimal count)) (
        str_append (str_append "/" (api.decimal ban_restart_max_count))
          " initiated; init-container will clean ip_bans.yaml");
  }

  with_condition : StatusCondition → HomeAssistant → HomeAssistant
  with_condition c ha = record ha { conditions = set ban_recovery c ha.conditions }

  -- The branch at the limit: an error of the patch is only logged.
  pub report_limit : HomeAssistant → W → (Reply × HomeAssistant) × W
  unfolding with_condition limit_reached
  report_limit ha w =
      let ha' = with_condition limit_reached ha in
      let (e, w') = api.patch_status ha' w in ((requeue ban_restart_window, ha'), w')

  pub after_patch : HomeAssistant → Option Failure × W → (Reply × HomeAssistant) × W
  after_patch ha (some e, w) = ((requeue self_unban_cooldown, ha), w)
  after_patch ha (none, w) = ((requeue self_unban_requeue_wait, ha), w)

  -- The pod is gone: the restart is counted.
  pub commit_restart : ℕ → HomeAssistant → W → (Reply × HomeAssistant) × W
  unfolding after_patch with_condition in_progress
  commit_restart now ha w =
      let b = counted now ha.ban in
      let ha' = with_condition (in_progress b.window_count) (record ha { ban = b }) in
      after_patch ha' (api.patch_status ha' w)

  pub after_delete : ℕ → HomeAssistant → Option Failure × W → (Reply × HomeAssistant) × W
  after_delete now ha (none, w) = commit_restart now ha w
  after_delete now ha (some not_found, w) = commit_restart now ha w
  after_delete now ha (some e, w) = ((requeue self_unban_cooldown, ha), w)

  pub after_get : ℕ → String → HomeAssistant → Option Failure × W → (Reply × HomeAssistant) × W
  unfolding after_delete
  after_get now pod ha (none, w) = after_delete now ha (api.delete_pod pod ha.namespace w)
  after_get now pod ha (some not_found, w) = commit_restart now ha w
  after_get now pod ha (some e, w) = ((requeue self_unban_cooldown, ha), w)

  pub restart_pod : ℕ → HomeAssistant → W → (Reply × HomeAssistant) × W
  unfolding after_get
  restart_pod now ha w =
      let pod = str_append ha.name "-0" in after_get now pod ha (api.get_pod pod ha.namespace w)

  pub handle_self_ban : (now later : ℕ) → HomeAssistant → W → (Reply × HomeAssistant) × W
  handle_self_ban now later ha w =
      let ha' = record ha { ban = reset_expired now ha.ban } in
      elim (cooling later ha'.ban) [
        | some wait ↦ ((requeue wait, ha'), w)
        | none ↦
            if leb ban_restart_max_count ha'.ban.window_count
            then report_limit ha' w
            else restart_pod now ha' w
      ]

  nothing_to_reset : HomeAssistant → Bool
  nothing_to_reset ha =
      eqb ha.ban.window_count 0
      && elim ha.ban.last_self_unban [ none ↦ true | some t ↦ false ]
      && elim (lookup ban_recovery ha.conditions) [ none ↦ true | some c ↦ false ]

  -- An error of the patch is only logged.
  pub reset_ban_recovery : HomeAssistant → W → HomeAssistant × W
  unfolding nothing_to_reset
  reset_ban_recovery ha w =
      if nothing_to_reset ha
      then (ha, w)
      else let ha' = record ha {
        ban = record ha.ban { window_start = none; window_count = 0; last_self_unban = none };
        conditions = remove ban_recovery ha.conditions;
      } in
        let (e, w') = api.patch_status ha' w in (ha', w')
