-- ===== src/Operator/Replay.antt =====
-- internal/controller/operator_account.go: a token is issued once for a request.
use homeassistant_operator.Prelude.{
  ℕ, String, ◌≡◌, ◌⊎◌, ◌∙◌, refl, ap, inl, inr, Bool, true, false, not, ◌||◌, Option, none, some,
  ◌==◌, any, codes, arith, eq_iff, Bool-cases, Option-cases,
}
use homeassistant_operator.Cluster.{
  Failure, Result, ok, err, banned, refused, Reply, done, value_at, Secret, OperatorAccountSpec,
  BootstrapSpec, HomeAssistant,
}
use homeassistant_operator.Credentials.{
  stage_key, user_key, is_blank, is_padded, validate_operator_secret,
}
use homeassistant_operator.BanRecovery.{reset_ban_recovery}
use homeassistant_operator.BanRecovery.Keeps.{handle_self_ban-keeps, reset_ban_recovery-keeps}
use homeassistant_operator.Operator.Act.{AuthUser, Env}
use homeassistant_operator.Operator.Provision.{recovery_key}
use homeassistant_operator.Operator.Status.{after_status_patch, operator_account_status, self_ban}
use homeassistant_operator.Operator.{
  status, observed, after_observed, verified_secret, accept_token, on_user, observe_operator_token,
  observe, observe_or_wait, on_observation, on_secret, missing_reason, is_recovery,
  reconcile_operator_account,
}

-- A token may have been issued, or a recovery request was consumed.
unfoldable pub IsSettled : Secret → Type 0
IsSettled s =
    (value_at stage_key s.annotations ≡ "Issuing")
    ⊎ ((value_at stage_key s.annotations ≡ "Recovering")
        ⊎ (value_at stage_key s.annotations ≡ "Verified"))

settled-or :
    (x r : Bool) (stage : String)
    → (stage ≡ "Issuing") ⊎ ((stage ≡ "Recovering") ⊎ (stage ≡ "Verified"))
    → (stage == "Recovering") ≡ false
    → (x || (stage == "Verified") || (stage == "Issuing") || r) ≡ true
settled-or x r stage (inl e) other = ground (arith, eq_iff stage "Issuing")
settled-or x r stage (inr (inl e)) other = ground (arith, eq_iff stage "Recovering")
settled-or x r stage (inr (inr e)) other = ground (arith, eq_iff stage "Verified")

-- `tokens` counts the long-lived tokens; these calls issue none.
pub record IsCount {W : Type 0} (env : Env W) (tokens : W → ℕ) : Type 0 where
  pub read : (ns n : String) (w : W) → tokens (env.api.get_secret ns n w).1 ≡ tokens w
  pub saved : (s : Secret) (w : W) → tokens (env.update_secret s w).1 ≡ tokens w
  pub patched : (ha : HomeAssistant) (w : W) → tokens (env.ban.patch_status ha w).1 ≡ tokens w
  pub got : (n ns : String) (w : W) → tokens (env.ban.get_pod n ns w).1 ≡ tokens w
  pub deleted : (n ns : String) (w : W) → tokens (env.ban.delete_pod n ns w).1 ≡ tokens w
  pub asked : (t : String) (w : W) → tokens (env.current_user t w).1 ≡ tokens w

module _ {W : Type 0} (env : Env W) (b : BootstrapSpec) (a : OperatorAccountSpec) (tokens : W → ℕ)
    (count : IsCount env tokens) where
  patched-same :
      (reply : Reply) (ha : HomeAssistant) (x : Option Failure × W)
      → tokens (after_status_patch env a reply ha x).1 ≡ tokens x.1
  unfolding after_status_patch
  patched-same reply ha (none, w) = refl
  patched-same reply ha (some e, w) = refl

  status-same :
      (s : Option Secret) (reason message : String) (ha : HomeAssistant) (w : W)
      → tokens (status env b a s reason message ha w).1 ≡ tokens w
  unfolding status operator_account_status
  status-same s reason message ha w =
      patched-same _ _ (env.ban.patch_status _ w) ∙ count.patched _ w

  ban-same : (ha : HomeAssistant) (w : W) → tokens (self_ban env a ha w).1 ≡ tokens w
  unfolding self_ban
  ban-same ha w =
      handle_self_ban-keeps env.ban tokens count.patched count.got count.deleted (env.now w)
        (env.now w) ha w

  observed-same :
      (s : Secret) (ha : HomeAssistant) (w : W) → tokens (observed env b a s ha w).1 ≡ tokens w
  unfolding observed
  observed-same s ha w =
      status-same (some s) "Verified"
        "Dedicated credential verified; bootstrap credentials retired from routine use"
        (reset_ban_recovery env.ban ha w).0 (reset_ban_recovery env.ban ha w).1
      ∙ reset_ban_recovery-keeps env.ban tokens count.patched count.got count.deleted ha w

  saved-same :
      (s : Secret) (ha : HomeAssistant) (x : Option Failure × W)
      → tokens (after_observed env b a s ha x).1 ≡ tokens x.1
  unfolding after_observed
  saved-same s ha (some e, w) = refl
  saved-same s ha (none, w) = observed-same s ha w

  accept-same :
      (s : Secret) (ha : HomeAssistant) (w : W) → tokens (accept_token env b a s ha w).1 ≡ tokens w
  unfolding accept_token
  accept-same s ha w = elim (Bool-cases (value_at stage_key s.annotations == "Verified")) [
    | inl e ↦ rw (e, accept_token) (observed-same s ha w)
    | inr e ↦
        rw (e, accept_token)
          (saved-same (verified_secret env b a s) ha
              (env.update_secret (verified_secret env b a s) w)
            ∙ count.saved (verified_secret env b a s) w)
  ]

  user-same :
      (s : Secret) (ha : HomeAssistant) (x : Result AuthUser × W)
      → tokens (on_user env b a s ha x).1 ≡ tokens x.1
  unfolding on_user
  user-same s ha (err banned, w) = ban-same ha w
  user-same s ha (err refused, w) =
      status-same (some s) "CredentialRejected"
        "Check service availability or request explicit credential recovery" ha w
  user-same s ha (err _, w) =
      status-same (some s) "HomeAssistantUnavailable"
        "Check service availability or request explicit credential recovery" ha w
  user-same s ha (ok u, w) =
      elim (Bool-cases (not (u.id == value_at user_key s.annotations) || u.is_owner)) [
        | inl bad ↦
            rw (bad, on_user)
              (status-same (some s) "CredentialRejected"
                "Token identifies another user; restore the dedicated credential or request recovery"
                ha w)
        | inr good ↦ elim (Bool-cases u.is_admin) [
          | inr weak ↦
              rw (good, weak, on_user)
                (status-same (some s) "RequiresElevatedRole"
                  "The dedicated identity requires the documented administrator role" ha w)
          | inl admin ↦ rw (good, admin, on_user) (accept-same s ha w)
        ]
      ]

  observe-same :
      (s : Secret) (ha : HomeAssistant) (w : W)
      → tokens (observe_operator_token env b a s ha w).1 ≡ tokens w
  unfolding observe_operator_token
  observe-same s ha w =
      let token = value_at "token" s.contents in
      elim (Bool-cases (is_padded (codes token) || any is_blank (codes token))) [
        | inl bad ↦
            rw (bad, observe_operator_token)
              (status-same (some s) "CredentialMalformed"
                "Operator token is malformed; restore it or submit a new recoveryRequestID" ha w)
        | inr good ↦
            rw (good, observe_operator_token)
              (user-same s ha (env.current_user token w) ∙ count.asked token w)
      ]

  -- A settled Secret that is not recovering waits, unless it holds a token.
  settled-waits :
      (s : Secret) (ha : HomeAssistant)
      → IsSettled s
      → (value_at stage_key s.annotations == "Recovering") ≡ false
      → ((observe env b a (some s) ha).verified_before
          || (value_at stage_key s.annotations == "Issuing")
          || not (value_at recovery_key s.annotations == ""))
        ≡ true
  unfolding observe IsSettled
  settled-waits s ha settled other = settled-or _ _ (value_at stage_key s.annotations) settled other

  waiting-same :
      (s : Secret) (ha : HomeAssistant) (w : W)
      → IsSettled s
      → tokens (observe_or_wait env b a (observe env b a (some s) ha) ha w).1 ≡ tokens w
  unfolding observe_or_wait observe
  waiting-same s ha w settled =
      elim (Bool-cases (value_at stage_key s.annotations == "Recovering")) [
        | inl e ↦
            rw (e, observe_or_wait)
              (status-same (some s) "RecoveryFailed"
                "Recovery was interrupted or failed; correct bootstrap owner credentials and submit a new recoveryRequestID"
                ha w)
        | inr e ↦ elim (Bool-cases (value_at "token" s.contents == "")) [
          | inr held ↦ rw (e, held, observe_or_wait) (observe-same s ha w)
          | inl empty ↦
              rw (e, empty, settled-waits s ha settled e, observe_or_wait)
                (status-same (some s) (missing_reason env b a (observe env b a (some s) ha))
                  "Restore the operator Secret or submit a new recoveryRequestID with valid bootstrap owner credentials"
                  ha w)
        ]
      ]

  no_recovery :
      (s : Secret) (ha : HomeAssistant)
      → (a.recovery_request_id ≡ "") ⊎ (a.recovery_request_id ≡ value_at recovery_key s.annotations)
      → is_recovery env b a (observe env b a (some s) ha) ≡ false
  unfolding observe
  no_recovery s ha h = ground (
    arith,
    h,
    eq_iff a.recovery_request_id "",
    eq_iff a.recovery_request_id (value_at recovery_key s.annotations),
  )

  read-same :
      (s : Secret) (ha : HomeAssistant) (w : W)
      → IsSettled s
      → (a.recovery_request_id ≡ "") ⊎ (a.recovery_request_id ≡ value_at recovery_key s.annotations)
      → tokens (on_secret env b a ha (ok s, w)).1 ≡ tokens w
  unfolding on_secret on_observation
  read-same s ha w settled old = elim (Option-cases (validate_operator_secret ha s)) [
    | inr (e, bad) ↦
        rw (bad, on_secret)
          (status-same none "CredentialMalformed"
            "Conflicting operator Secret; use an unused name or restore its managed ownership and metadata"
            ha w)
    | inl good ↦ rw (good, no_recovery s ha old, on_secret) (waiting-same s ha w settled)
  ]

  -- A pass that finds the managed Secret in the stage Issuing, Recovering or Verified issues no token,
  -- unless the spec has a recovery request that is not yet consumed in the Secret.
  pub reconcile_operator_account-issues_none :
      (s : Secret) (ha : HomeAssistant) (w : W)
      → (env.api.get_secret ha.namespace a.token_secret_name w).0 ≡ ok s
      → IsSettled s
      → (a.recovery_request_id ≡ "") ⊎ (a.recovery_request_id ≡ value_at recovery_key s.annotations)
      → tokens (reconcile_operator_account env b a ha w).1 ≡ tokens w
  unfolding reconcile_operator_account
  reconcile_operator_account-issues_none s ha w found settled old =
      let x = env.api.get_secret ha.namespace a.token_secret_name w in
      elim (Bool-cases b.enabled) [
        | inr off ↦
            let same : reconcile_operator_account env b a ha w ≡ ((done, ha), w) = simp off in
            ap (λ y. tokens y.1) same
        | inl on ↦ elim (Bool-cases (a.token_secret_name == "")) [
          | inl unnamed ↦
              let same : reconcile_operator_account env b a ha w
                  ≡ status env b a none "CredentialMalformed"
                      "Dedicated mode requires tokenSecretName" ha w =
                simp (on, unnamed) in
              ap (λ y. tokens y.1) same
              ∙ status-same none "CredentialMalformed" "Dedicated mode requires tokenSecretName" ha
                  w
          | inr named ↦
              let same : reconcile_operator_account env b a ha w ≡ on_secret env b a ha (x.0, x.1) =
                simp (on, named) in
              ap (λ y. tokens y.1) (same ∙ ap (λ r. on_secret env b a ha (r, x.1)) found)
              ∙ read-same s ha x.1 settled old
              ∙ count.read ha.namespace a.token_secret_name w
        ]
      ]
