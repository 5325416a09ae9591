-- ===== src/Operator/Observed.antt =====
-- internal/controller/operator_account.go: what a pass makes of a managed Secret that it finds.
use homeassistant_operator.Prelude.{
  String, ◌≡◌, ◌≢◌, refl, ap, inl, inr, true, false, not, ◌||◌, Option, none, some, ◌==◌, any,
  codes, arith, eq_iff, Bool-cases,
}
use homeassistant_operator.Cluster.{
  Failure, Result, ok, err, banned, refused, Reply, done, value_at, Secret, OperatorAccountSpec,
  BootstrapSpec, HomeAssistant,
}
use homeassistant_operator.Credentials.{user_key, is_blank, is_padded}
use homeassistant_operator.BanRecovery.Keeps.{handle_self_ban-Waits}
use homeassistant_operator.Operator.Act.{AuthUser, Env}
use homeassistant_operator.Operator.Status.{after_status_patch, operator_account_status, self_ban}
use homeassistant_operator.Operator.{status, on_user, observe_operator_token}

-- The user is the one of the Secret, an administrator and not the owner.
pub record IsOperator (s : Secret) (u : AuthUser) : Type 0 where
  pub known : u.id ≡ value_at user_key s.annotations
  pub not_owner : u.is_owner ≡ false
  pub is_admin : u.is_admin ≡ true

module _ {W : Type 0} (env : Env W) (b : BootstrapSpec) (a : OperatorAccountSpec) where
  patched-not_done :
      (reply : Reply) (ha : HomeAssistant) (x : Option Failure × W)
      → (after_status_patch env a reply ha x).0.0 ≡ done
      → reply ≡ done
  unfolding after_status_patch
  patched-not_done reply ha (none, w) h = h
  patched-not_done reply ha (some e, w) h = cc

  status-done :
      (s : Option Secret) (reason message : String) (ha : HomeAssistant) (w : W)
      → (reason == "Verified") ≡ false
      → (status env b a s reason message ha w).0.0 ≢ done
  unfolding status operator_account_status
  status-done s reason message ha w other h =
      let same = patched-not_done _ _ (env.ban.patch_status _ w) h in
      omega (arith, ap (λ r. r.requeue_after) (rw other at same))

  ban-done : (ha : HomeAssistant) (w : W) → (self_ban env a ha w).0.0 ≢ done
  unfolding self_ban
  ban-done ha w h = omega (
    arith,
    handle_self_ban-Waits env.ban (env.now w) (env.now w) ha w,
    ap (λ r. r.requeue_after) h,
  )

  on_user-done :
      (s : Secret) (ha : HomeAssistant) (x : Result AuthUser × W)
      → (on_user env b a s ha x).0.0 ≡ done
      → (u : AuthUser) × (x.0 ≡ ok u) × IsOperator s u
  unfolding on_user
  on_user-done s ha (err banned, w) h = absurd (ban-done ha w h)
  on_user-done s ha (err refused, w) h =
      absurd (status-done (some s) "CredentialRejected" _ ha w refl h)
  on_user-done s ha (err _, w) h =
      absurd (status-done (some s) "HomeAssistantUnavailable" _ ha w refl h)
  on_user-done s ha (ok u, w) h =
      elim (Bool-cases (not (u.id == value_at user_key s.annotations) || u.is_owner)) [
        | inl bad ↦
            absurd (status-done (some s) "CredentialRejected" _ ha w refl (rw (bad, on_user) at h))
        | inr good ↦ elim (Bool-cases u.is_admin) [
          | inr weak ↦ absurd (
              status-done (some s) "RequiresElevatedRole" _ ha w refl
                (rw (good, weak, on_user) at h))
          | inl admin ↦ (
            u,
            refl,
            record {
              known = ground (arith, eq_iff u.id (value_at user_key s.annotations));
              not_owner = ground arith;
              is_admin = admin;
            },
          )
        ]
      ]

  -- The observation of a token ends with neither an error nor a requeue only if Home Assistant answers
  -- for the token of the Secret with the user that the Secret names, and this user is an
  -- administrator and not the owner.
  pub observe_operator_token-IsOperator :
      (s : Secret) (ha : HomeAssistant) (w : W)
      → (observe_operator_token env b a s ha w).0.0 ≡ done
      → (u : AuthUser) × ((env.current_user (value_at "token" s.contents) w).0 ≡ ok u)
        × IsOperator s u
  unfolding observe_operator_token
  observe_operator_token-IsOperator s ha w h =
      let token = value_at "token" s.contents in
      elim (Bool-cases (is_padded (codes token) || any is_blank (codes token))) [
        | inl bad ↦ absurd (
            status-done (some s) "CredentialMalformed" _ ha w refl
              (rw (bad, observe_operator_token) at h))
        | inr good ↦
            on_user-done s ha (env.current_user token w) (rw (good, observe_operator_token) at h)
      ]
