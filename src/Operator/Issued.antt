-- ===== src/Operator/Issued.antt =====
-- internal/controller/operator_account.go: provisioning issues at most one token, and not without a
-- note in the managed Secret.
use homeassistant_operator.Prelude.{
  ℕ, String, ◌+◌, ◌≤◌, ◌⊎◌, ◌∙◌, refl, inl, inr, Bool, true, false, Option, none, some, ◌==◌, any,
  arith, Bool-cases, Option-cases, if◌then◌else◌,
}
use homeassistant_operator.Cluster.{Result, ok, err, Secret, HomeAssistant}
use homeassistant_operator.Cluster.Maps.{value-set, value-set_other}
use homeassistant_operator.Credentials.{stage_key}
use homeassistant_operator.Operator.Act.{
  AuthUser, Env, annotate, modify, ask, tell_secret, after, ◌>>=◌,
}
use homeassistant_operator.Operator.Ledger.{
  IsLate, IsServer, IsIssued, Keeps, Costs, bind-Keeps, bind-Costs, bind_first, ask-Keeps,
  tell-Keeps, ask-Costs, tell-Costs, modify-Keeps, modify-Costs, raise_if-Keeps, raise_if-Costs,
  raise-Keeps, raise-Costs, secret-Keeps, secret-Costs, pure-Costs, lift-Costs,
}
use homeassistant_operator.Operator.Provision.{
  recovery_result_key, admin_group, save, create_operator, adopt_operator, obtain_operator,
  grant_admin, ensure_operator_user, set_password, verify_token, issue_token,
  issue_operator_credential, provision_operator_credential,
}

IsLate-verified : (s : Secret) → IsLate (annotate stage_key "Verified" s)
unfolding IsLate
IsLate-verified s = inr (value-set stage_key "Verified" s.annotations)

IsLate-issuing : (s : Secret) → IsLate (annotate stage_key "Issuing" s)
unfolding IsLate
IsLate-issuing s = inl (value-set stage_key "Issuing" s.annotations)

IsLate-result :
    (b : Bool) (s : Secret)
    → IsLate s
    → IsLate (if b then annotate recovery_result_key "Succeeded" s else s)
unfolding IsLate
IsLate-result true s (inl h) =
    inl (value-set_other recovery_result_key stage_key "Succeeded" s.annotations refl ∙ h)
IsLate-result true s (inr h) =
    inr (value-set_other recovery_result_key stage_key "Succeeded" s.annotations refl ∙ h)
IsLate-result false s h = h

module _ {W : Type 0} (stored : W → Option Secret) (tokens : W → ℕ) (env : Env W)
    (ha : HomeAssistant) (server : IsServer stored tokens env) where
  save-Keeps : Keeps stored tokens (save env ha)
  unfolding IsIssued tell_secret
  save-Keeps = record {
    holds = λ s w (late, t, here, stored_late). elim (Option-cases (env.update_secret s w).0) [
      | inl accepted ↦ (late, s, server.saved s w accepted, late)
      | inr (e, refused) ↦ (late, t, server.not_saved s w e refused ∙ here, stored_late)
    ];
  }

  save-Costs : Costs stored tokens 0 (save env ha)
  unfolding tell_secret
  save-Costs = record { bound = λ s w. omega (arith, server.save_tokens s w) }

  verify-Keeps :
      (recovery : Bool) (user : AuthUser) (token : String)
      → Keeps stored tokens (verify_token env ha recovery user token)
  unfolding verify_token IsLate
  verify-Keeps recovery user token =
      bind-Keeps stored tokens (modify-Keeps stored tokens _ (λ s h. h)) (λ _.
        bind-Keeps stored tokens save-Keeps (λ _.
          bind-Keeps stored tokens (ask-Keeps stored tokens (server.quiet_user token)) (λ p.
            bind-Keeps stored tokens (raise_if-Keeps stored tokens _ _) (λ _.
              bind-Keeps stored tokens (tell-Keeps stored tokens (server.quiet_health token)) (λ _.
                bind-Keeps stored tokens (modify-Keeps stored tokens _ (λ s h. IsLate-verified s))
                  (λ _.
                    bind-Keeps stored tokens (modify-Keeps stored tokens _ (IsLate-result recovery))
                      (λ _. save-Keeps)))))))

  verify-Costs :
      (recovery : Bool) (user : AuthUser) (token : String)
      → Costs stored tokens 0 (verify_token env ha recovery user token)
  unfolding verify_token
  verify-Costs recovery user token = bind-Costs stored tokens (modify-Costs stored tokens _) (λ _.
      bind-Costs stored tokens save-Costs (λ _.
        bind-Costs stored tokens (ask-Costs stored tokens (server.quiet_user token)) (λ p.
          bind-Costs stored tokens (raise_if-Costs stored tokens _ _) (λ _.
            bind-Costs stored tokens (tell-Costs stored tokens (server.quiet_health token)) (λ _.
              bind-Costs stored tokens (modify-Costs stored tokens _) (λ _.
                bind-Costs stored tokens (modify-Costs stored tokens _) (λ _. save-Costs)))))))

  password-Keeps :
      (recovery : Bool) (owner : String) (user : AuthUser) (password : String)
      → Keeps stored tokens (set_password env ha recovery owner user password)
  unfolding set_password
  password-Keeps recovery owner user password = elim (Bool-cases (user.username == "")) [
    | inl new ↦
        rw (new, set_password)
          (tell-Keeps stored tokens (server.quiet_attach owner user.id _ password))
    | inr old ↦ elim (Bool-cases recovery) [
      | inl again ↦
          rw (old, again, set_password)
            (tell-Keeps stored tokens (server.quiet_reset owner user.id password))
      | inr fresh ↦ rw (old, fresh, set_password) (raise-Keeps stored tokens _)
    ]
  ]

  password-Costs :
      (recovery : Bool) (owner : String) (user : AuthUser) (password : String)
      → Costs stored tokens 0 (set_password env ha recovery owner user password)
  unfolding set_password
  password-Costs recovery owner user password = elim (Bool-cases (user.username == "")) [
    | inl new ↦
        rw (new, set_password)
          (tell-Costs stored tokens (server.quiet_attach owner user.id _ password))
    | inr old ↦ elim (Bool-cases recovery) [
      | inl again ↦
          rw (old, again, set_password)
            (tell-Costs stored tokens (server.quiet_reset owner user.id password))
      | inr fresh ↦ rw (old, fresh, set_password) (raise-Costs stored tokens _)
    ]
  ]

  token-Keeps :
      (session client : String)
      → Keeps stored tokens (ask (env.create_long_lived_token session client))
  unfolding ask IsIssued
  token-Keeps session client = record {
    holds = λ s w (late, t, here, stored_late).
        (late, t, server.issue_stored session client w ∙ here, stored_late);
  }

  token-Costs :
      (session client : String)
      → Costs stored tokens 1 (ask (env.create_long_lived_token session client))
  unfolding ask
  token-Costs session client = record { bound = λ s w. server.issue_tokens session client w }

  issue-Keeps :
      (recovery : Bool) (owner : String) (user : AuthUser)
      → Keeps stored tokens (issue_token env ha recovery owner user)
  unfolding issue_token
  issue-Keeps recovery owner user =
      bind-Keeps stored tokens (ask-Keeps stored tokens server.quiet_random) (λ password.
        bind-Keeps stored tokens (password-Keeps recovery owner user password) (λ _.
          bind-Keeps stored tokens (ask-Keeps stored tokens (server.quiet_login _ password))
            (λ session. bind-Keeps stored tokens (secret-Keeps stored tokens) (λ s.
              bind-Keeps stored tokens (token-Keeps session _)
                (λ token. verify-Keeps recovery user token)))))

  issue-Costs :
      (recovery : Bool) (owner : String) (user : AuthUser)
      → Costs stored tokens 1 (issue_token env ha recovery owner user)
  unfolding issue_token
  issue-Costs recovery owner user =
      bind-Costs stored tokens (ask-Costs stored tokens server.quiet_random) (λ password.
        bind-Costs stored tokens (password-Costs recovery owner user password) (λ _.
          bind-Costs stored tokens (ask-Costs stored tokens (server.quiet_login _ password))
            (λ session. bind-Costs stored tokens (secret-Costs stored tokens) (λ s.
              bind_first stored tokens (token-Costs session _)
                (λ token. verify-Costs recovery user token)))))

  -- No token was issued, or one was, and both Secrets say so.
  abbrev pub IsAccounted : {A : Type 0} → W → (Result A × Secret) × W → Type 0
  IsAccounted w y =
      (tokens y.1 ≤ tokens w) ⊎ ((tokens y.1 ≤ tokens w + 1) × IsIssued stored tokens y.0.1 y.1)

  issued :
      (recovery : Bool) (owner : String) (user : AuthUser) (s : Secret) (w : W)
      → IsAccounted w (issue_operator_credential env ha recovery owner user s w)
  unfolding issue_operator_credential ◌>>=◌ modify tell_secret IsIssued
  issued recovery owner user s w =
      let s' = annotate stage_key "Issuing" s in
      let w' = (env.update_secret s' w).1 in
      elim (Option-cases (env.update_secret s' w).0) [
        | inr (e, refused) ↦ inl (rw refused (omega (arith, server.save_tokens s' w)))
        | inl accepted ↦ inr (
            rw accepted (
              omega (arith, (issue-Costs recovery owner user).bound s' w', server.save_tokens s' w),
              (issue-Keeps recovery owner user).holds s' w'
                  (IsLate-issuing s, s', server.saved s' w accepted, IsLate-issuing s),
            ))
      ]

  obtain-Costs :
      (owner : String) (found : Option AuthUser)
      → Costs stored tokens 0 (obtain_operator env ha owner found)
  unfolding obtain_operator create_operator adopt_operator
  obtain-Costs owner none = bind-Costs stored tokens (secret-Costs stored tokens) (λ s.
      bind-Costs stored tokens (raise_if-Costs stored tokens _ _) (λ _.
        bind-Costs stored tokens (raise_if-Costs stored tokens _ _) (λ _.
          bind-Costs stored tokens (modify-Costs stored tokens _) (λ _.
            bind-Costs stored tokens save-Costs
              (λ _. ask-Costs stored tokens (server.quiet_create owner _ _))))))
  obtain-Costs owner (some u) = bind-Costs stored tokens (secret-Costs stored tokens) (λ s.
      bind-Costs stored tokens (raise_if-Costs stored tokens _ _) (λ _.
        bind-Costs stored tokens (raise_if-Costs stored tokens _ _)
          (λ _. pure-Costs stored tokens u)))

  grant-Costs : (owner : String) (u : AuthUser) → Costs stored tokens 0 (grant_admin env ha owner u)
  unfolding grant_admin
  grant-Costs owner u = elim (Bool-cases (any (λ g. g == admin_group) u.group_ids)) [
    | inl has ↦ rw (has, grant_admin) (pure-Costs stored tokens tt)
    | inr lacks ↦
        rw (lacks, grant_admin) (tell-Costs stored tokens (server.quiet_update owner u.id _))
  ]

  ensure-Costs : (owner : String) → Costs stored tokens 0 (ensure_operator_user env ha owner)
  unfolding ensure_operator_user
  ensure-Costs owner =
      bind-Costs stored tokens (ask-Costs stored tokens (server.quiet_list owner)) (λ users.
        bind-Costs stored tokens (secret-Costs stored tokens) (λ s.
          bind-Costs stored tokens (lift-Costs stored tokens _) (λ found.
            bind-Costs stored tokens (obtain-Costs owner found) (λ user.
              bind-Costs stored tokens (modify-Costs stored tokens _) (λ _.
                bind-Costs stored tokens save-Costs (λ _.
                  bind-Costs stored tokens (grant-Costs owner user)
                    (λ _. pure-Costs stored tokens user)))))))

  after_issued :
      (recovery : Bool) (owner : String) (w : W) (x : (Result AuthUser × Secret) × W)
      → tokens x.1 ≤ tokens w
      → IsAccounted w (after x (issue_operator_credential env ha recovery owner))
  after_issued recovery owner w ((err e, s), w') h = inl h
  after_issued recovery owner w ((ok user, s), w') h = elim (issued recovery owner user s w') [
    | inl none_issued ↦ inl (omega (arith, none_issued, h))
    | inr (one, noted) ↦ inr (omega (arith, one, h), noted)
  ]

  -- Provisioning issues at most one long-lived token. If it issues one, then both the managed Secret in
  -- memory and the one that the API server stores are in the stage Issuing or Verified when it ends,
  -- whether it succeeds or fails. A failed write of the Secret leaves it as it was, and no other
  -- call of Home Assistant issues tokens or writes the Secret.
  pub provision-IsAccounted :
      (recovery : Bool) (owner : String) (s : Secret) (w : W)
      → IsAccounted w (provision_operator_credential env ha recovery owner s w)
  unfolding provision_operator_credential ◌>>=◌
  provision-IsAccounted recovery owner s w =
      after_issued recovery owner w (ensure_operator_user env ha owner s w)
        (omega (arith, (ensure-Costs owner).bound s w))
