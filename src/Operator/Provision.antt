-- ===== src/Operator/Provision.antt =====
-- internal/controller/operator_account.go: provisionOperatorCredential, with ensureOperatorUser and
-- issueOperatorCredential. The Secret in memory is the state of the steps.
use Prim.Native.String.{◌++◌ as str_append}
use homeassistant_operator.Prelude.{
  String, Bool, not, ◌&&◌, ◌||◌, Option, none, some, List, [], ◌∷◌, ◌==◌, any, if◌then◌else◌,
}
use homeassistant_operator.Cluster.{Result, ok, err, other, value_at, Secret, HomeAssistant}
use homeassistant_operator.Credentials.{stage_key, user_key}
use homeassistant_operator.Operator.Act.{
  AuthUser, Env, annotate, Act, pure, raise, secret, modify, ask, tell, tell_secret, raise_if, lift,
  ◌>>=◌, ◌>>◌,
}

abbrev pub recovery_key : String
recovery_key = "homeassistant-operator.io/last-recovery-request-id"

abbrev pub recovery_result_key : String
recovery_result_key = "homeassistant-operator.io/recovery-result"

abbrev pub admin_group : String
admin_group = "system-admin"

abbrev pub identity : HomeAssistant → String
identity ha = str_append "Kubernetes operator " ha.uid

abbrev pub operator_username : HomeAssistant → String
operator_username ha = str_append "ha_operator_" ha.uid

-- The users that may be the operator: by the known id, or by name while there is none.
abbrev pub is_candidate : HomeAssistant → String → AuthUser → Bool
is_candidate ha user_id u =
    (not (user_id == "") && (u.id == user_id)) || ((user_id == "") && (u.name == identity ha))

-- The loop over the users, with the candidate found so far.
unfoldable pub find_operator :
    (AuthUser → Bool) → List AuthUser → Option AuthUser → Result (Option AuthUser)
find_operator p [] found = ok found
find_operator p (u ∷ us) found =
    let skipped = find_operator p us found in
    let taken = find_operator p us (some u) in
    if p u
    then elim found [ none ↦ taken | some v ↦ err (other "ambiguous operator identity") ]
    else skipped

abbrev pub is_conflicting : HomeAssistant → AuthUser → Bool
is_conflicting ha u =
    u.is_owner
    || not (u.name == identity ha)
    || (not (u.username == "") && not (u.username == operator_username ha))

abbrev lacks_intent : Secret → Bool
lacks_intent s =
    (value_at user_key s.annotations == "")
    && not (value_at stage_key s.annotations == "Creating")
    && not (value_at stage_key s.annotations == "Recovering")

module _ {W : Type 0} (env : Env W) (ha : HomeAssistant) where
  abbrev pub save : Act W (Unit {0})
  save = tell_secret env.update_secret

  unfoldable pub create_operator : String → Act W AuthUser
  create_operator owner = do
    s ← secret
    raise_if (not (value_at user_key s.annotations == ""))
        (other "dedicated identity missing; manual repair required")
    raise_if (value_at stage_key s.annotations == "Creating")
        (other "ambiguous user creation; manual repair required")
    modify (annotate stage_key "Creating")
    save
    ask (env.create_auth_user owner (identity ha) (admin_group ∷ []))

  unfoldable pub adopt_operator : AuthUser → Act W AuthUser
  adopt_operator u = do
    s ← secret
    raise_if (is_conflicting ha u) (other "conflicting operator identity")
    raise_if (lacks_intent s) (other "existing identity lacks operator creation intent")
    pure u

  unfoldable pub obtain_operator : String → Option AuthUser → Act W AuthUser
  unfolding create_operator adopt_operator
  obtain_operator owner none = create_operator owner
  obtain_operator owner (some u) = adopt_operator u

  unfoldable pub grant_admin : String → AuthUser → Act W (Unit {0})
  grant_admin owner u =
      if any (λ g. g == admin_group) u.group_ids
      then pure tt
      else tell (env.update_auth_user owner u.id (admin_group ∷ []))

  unfoldable pub ensure_operator_user : String → Act W AuthUser
  unfolding obtain_operator grant_admin find_operator
  ensure_operator_user owner = do
    users ← ask (env.list_users owner)
    s ← secret
    found ← lift (find_operator (is_candidate ha (value_at user_key s.annotations)) users none)
    user ← obtain_operator owner found
    modify (annotate user_key user.id)
    save
    grant_admin owner user
    pure user

  unfoldable pub set_password : Bool → String → AuthUser → String → Act W (Unit {0})
  set_password recovery owner user password =
      if user.username == ""
      then tell (env.attach_local_credentials owner user.id (operator_username ha) password)
      else if not recovery
      then raise (other "interrupted local credential attachment requires explicit recovery")
      else tell (env.reset_local_password owner user.id password)

  -- After the token was issued.
  unfoldable pub verify_token : Bool → AuthUser → String → Act W (Unit {0})
  verify_token recovery user token = do
    modify (λ s. record s { contents = ("token", token) ∷ [] })
    save
    principal ← ask (env.current_user token)
    raise_if (not (principal.id == user.id) || principal.is_owner || not principal.is_admin)
        (other "unexpected runtime principal or role")
    tell (env.check_health_with_token token)
    modify (annotate stage_key "Verified")
    modify (λ s. if recovery then annotate recovery_result_key "Succeeded" s else s)
    save

  -- After the stage Issuing is saved.
  unfoldable pub issue_token : Bool → String → AuthUser → Act W (Unit {0})
  unfolding set_password verify_token
  issue_token recovery owner user = do
    password ← ask env.random_password
    set_password recovery owner user password
    session ← ask (env.login_with_credentials (operator_username ha) password)
    s ← secret
    token ← ask (
        env.create_long_lived_token session (
          str_append (str_append "kubernetes-operator-" ha.uid)
            (str_append "-" (value_at recovery_key s.annotations))))
    verify_token recovery user token

  unfoldable pub issue_operator_credential : Bool → String → AuthUser → Act W (Unit {0})
  unfolding issue_token
  issue_operator_credential recovery owner user = do
    modify (annotate stage_key "Issuing")
    save
    issue_token recovery owner user

  unfoldable pub provision_operator_credential : Bool → String → Act W (Unit {0})
  unfolding ensure_operator_user issue_operator_credential
  provision_operator_credential recovery owner = do
    user ← ensure_operator_user owner
    issue_operator_credential recovery owner user
