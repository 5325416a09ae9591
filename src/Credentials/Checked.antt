-- ===== src/Credentials/Checked.antt =====
-- What a token that `get_api_token` returns is known to be, and which Secret it comes from.
use homeassistant_operator.Prelude.{
  ℕ, String, ◌≡◌, ◌≢◌, ◌&&◌, Bool, true, false, not, none, some, List, [], ◌∷◌, ◌==◌, eq_iff, codes,
  any, All, arith, Bool-cases, Option-cases, inl, inr, refl,
}
use homeassistant_operator.Cluster.{
  Result, ok, err, value_at, Secret, OperatorAccountSpec, BootstrapStatus, HomeAssistant, Api,
}
use homeassistant_operator.Credentials.{
  stage_key, user_key, is_blank, is_all_space, is_padded, validate_operator_secret, checked_token,
  dedicated_token, owned_by, active_account, get_api_token, dedicated_operator_account,
  legacy_mode_name, default_name, token_secret_name, is_migrating, legacy_token,
}

-- A managed Secret of `ha` whose token was verified, and that token.
pub record IsVerified (ha : HomeAssistant) (s : Secret) (t : String) : Type 0 where
  pub same_namespace : s.namespace ≡ ha.namespace
  pub owned : owned_by ha s.owner ≡ true
  pub opaque : s.type ≡ "Opaque"
  pub verified : value_at stage_key s.annotations ≡ "Verified"
  pub identified : value_at user_key s.annotations ≢ ""
  pub stored : value_at "token" s.contents ≡ t
  pub not_empty : is_all_space (codes t) ≡ false
  pub not_padded : is_padded (codes t) ≡ false
  pub no_blank : All (λ c. is_blank c ≡ false) (codes t)

any-false : (p : ℕ → Bool) (s : List ℕ) → any p s ≡ false → All (λ c. p c ≡ false) s
any-false p [] h = tt
any-false p (c ∷ s) h = (ground arith, any-false p s (ground arith))

record IsAccepted (ha : HomeAssistant) (s : Secret) : Type 0 where
  same_namespace : s.namespace ≡ ha.namespace
  owned : owned_by ha s.owner ≡ true
  opaque : s.type ≡ "Opaque"

validate-IsAccepted :
    (ha : HomeAssistant) (s : Secret) → validate_operator_secret ha s ≡ none → IsAccepted ha s
unfolding validate_operator_secret
validate-IsAccepted ha s h = ground (arith, eq_iff s.namespace ha.namespace, eq_iff s.type "Opaque")

record IsChecked (s : Secret) (t : String) : Type 0 where
  verified : value_at stage_key s.annotations ≡ "Verified"
  identified : value_at user_key s.annotations ≢ ""
  stored : value_at "token" s.contents ≡ t
  not_empty : is_all_space (codes t) ≡ false
  not_padded : is_padded (codes t) ≡ false
  no_blank : any is_blank (codes t) ≡ false

checked_token-IsChecked : (s : Secret) (t : String) → checked_token s ≡ ok t → IsChecked s t
unfolding checked_token
checked_token-IsChecked s t h = ground (
  arith,
  eq_iff (value_at stage_key s.annotations) "Verified",
  eq_iff (value_at user_key s.annotations) "",
)

dedicated_token-IsVerified :
    (ha : HomeAssistant) (r : Result Secret) (t : String)
    → dedicated_token ha r ≡ ok t
    → (s : Secret) × (r ≡ ok s) × IsVerified ha s t
unfolding dedicated_token
dedicated_token-IsVerified ha (err e) t h = cc
dedicated_token-IsVerified ha (ok s) t h = elim (Option-cases (validate_operator_secret ha s)) [
  | inr (e, bad) ↦ absurd (cc (rw (bad, dedicated_token) at h))
  | inl good ↦
      let a = validate-IsAccepted ha s good in
      let c = checked_token-IsChecked s t (rw (good, dedicated_token) at h) in
      (
        s,
        refl,
        record {
          same_namespace = a.same_namespace;
          owned = a.owned;
          opaque = a.opaque;
          verified = c.verified;
          identified = c.identified;
          stored = c.stored;
          not_empty = c.not_empty;
          not_padded = c.not_padded;
          no_blank = any-false is_blank (codes t) c.no_blank;
        },
      )
]

module _ {W : Type 0} (api : Api W) (ha : HomeAssistant) (w : W) where
  -- Reading the token reads one Secret of the instance's namespace.
  pub get_api_token-reads :
      (name : String) × ((get_api_token api ha w).1 ≡ (api.get_secret ha.namespace name w).1)
  unfolding get_api_token
  get_api_token-reads = elim (Option-cases (active_account ha)) [
    | inl legacy ↦ (token_secret_name ha, rw (legacy, get_api_token) refl)
    | inr (a, active) ↦ (a.token_secret_name, rw (active, get_api_token) refl)
  ]

  -- For an instance whose active account is a dedicated one, every token that `get_api_token`
  -- returns is read from the Secret that the account names, in the namespace of the instance. That
  -- Secret is controlled by the instance, its stage is Verified, its user is known, and the token
  -- is neither empty nor padded nor contains a space, a tab or a line break.
  pub get_api_token-IsVerified :
      (a : OperatorAccountSpec) (t : String)
      → active_account ha ≡ some a
      → (get_api_token api ha w).0 ≡ ok t
      → (s : Secret) × ((api.get_secret ha.namespace a.token_secret_name w).0 ≡ ok s)
        × IsVerified ha s t
  unfolding get_api_token
  get_api_token-IsVerified a t active h =
      dedicated_token-IsVerified ha (api.get_secret ha.namespace a.token_secret_name w).0 t
        (rw (active, get_api_token) at h)

not_legacy : (mode : String) → mode ≡ "dedicated" → (mode == "legacy") ≡ false
not_legacy mode e = rw e refl

dedicated-mode :
    (ha : HomeAssistant) (a : OperatorAccountSpec)
    → dedicated_operator_account ha ≡ some a
    → legacy_mode_name ha ≡ none
unfolding dedicated_operator_account legacy_mode_name
dedicated-mode ha a h = elim (Option-cases ha.bootstrap) [
  | inl no_bootstrap ↦ absurd (cc (rw (no_bootstrap, dedicated_operator_account) at h))
  | inr (b, boot) ↦ elim (Option-cases b.operator_account) [
    | inl no_account ↦ absurd (cc (rw (boot, no_account, dedicated_operator_account) at h))
    | inr (o, account) ↦ elim (Bool-cases (o.mode == "dedicated")) [
      | inr other ↦ absurd (cc (rw (boot, account, other, dedicated_operator_account) at h))
      | inl dedicated ↦
          rw
            (
              boot,
              account,
              legacy_mode_name,
              not_legacy o.mode ((eq_iff o.mode "dedicated").0 dedicated),
            )
            refl
    ]
  ]
]

record IsMigrating (a : OperatorAccountSpec) (ha : HomeAssistant) (b : BootstrapStatus)
    : Type 0 where
  status : ha.bootstrap_status ≡ some b
  default : default_name ha ≡ b.api_token_secret_name
  filled : b.api_token_secret_name ≢ ""
  other : b.api_token_secret_name ≢ a.token_secret_name

IsMigrating-default :
    (a : OperatorAccountSpec) (ha : HomeAssistant)
    → is_migrating a ha ≡ true
    → (b : BootstrapStatus) × IsMigrating a ha b
unfolding is_migrating default_name
IsMigrating-default a ha m = elim (Option-cases ha.bootstrap_status) [
  | inl no_status ↦ absurd (cc (rw (no_status, is_migrating) at m))
  | inr (b, status) ↦
      let name = b.api_token_secret_name in
      let tests : (not (name == "")
            && not (name == a.token_secret_name)
            && elim b.operator_account [ none ↦ true | some o ↦ not (o.phase == "Verified") ])
          ≡ true =
        rw (status, is_migrating) at m in
      (
        b,
        record {
          status = status;
          default = rw (status, default_name) (ground arith);
          filled = ground (arith, eq_iff name "");
          other = ground (arith, eq_iff name a.token_secret_name);
        },
      )
]

module _ {W : Type 0} (api : Api W) (ha : HomeAssistant) (w : W) where
  -- As long as an instance with a dedicated account is migrating, its bootstrap status names a Secret
  -- other than that of the dedicated account, and the token is read from that Secret, in the namespace
  -- of the instance, as a legacy token, which needs no mark of a verified one.
  pub get_api_token-migrating :
      (a : OperatorAccountSpec)
      → dedicated_operator_account ha ≡ some a
      → is_migrating a ha ≡ true
      → (b : BootstrapStatus) × (ha.bootstrap_status ≡ some b)
        × (b.api_token_secret_name ≢ "")
        × (b.api_token_secret_name ≢ a.token_secret_name)
        × ((get_api_token api ha w).0
            ≡ legacy_token (api.get_secret ha.namespace b.api_token_secret_name w).0)
  unfolding get_api_token active_account token_secret_name
  get_api_token-migrating a h m =
      let (b, d) = IsMigrating-default a ha m in
      let legacy : active_account ha ≡ none = rw (active_account, h, m) refl in
      let named : token_secret_name ha ≡ b.api_token_secret_name =
        rw (token_secret_name, dedicated-mode ha a h) d.default in
      (b, d.status, d.filled, d.other, rw (get_api_token, legacy, named) refl)
