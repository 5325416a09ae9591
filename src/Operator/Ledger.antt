-- ===== src/Operator/Ledger.antt =====
-- internal/controller/operator_account.go: the stages of the managed Secret as a ledger of the tokens
-- that were issued.
use homeassistant_operator.Prelude.{
  ℕ, String, ◌+◌, ◌≤◌, ◌≡◌, ◌⊎◌, ◌∙◌, Bool, Option, none, some, List, arith,
}
use homeassistant_operator.Cluster.{Failure, Result, ok, err, value_at, Secret}
use homeassistant_operator.Credentials.{stage_key}
use homeassistant_operator.Operator.Act.{
  Env, Act, pure, raise, secret, modify, ask, tell, raise_if, lift, after, ◌>>=◌,
}

-- The stage says that a token may have been issued.
unfoldable pub IsLate : Secret → Type 0
IsLate s =
    (value_at stage_key s.annotations ≡ "Issuing") ⊎ (value_at stage_key s.annotations ≡ "Verified")

module _ {W : Type 0} (stored : W → Option Secret) (tokens : W → ℕ) where
  -- A call that neither changes the managed Secret nor issues a token.
  pub record IsQuiet {A : Type 0} (call : W → A × W) : Type 0 where
    pub same_stored : (w : W) → stored (call w).1 ≡ stored w
    pub same_tokens : (w : W) → tokens (call w).1 ≡ tokens w

  -- `stored` is the managed Secret of the API server, `tokens` counts the long-lived tokens.
  pub record IsServer (env : Env W) : Type 0 where
    pub saved :
        (s : Secret) (w : W)
        → (env.update_secret s w).0 ≡ none
        → stored (env.update_secret s w).1 ≡ some s
    pub not_saved :
        (s : Secret) (w : W) (e : Failure)
        → (env.update_secret s w).0 ≡ some e
        → stored (env.update_secret s w).1 ≡ stored w
    pub save_tokens : (s : Secret) (w : W) → tokens (env.update_secret s w).1 ≡ tokens w
    pub issue_stored :
        (t n : String) (w : W) → stored (env.create_long_lived_token t n w).1 ≡ stored w
    pub issue_tokens :
        (t n : String) (w : W) → tokens (env.create_long_lived_token t n w).1 ≤ tokens w + 1
    pub quiet_list : (t : String) → IsQuiet (env.list_users t)
    pub quiet_create : (t n : String) (g : List String) → IsQuiet (env.create_auth_user t n g)
    pub quiet_update : (t id : String) (g : List String) → IsQuiet (env.update_auth_user t id g)
    pub quiet_reset : (t id p : String) → IsQuiet (env.reset_local_password t id p)
    pub quiet_attach : (t id n p : String) → IsQuiet (env.attach_local_credentials t id n p)
    pub quiet_login : (n p : String) → IsQuiet (env.login_with_credentials n p)
    pub quiet_user : (t : String) → IsQuiet (env.current_user t)
    pub quiet_health : (t : String) → IsQuiet (env.check_health_with_token t)
    pub quiet_random : IsQuiet env.random_password

  -- A token may have been issued, in the Secret in memory and in the stored one.
  unfoldable pub IsIssued : Secret → W → Type 0
  IsIssued s w = IsLate s × (t : Secret) × (stored w ≡ some t) × IsLate t

  -- A step that keeps this true, whether it fails or not.
  pub record Keeps {A : Type 0} (m : Act W A) : Type 0 where
    pub holds : (s : Secret) (w : W) → IsIssued s w → IsIssued (m s w).0.1 (m s w).1

  -- A step that issues at most so many tokens.
  pub record Costs {A : Type 0} (n : ℕ) (m : Act W A) : Type 0 where
    pub bound : (s : Secret) (w : W) → tokens (m s w).1 ≤ tokens w + n

  after-Keeps :
      {A B : Type 0} (x : (Result A × Secret) × W) (f : A → Act W B)
      → IsIssued x.0.1 x.1
      → ((a : A) → Keeps (f a))
      → IsIssued (after x f).0.1 (after x f).1
  after-Keeps ((ok a, s), w) f h k = (k a).holds s w h
  after-Keeps ((err e, s), w) f h k = h

  pub bind-Keeps :
      {A B : Type 0} {m : Act W A} {f : A → Act W B}
      → Keeps m
      → ((a : A) → Keeps (f a))
      → Keeps (m >>= f)
  unfolding ◌>>=◌
  bind-Keeps {m} {f} h k = record { holds = λ s w i. after-Keeps (m s w) f (h.holds s w i) k }

  pub after-Costs :
      {A B : Type 0} (n : ℕ) (x : (Result A × Secret) × W) (f : A → Act W B)
      → ((a : A) → Costs n (f a))
      → tokens (after x f).1 ≤ tokens x.1 + n
  after-Costs n ((ok a, s), w) f k = (k a).bound s w
  after-Costs n ((err e, s), w) f k = omega arith

  -- The step that comes first issues nothing.
  pub bind-Costs :
      {A B : Type 0} {n : ℕ} {m : Act W A} {f : A → Act W B}
      → Costs 0 m
      → ((a : A) → Costs n (f a))
      → Costs n (m >>= f)
  unfolding ◌>>=◌
  bind-Costs {n} {m} {f} h g = record {
    bound = λ s w. omega (arith, after-Costs n (m s w) f g, h.bound s w);
  }

  -- The step that comes last issues nothing.
  pub bind_first :
      {A B : Type 0} {n : ℕ} {m : Act W A} {f : A → Act W B}
      → Costs n m
      → ((a : A) → Costs 0 (f a))
      → Costs n (m >>= f)
  unfolding ◌>>=◌
  bind_first {n} {m} {f} h g = record {
    bound = λ s w. omega (arith, after-Costs 0 (m s w) f g, h.bound s w);
  }

  pub ask-Keeps : {A : Type 0} {call : W → Result A × W} → IsQuiet call → Keeps (ask call)
  unfolding ask IsIssued
  ask-Keeps q = record {
    holds = λ s w (late, t, here, stored_late). (late, t, q.same_stored w ∙ here, stored_late);
  }

  pub tell-Keeps : {call : W → Option Failure × W} → IsQuiet call → Keeps (tell call)
  unfolding tell IsIssued
  tell-Keeps q = record {
    holds = λ s w (late, t, here, stored_late). (late, t, q.same_stored w ∙ here, stored_late);
  }

  pub ask-Costs : {A : Type 0} {call : W → Result A × W} → IsQuiet call → Costs 0 (ask call)
  unfolding ask
  ask-Costs q = record { bound = λ s w. omega (arith, q.same_tokens w) }

  pub tell-Costs : {call : W → Option Failure × W} → IsQuiet call → Costs 0 (tell call)
  unfolding tell
  tell-Costs q = record { bound = λ s w. omega (arith, q.same_tokens w) }

  pub modify-Keeps :
      (f : Secret → Secret) → ((s : Secret) → IsLate s → IsLate (f s)) → Keeps (modify f)
  unfolding modify IsIssued
  modify-Keeps f h = record {
    holds = λ s w (late, t, here, stored_late). (h s late, t, here, stored_late);
  }

  pub modify-Costs : (f : Secret → Secret) → Costs 0 (modify f)
  unfolding modify
  modify-Costs f = record { bound = λ s w. omega arith }

  pub raise_if-Keeps : (c : Bool) (e : Failure) → Keeps (raise_if c e)
  unfolding raise_if
  raise_if-Keeps c e = record { holds = λ s w i. i }

  pub raise_if-Costs : (c : Bool) (e : Failure) → Costs 0 (raise_if c e)
  unfolding raise_if
  raise_if-Costs c e = record { bound = λ s w. omega arith }

  pub raise-Keeps : {A : Type 0} (e : Failure) → Keeps (raise {A = A} e)
  unfolding raise
  raise-Keeps e = record { holds = λ s w i. i }

  pub raise-Costs : {A : Type 0} (e : Failure) → Costs 0 (raise {A = A} e)
  unfolding raise
  raise-Costs e = record { bound = λ s w. omega arith }

  pub secret-Keeps : Keeps secret
  unfolding secret
  secret-Keeps = record { holds = λ s w i. i }

  pub secret-Costs : Costs 0 secret
  unfolding secret
  secret-Costs = record { bound = λ s w. omega arith }

  pub pure-Costs : {A : Type 0} (a : A) → Costs 0 (pure a)
  unfolding pure
  pure-Costs a = record { bound = λ s w. omega arith }

  pub lift-Costs : {A : Type 0} (r : Result A) → Costs 0 (lift r)
  unfolding lift
  lift-Costs r = record { bound = λ s w. omega arith }
