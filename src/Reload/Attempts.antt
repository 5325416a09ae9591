-- ===== src/Reload/Attempts.antt =====
-- internal/controller/reload_helpers.go: when a reload succeeds, and how many calls it makes.
use homeassistant_operator.Prelude.{
  ℕ, zero, suc, ◌+◌, ◌-◌, ◌≤◌, ◌<◌, ◌≡◌, ◌≢◌, ◌↔◌, ◌⊎◌, refl, sym, ap, ◌∙◌, inl, inr, true, false,
  Option, none, some, [], ◌∷◌, ltb, arith, length, length-append, Bool-cases, Option-cases,
  if◌then◌else◌,
}
use homeassistant_operator.Reload.{
  Text, CallError, Check, unknown, loaded, ReloadConfig, skipped, failed, component_check_failed,
  component_not_loaded, ReloadResult, take, truncate_string, failure, rounds, retry, new_result,
  attempt_all, perform_reload_with_retry,
}

length-take : (n : ℕ) (s : Text) → length (take n s) ≤ n
length-take zero s = omega arith
length-take (suc n) [] = omega arith
length-take (suc n) (c ∷ s) = omega (arith, length-take n s)

-- A truncated text is never longer than the limit, and a text within the limit is left as it is.
pub truncate_string-fits :
    (s : Text) (max_len : ℕ)
    → (length (truncate_string s max_len) ≤ max_len)
      × (length s ≤ max_len → truncate_string s max_len ≡ s)
unfolding truncate_string
truncate_string-fits s max_len = (
  ground (
    arith,
    length-take max_len s,
    length-take (max_len - 3) s,
    length-append (take (max_len - 3) s) (46 ∷ 46 ∷ 46 ∷ []),
  ),
  λ h. ground arith,
)

-- The attempts before `n`, counted from `first`, have all failed.
abbrev pub AllFail : (ℕ → Option CallError) → ℕ → ℕ → Type 0
AllFail reload first n = (k : ℕ) → first ≤ k → k < n → reload k ≢ none

-- A reload that was tried: it stopped at the first attempt without an error, or after the last one.
pub record IsTried (reload : ℕ → Option CallError) (max : ℕ) (r : ReloadResult) : Type 0 where
  pub bounded : r.attempts ≤ max
  pub earlier : AllFail reload 1 r.attempts
  pub succeeds : r.success ≡ true → (1 ≤ r.attempts) × (reload r.attempts ≡ none)
  pub fails : r.success ≡ false → (r.attempts ≡ max) × AllFail reload 1 (max + 1)
  pub delayed : r.delays ≡ r.attempts - 1

-- The loop before the attempt `attempt`, with `left` rounds left of `max`.
record IsAhead (reload : ℕ → Option CallError) (max left attempt : ℕ) (r : ReloadResult)
    : Type 0 where
  here : attempt + left ≡ max + 1
  positive : 1 ≤ attempt
  earlier : AllFail reload 1 attempt
  attempted : r.attempts ≡ attempt - 1
  slept : 1 ≤ left → r.delays ≡ attempt - 1
  slept_last : left ≡ 0 → r.delays ≡ max - 1

AllFail-step :
    (reload : ℕ → Option CallError) (n : ℕ)
    → AllFail reload 1 n
    → reload n ≢ none
    → AllFail reload 1 (n + 1)
AllFail-step reload n h bad k low high = elim (Bool-cases (ltb k n)) [
  | inl before ↦ h k low (ground arith)
  | inr after ↦ let same : k ≡ n = ground arith in rw same bad
]

-- The result of a round that failed.
abbrev round_failed : ReloadConfig → ℕ → ReloadResult → ReloadResult
round_failed config attempt r =
    let r' = record r { attempts = attempt } in
    if ltb attempt (rounds config.max_retries) then record r' { delays = r.delays + 1 } else r'

round_failed-attempts :
    (config : ReloadConfig) (attempt : ℕ) (r : ReloadResult)
    → (round_failed config attempt r).attempts ≡ attempt
round_failed-attempts config attempt r =
    elim (Bool-cases (ltb attempt (rounds config.max_retries))) [
      | inl e ↦ rw e refl
      | inr e ↦ rw e refl
    ]

round_failed-delays :
    (config : ReloadConfig) (attempt : ℕ) (r : ReloadResult)
    → (round_failed config attempt r).delays
      ≡ (if ltb attempt (rounds config.max_retries) then r.delays + 1 else r.delays)
round_failed-delays config attempt r = elim (Bool-cases (ltb attempt (rounds config.max_retries))) [
  | inl e ↦ rw e refl
  | inr e ↦ rw e refl
]

retry-IsTried :
    (config : ReloadConfig) (reload : ℕ → Option CallError) (left attempt : ℕ)
    (last_err : Option CallError) (r : ReloadResult)
    → IsAhead reload (rounds config.max_retries) left attempt r
    → IsTried reload (rounds config.max_retries) (retry config reload left attempt last_err r)
unfolding retry
retry-IsTried config reload zero attempt last_err r a = record {
  bounded = omega (arith, a.here, a.attempted);
  earlier = λ k low high. a.earlier k low (omega (arith, a.attempted, a.positive));
  succeeds = λ h. absurd (cc h);
  fails = λ _.
      (omega (arith, a.here, a.attempted), λ k low high. a.earlier k low (omega (arith, a.here)));
  delayed = omega (arith, a.slept_last refl, a.here, a.attempted);
}
retry-IsTried config reload (suc left) attempt last_err r a = elim (Option-cases (reload attempt)) [
  | inl works ↦
      rw (retry, works)
        (record {
          bounded = omega (arith, a.here);
          earlier = a.earlier;
          succeeds = λ _. (a.positive, works);
          fails = λ h. absurd (cc h);
          delayed = a.slept (omega arith);
        })
  | inr (e, fails) ↦
      rw (retry, fails)
        (retry-IsTried config reload left (attempt + 1) (some e) (round_failed config attempt r)
          (record {
            here = omega (arith, a.here);
            positive = omega arith;
            earlier = AllFail-step reload attempt a.earlier (λ none_left. cc (none_left, fails));
            attempted = round_failed-attempts config attempt r ∙ omega arith;
            slept = λ more.
                round_failed-delays config attempt r
                ∙ ground (arith, a.slept (omega arith), a.here, a.positive);
            slept_last = λ last.
                round_failed-delays config attempt r
                ∙ ground (arith, a.slept (omega arith), a.here, a.positive);
          }))
]

skipping :
    (config : ReloadConfig) (check : Check) (reload : ℕ → Option CallError)
    → config.skip_component_check ≡ true
    → perform_reload_with_retry config check reload ≡ attempt_all config reload
unfolding perform_reload_with_retry
skipping config check reload skip = simp skip

-- What the component check decides.
abbrev checked_reload : ReloadConfig → Check → (ℕ → Option CallError) → ReloadResult
checked_reload config (unknown e) reload = failure new_result failed (component_check_failed e)
checked_reload config (loaded false) reload =
    failure new_result skipped (component_not_loaded config.component_name)
checked_reload config (loaded true) reload = attempt_all config reload

checking :
    (config : ReloadConfig) (check : Check) (reload : ℕ → Option CallError)
    → config.skip_component_check ≡ false
    → perform_reload_with_retry config check reload ≡ checked_reload config check reload
unfolding perform_reload_with_retry
checking config (unknown e) reload checked = simp checked
checking config (loaded false) reload checked = simp checked
checking config (loaded true) reload checked = simp checked

checked-IsReady :
    (config : ReloadConfig) (check : Check) (reload : ℕ → Option CallError)
    → (checked_reload config check reload).success ≡ true
    → (config.skip_component_check ≡ true) ⊎ (check ≡ loaded true)
checked-IsReady config (unknown e) reload h = absurd (cc h)
checked-IsReady config (loaded false) reload h = absurd (cc h)
checked-IsReady config (loaded true) reload h = inr refl

success-IsReady :
    (config : ReloadConfig) (check : Check) (reload : ℕ → Option CallError)
    → (perform_reload_with_retry config check reload).success ≡ true
    → (config.skip_component_check ≡ true) ⊎ (check ≡ loaded true)
success-IsReady config check reload h = elim (Bool-cases config.skip_component_check) [
  | inl skip ↦ inl skip
  | inr checked ↦
      checked-IsReady config check reload
        (ap (λ r. r.success) (sym (checking config check reload checked)) ∙ h)
]

-- A reload whose component check is skipped, or finds the component loaded, calls Home Assistant until
-- the first call without an error, at most `MaxRetries` times and not at all if that number is not
-- positive; it sleeps between two calls and not after the last; and it fails only if every call failed.
pub reload-IsTried :
    (config : ReloadConfig) (check : Check) (reload : ℕ → Option CallError)
    → (config.skip_component_check ≡ true) ⊎ (check ≡ loaded true)
    → IsTried reload (rounds config.max_retries) (perform_reload_with_retry config check reload)
unfolding perform_reload_with_retry
reload-IsTried config check reload ready =
    let tried =
      retry-IsTried config reload (rounds config.max_retries) 1 none
        (record new_result { component_loaded = true })
        (record {
          here = omega arith;
          positive = omega arith;
          earlier = λ k low high. absurd (omega arith);
          attempted = refl;
          slept = λ _. refl;
          slept_last = λ none_left. omega (arith, none_left);
        }) in
    elim ready [
      | inl skip ↦ rw (skipping config check reload skip) tried
      | inr is_loaded ↦ elim (Bool-cases config.skip_component_check) [
        | inl skip ↦ rw (skipping config check reload skip) tried
        | inr checked ↦ rw (checking config check reload checked, is_loaded) tried
      ]
    ]

-- A reload succeeds exactly if its component check is skipped or finds the component loaded and one of
-- the first `MaxRetries` calls has no error.
pub reload-success_iff :
    (config : ReloadConfig) (check : Check) (reload : ℕ → Option CallError)
    → ((perform_reload_with_retry config check reload).success ≡ true) ↔ (
        ((config.skip_component_check ≡ true) ⊎ (check ≡ loaded true))
        × ((k : ℕ) × (1 ≤ k) × (k ≤ rounds config.max_retries) × (reload k ≡ none)))
reload-success_iff config check reload =
    let r = perform_reload_with_retry config check reload in
    (
      λ h.
          let ready = success-IsReady config check reload h in
          let tried = reload-IsTried config check reload ready in
          let (low, works) = tried.succeeds h in (ready, (r.attempts, low, tried.bounded, works)),
      λ (ready, (k, low, high, works)). elim (Bool-cases r.success) [
        | inl good ↦ good
        | inr bad ↦ absurd (
            (((reload-IsTried config check reload ready).fails bad).1 k low (omega (arith, high)))
              works)
      ],
    )
