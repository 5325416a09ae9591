-- ===== src/Reload.antt =====
-- internal/controller/reload_helpers.go: hot-reloading a Home Assistant component, with retries. The
-- answers of Home Assistant are arguments: that of the component check, and for each attempt, counted
-- from 1, the error of the reload call, `none` if it succeeds. Durations and the random id are left out.
pub mod Attempts
mod Tests
use homeassistant_operator.Prelude.{
  ℕ, zero, suc, ◌+◌, ◌-◌, ◌≡◌, ◌⊎◌, refl, inl, inr, Bool, true, false, Option, none, some, List, [],
  ◌∷◌, ◌++◌, String, ltb, leb, length, ℤ, pos, negsuc, if◌then◌else◌,
}

abbrev pub Text : Type 0
Text = List ℕ

pub record HaError : Type 0 where
  pub status_code : ℕ
  pub message : Text

-- An error, with the `haclient.Error` in its chain if it wraps one.
pub record CallError : Type 0 where
  pub ha_error : Option HaError
  pub text : Text

-- The component check: an error, or whether the component is loaded.
pub data Check : Type 0 where
  unknown : CallError → Check
  loaded : Bool → Check

pub record ReloadConfig : Type 0 where
  pub max_retries : ℤ
  pub component_name : String
  pub skip_component_check : Bool

pub data Method : Type 0 where
  hot_reload skipped failed : Method

pub data ReloadError : Type 0 where
  component_check_failed : CallError → ReloadError
  component_not_loaded : String → ReloadError
  attempts_failed : ℤ → Option CallError → ReloadError

-- `delays` counts how often the loop slept.
pub record ReloadResult : Type 0 where
  pub success : Bool
  pub method : Method
  pub error : Option ReloadError
  pub attempts : ℕ
  pub component_loaded : Bool
  pub delays : ℕ

get_status_code : CallError → ℕ
get_status_code e = elim e.ha_error [ some h ↦ h.status_code | none ↦ 0 ]

get_response_body : Option CallError → Text
get_response_body none = []
get_response_body (some e) = elim e.ha_error [ some h ↦ h.message | none ↦ e.text ]

abbrev pub take : ℕ → Text → Text
take zero s = []
take (suc n) [] = []
take (suc n) (c ∷ s) = c ∷ take n s

-- On the bytes of a text, for a length that is not negative.
unfoldable pub truncate_string : Text → ℕ → Text
truncate_string s max_len =
    if leb (length s) max_len
    then s
    else if leb max_len 3
    then take max_len s
    else take (max_len - 3) s ++ 46 ∷ 46 ∷ 46 ∷ []

abbrev pub failure : ReloadResult → Method → ReloadError → ReloadResult
failure r method e = record r { success = false; method = method; error = some e }

-- How often the condition `attempt <= config.MaxRetries` can hold.
abbrev pub rounds : ℤ → ℕ
rounds (pos n) = n
rounds (negsuc n) = 0

-- The loop from this attempt on, with the number of rounds that are left.
unfoldable pub retry :
    ReloadConfig
    → (ℕ → Option CallError)
    → (left attempt : ℕ) → Option CallError
    → ReloadResult
    → ReloadResult
retry config reload zero attempt last_err r =
    failure r failed (attempts_failed config.max_retries last_err)
retry config reload (suc left) attempt last_err r =
    let r' = record r { attempts = attempt } in
    elim (reload attempt) [
      | none ↦ record r' { success = true; method = hot_reload }
      | some e ↦ retry config reload left (attempt + 1) (some e) (
          if ltb attempt (rounds config.max_retries)
          then record r' { delays = r.delays + 1 }
          else r')
    ]

abbrev pub new_result : ReloadResult
new_result = record {
  success = false;
  method = failed;
  error = none;
  attempts = 0;
  component_loaded = false;
  delays = 0;
}

abbrev pub attempt_all : ReloadConfig → (ℕ → Option CallError) → ReloadResult
attempt_all config reload =
    retry config reload (rounds config.max_retries) 1 none
      (record new_result { component_loaded = true })

unfoldable pub perform_reload_with_retry :
    ReloadConfig → Check → (ℕ → Option CallError) → ReloadResult
perform_reload_with_retry config check reload =
    if config.skip_component_check then attempt_all config reload else elim check [
      | unknown e ↦ failure new_result failed (component_check_failed e)
      | loaded false ↦ failure new_result skipped (component_not_loaded config.component_name)
      | loaded true ↦ attempt_all config reload
    ]

-- What the deferred function adds to the counter of retries.
unfoldable pub counted_retries : ReloadResult → ℕ
counted_retries r = if ltb 1 r.attempts then r.attempts - 1 else 0
