-- ===== src/Reload/Tests.antt =====
-- internal/controller/reload_helpers.go: runs on concrete inputs.
use homeassistant_operator.Prelude.{
  ℕ, ◌+◌, ◌*◌, ◌≤◌, ◌≡◌, refl, inr, true, false, Option, none, some, [], ◌∷◌, pos, arith, length,
  eqb, if◌then◌else◌,
}
use homeassistant_operator.Reload.{
  Text, CallError, loaded, ReloadConfig, ReloadResult, truncate_string, perform_reload_with_retry,
  counted_retries, retry,
}
use homeassistant_operator.Reload.Attempts.{
  IsTried, truncate_string-fits, reload-IsTried, reload-success_iff,
}

abbrev scripts : ReloadConfig
scripts = record { max_retries = pos 3; component_name = "script"; skip_component_check = false }

abbrev busy : CallError
busy = record { ha_error = some (record { status_code = 503; message = 98 ∷ [] }); text = 98 ∷ [] }

-- The second attempt works.
abbrev second_works : ℕ → Option CallError
second_works n = if eqb n 2 then none else some busy

abbrev run : ReloadResult
run = perform_reload_with_retry scripts (loaded true) second_works

run_succeeds : run.attempts + 10 * run.delays + 100 * counted_retries run ≡ 112
unfolding perform_reload_with_retry retry counted_retries
run_succeeds = refl

reload-IsTried_example :
    IsTried second_works 3 (perform_reload_with_retry scripts (loaded true) second_works)
reload-IsTried_example = reload-IsTried scripts (loaded true) second_works (inr refl)

reload-success_iff_example :
    (perform_reload_with_retry scripts (loaded true) second_works).success ≡ true
reload-success_iff_example =
    (reload-success_iff scripts (loaded true) second_works).1
      (inr refl, (2, omega arith, omega arith, refl))

abbrev long_text : Text
long_text = 1 ∷ 2 ∷ 3 ∷ 4 ∷ 5 ∷ 6 ∷ []

truncated : truncate_string long_text 5 ≡ 1 ∷ 2 ∷ 46 ∷ 46 ∷ 46 ∷ []
unfolding truncate_string
truncated = refl

truncate_string-fits_example : length (truncate_string long_text 5) ≤ 5
truncate_string-fits_example = (truncate_string-fits long_text 5).0
