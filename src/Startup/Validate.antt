-- ===== src/Startup/Validate.antt =====
-- `validate_all` of app/core/startup.py.
use yt_dlp_api.Prelude.{
  ℕ, String, Bool, true, false, ◌&&◌, not, Option, none, some, List, [], ◌∷◌, ◌++◌, ltb,
  if◌then◌else◌, length, filter, member, str_eq,
}
use yt_dlp_api.Prelude.Chars.{Text, codes}
use yt_dlp_api.Prelude.Result.{Result}
use yt_dlp_api.Startup.{
  ComponentCheckResult, StartupResult, World, Settings, Validator, reset, check_storage,
  critical_components, check_cookies, add_result, ytdlp_check, ffmpeg_check, nodejs_check,
}
use yt_dlp_api.Startup.Runtime.{configure_ytdlp_runtime}

-- `f"{r.name}: {r.message}"`
abbrev pub told : ComponentCheckResult → Text
told r = codes r.name ++ codes ": " ++ r.message

abbrev pub told_all : List ComponentCheckResult → List Text
told_all [] = []
told_all (r ∷ rs) = told r ∷ told_all rs

abbrev pub find_check : String → List ComponentCheckResult → Option ComponentCheckResult
find_check name [] = none
find_check name (r ∷ rs) = if str_eq r.name name then some r else find_check name rs

abbrev pub has_passed : Option ComponentCheckResult → Bool
has_passed none = false
has_passed (some r) = r.passed

abbrev pub critical_failures : List ComponentCheckResult → List ComponentCheckResult
critical_failures rs = filter (λ r. not r.passed && r.critical) rs

abbrev pub non_critical_failures : List ComponentCheckResult → List ComponentCheckResult
non_critical_failures rs = filter (λ r. not r.passed && not r.critical) rs

-- Whether the service starts, whether degraded, and the validator with its messages.
abbrev pub Decision : Type 0
Decision = Bool × Bool × Validator

abbrev pub has_any : List ComponentCheckResult → Bool
has_any rs = ltb 0 (length rs)

-- The decision, before the failures that are not critical become warnings.
unfoldable pub decide : Bool → List String → Validator → Decision
decide allow_degraded components v =
    let failed = critical_failures v.results in
    let truly_critical = filter (λ r. member r.name components) failed in
    if has_any failed
    then (if allow_degraded
        then (if has_any truly_critical
            then (false, false, record v { failures = v.failures ++ told_all truly_critical })
            else (true, true, record v { cautions = v.cautions ++ told_all failed }))
        else (false, false, record v { failures = v.failures ++ told_all failed }))
    else (true, has_any (non_critical_failures v.results) && allow_degraded, v)

abbrev pub warned : Validator → Validator
warned v = record v { cautions = v.cautions ++ told_all (non_critical_failures v.results) }

abbrev pub startup_result : Bool → Bool → Validator → StartupResult
startup_result success degraded_mode v = record {
  success = success;
  degraded_mode = degraded_mode;
  checks = v.results;
  disabled_providers = v.disabled;
  errors = v.failures;
  warnings = v.cautions;
}

abbrev pub concluded : Decision → Validator × StartupResult
concluded (success, degraded_mode, v) = (warned v, startup_result success degraded_mode (warned v))

module _ (lower : Text → Text) (is_space : ℕ → Bool) (digit_value : ℕ → Option ℕ) where
  unfoldable pub run_checks : World → Settings → Validator → Validator
  unfolding check_storage check_cookies
  run_checks w c v =
      let storage = check_storage w c in
      let v' =
        add_result
          (add_result
            (add_result (add_result v (ytdlp_check lower is_space digit_value w))
              (ffmpeg_check lower is_space digit_value w))
            (nodejs_check lower is_space digit_value w))
          storage.0 in
      let cookies =
        check_cookies lower is_space digit_value w c (record v' { made_directory = storage.1 }) in
      add_result cookies.0 cookies.1

  -- The validator, the result, and the configuration file of yt-dlp, before (`file`) and after.
  unfoldable pub validate_all :
      World
      → Settings
      → Bool
      → Result Text (Option Text)
      → Validator
      → (Validator × StartupResult) × Result Text (Option Text)
  unfolding run_checks decide configure_ytdlp_runtime
  validate_all w c writable file v =
      let v' = run_checks w c (reset v) in
      (
        concluded
            (decide c.allow_degraded_start (critical_components lower is_space digit_value w) v'),
        (if has_passed (find_check "nodejs" v'.results)
            then configure_ytdlp_runtime is_space writable file
            else file),
      )
