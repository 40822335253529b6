-- ===== src/Startup/Exact.antt =====
-- When the service starts, by `validate_all` of app/core/startup.py.
use yt_dlp_api.Prelude.{
  ℕ, String, ◌≡◌, refl, sym, ap, ◌∙◌, Bool, true, false, ◌&&◌, ◌||◌, not, Option, List, [], ◌∷◌,
  ◌++◌, ◌==◌, if◌then◌else◌, length, arith,
}
use yt_dlp_api.Prelude.Chars.{Text}
use yt_dlp_api.Prelude.Result.{Result}
use yt_dlp_api.Checks.{check_ytdlp, check_ffmpeg, check_nodejs}
use yt_dlp_api.Startup.{
  ComponentCheckResult, World, Settings, Validator, fails, reset, check_storage, is_test_mode,
  cookie_failure, check_cookies, add_result, ytdlp_check, ffmpeg_check, nodejs_check,
  min_nodejs_version,
}
use yt_dlp_api.Startup.Validate.{run_checks, validate_all, has_passed, find_check}
use yt_dlp_api.Startup.Runtime.{configure_ytdlp_runtime}
use yt_dlp_api.Startup.Usable.{
  Component, storage_usable, storage-Component, ytdlp-Component, ffmpeg-Component, nodejs-Component,
  cookies_usable, Cookies, usable_cookies, failing_cookies, check_cookies-Cookies,
}
use yt_dlp_api.Startup.Decided.{results_shaped, shaped_all, decided}

-- Whether the service may start, by what is usable.
abbrev pub may_start : Bool → Bool → Bool → Bool → Bool → Bool → Bool → Bool
may_start allow_degraded test ytdlp ffmpeg nodejs storage cookies =
    storage && (ytdlp || allow_degraded && test) && (allow_degraded || ffmpeg && nodejs && cookies)

success_table :
    (allow test py pf pn ps pk : Bool)
    → (not (not (py && pf && pn && ps && (pk || allow))) || allow && not (not (ps && (py || test))))
      ≡ may_start allow test py pf pn ps pk
success_table allow test py pf pn ps pk = ground arith

degraded_table :
    (allow test py pf pn ps pk success : Bool)
    → success ≡ may_start allow test py pf pn ps pk
    → (allow
        && (if not (py && pf && pn && ps && (pk || allow))
            then not (not (ps && (py || test)))
            else not pk && allow))
      ≡ (allow && success && not (py && pf && pn && ps && pk))
degraded_table allow test py pf pn ps pk success e = rw e (ground arith)

-- The providers that are disabled.
abbrev pub disabled_for : Bool → Bool → Bool → List String
disabled_for allow_degraded test cookies =
    if not cookies && allow_degraded && not test then "youtube" ∷ [] else []

module _ (lower : Text → Text) (is_space : ℕ → Bool) (digit_value : ℕ → Option ℕ) where
  abbrev pub ytdlp_usable : World → Bool
  ytdlp_usable w = (check_ytdlp is_space w.ytdlp).0.available

  abbrev pub ffmpeg_usable : World → Bool
  ffmpeg_usable w = (check_ffmpeg is_space w.ffmpeg).0.available

  abbrev pub nodejs_usable : World → Bool
  nodejs_usable w = (check_nodejs digit_value is_space min_nodejs_version w.nodejs).0.available

  -- What a failing check of the cookies leaves.
  record Refused (allow test : Bool) (v : Validator) (r : Validator × ComponentCheckResult)
      : Type 0 where
    results_kept : r.0.results ≡ v.results
    failures_kept : r.0.failures ≡ v.failures
    disables : r.0.disabled ≡ v.disabled ++ disabled_for allow test false
    component : Component "cookies" (not allow) false r.1

  append_nil : (xs : List String) → xs ++ [] ≡ xs
  append_nil [] = refl
  append_nil (x ∷ xs) = ap (λ t. x ∷ t) (append_nil xs)

  refused :
      (allow test : Bool) (v : Validator) (message : Text)
      → Refused allow test v (
          if allow
          then (
            (if test then v else record v { disabled = v.disabled ++ "youtube" ∷ [] }),
            fails "cookies" false message,
          )
          else (v, fails "cookies" true message))
  refused false test v message = record {
    results_kept = refl;
    failures_kept = refl;
    disables = sym (append_nil v.disabled);
    component = record { named = refl; level = refl; outcome = refl };
  }
  refused true true v message = record {
    results_kept = refl;
    failures_kept = refl;
    disables = sym (append_nil v.disabled);
    component = record { named = refl; level = refl; outcome = refl };
  }
  refused true false v message = record {
    results_kept = refl;
    failures_kept = refl;
    disables = refl;
    component = record { named = refl; level = refl; outcome = refl };
  }

  cookie_failure-Refused :
      (w : World) (c : Settings) (v : Validator) (message : Text)
      → Refused c.allow_degraded_start
          (is_test_mode lower is_space digit_value w)
          v
          (cookie_failure lower is_space digit_value w c v message)
  unfolding cookie_failure
  cookie_failure-Refused w c v message =
      refused c.allow_degraded_start (is_test_mode lower is_space digit_value w) v message

  module _ (w : World) (c : Settings) where
    abbrev test : Bool
    test = is_test_mode lower is_space digit_value w

    abbrev cookies : Bool
    cookies = cookies_usable lower is_space digit_value w c

    -- The validator once all checks have run, with the result `k` of the last.
    record Checked (k : ComponentCheckResult) (v : Validator) : Type 0 where
      kept :
          v.results
          ≡ ytdlp_check lower is_space digit_value w
            ∷ ffmpeg_check lower is_space digit_value w
            ∷ nodejs_check lower is_space digit_value w
            ∷ (check_storage w c).0
            ∷ k
            ∷ []
      clean : v.failures ≡ []
      disables : v.disabled ≡ disabled_for c.allow_degraded_start test cookies
      component : Component "cookies" (not cookies && not c.allow_degraded_start) cookies k

    -- The validator before the check of the cookies.
    abbrev half : Validator → Validator
    half v = record (reset v) {
      results =
          ytdlp_check lower is_space digit_value w
          ∷ ffmpeg_check lower is_space digit_value w
          ∷ nodejs_check lower is_space digit_value w
          ∷ (check_storage w c).0
          ∷ [];
      made_directory = (check_storage w c).1;
    }

    cookies-Checked :
        (v : Validator) (r : Validator × ComponentCheckResult)
        → Cookies lower is_space digit_value w c (half v) cookies r
        → Checked r.1 (add_result r.0 r.1)
    cookies-Checked v r (usable_cookies u e k) = record {
      kept = rw e refl;
      clean = rw e refl;
      disables = rw (e, u) refl;
      component = rw u k;
    }
    cookies-Checked v r (failing_cookies message u e) =
        let f = cookie_failure-Refused w c (half v) message in
        rw e (record {
          kept =
              ap
                (λ rs.
                  rs ++ (cookie_failure lower is_space digit_value w c (half v) message).1 ∷ [])
                f.results_kept;
          clean = f.failures_kept;
          disables = rw u f.disables;
          component = rw u f.component;
        })

    run_checks-Checked :
        (v : Validator)
        → (k : ComponentCheckResult) × Checked k
            (run_checks lower is_space digit_value w c (reset v))
    unfolding run_checks
    run_checks-Checked v =
        let r = check_cookies lower is_space digit_value w c (half v) in
        (r.1, cookies-Checked v r (check_cookies-Cookies lower is_space digit_value w c (half v)))

    shaped_results :
        (v : Validator) (k : ComponentCheckResult)
        → Checked k (run_checks lower is_space digit_value w c (reset v))
        → (run_checks lower is_space digit_value w c (reset v)).results
          ≡ shaped_all c.allow_degraded_start
              (ytdlp_usable w)
              (ffmpeg_usable w)
              (nodejs_usable w)
              (storage_usable w)
              cookies
              (ytdlp_check lower is_space digit_value w)
              (ffmpeg_check lower is_space digit_value w)
              (nodejs_check lower is_space digit_value w)
              (check_storage w c).0
              k
    shaped_results v k m =
        results_shaped c.allow_degraded_start (ytdlp_usable w) (ffmpeg_usable w) (nodejs_usable w)
          (storage_usable w) cookies (ytdlp_check lower is_space digit_value w)
          (ffmpeg_check lower is_space digit_value w) (nodejs_check lower is_space digit_value w)
          (check_storage w c).0 k (run_checks lower is_space digit_value w c (reset v)).results
          m.kept (ytdlp-Component lower is_space digit_value w)
          (ffmpeg-Component lower is_space digit_value w)
          (nodejs-Component lower is_space digit_value w) (storage-Component w c) m.component

    -- yt-dlp's configuration is only looked at where Node.js is usable.
    pub validate_all_file :
        (writable : Bool) (file : Result Text (Option Text)) (v : Validator)
        → (validate_all lower is_space digit_value w c writable file v).1
          ≡ (if nodejs_usable w then configure_ytdlp_runtime is_space writable file else file)
    unfolding validate_all
    validate_all_file writable file v =
        let (k, m) = run_checks-Checked v in
        ap
          (λ rs.
            if has_passed (find_check "nodejs" rs)
            then configure_ytdlp_runtime is_space writable file
            else file)
          (shaped_results v k m)

    -- The service starts, on any validator, exactly when storage is usable, yt-dlp is (or the
    -- service is in test mode and may start degraded), and ffmpeg, Node.js and the cookies are (or it may
    -- start degraded). It is degraded exactly when it starts without all of these and may. There is an
    -- error message exactly when it does not start. YouTube is disabled exactly when the cookies are
    -- not usable, the service may start degraded and it is not in test mode.
    pub validate_all_exact :
        (writable : Bool) (file : Result Text (Option Text)) (v : Validator)
        → let r = (validate_all lower is_space digit_value w c writable file v).0.1 in
          (r.success
            ≡ may_start c.allow_degraded_start test
                (ytdlp_usable w)
                (ffmpeg_usable w)
                (nodejs_usable w)
                (storage_usable w)
                cookies)
          × (r.degraded_mode ≡ (
              c.allow_degraded_start
              && r.success
              && not (
                  ytdlp_usable w
                  && ffmpeg_usable w
                  && nodejs_usable w
                  && storage_usable w
                  && cookies)))
          × ((length r.errors == 0) ≡ r.success)
          × (r.disabled_providers ≡ disabled_for c.allow_degraded_start test cookies)
    unfolding validate_all
    validate_all_exact writable file v =
        let (k, m) = run_checks-Checked v in
        let y = ytdlp_check lower is_space digit_value w in
        let f = ffmpeg_check lower is_space digit_value w in
        let n = nodejs_check lower is_space digit_value w in
        let s = (check_storage w c).0 in
        let q = run_checks lower is_space digit_value w c (reset v) in
        let e = shaped_results v k m in
        let d =
          decided c.allow_degraded_start test (ytdlp_usable w) (ffmpeg_usable w) (nodejs_usable w)
            (storage_usable w) cookies y f n s k q e in
        let started =
          d.success
          ∙ success_table c.allow_degraded_start test (ytdlp_usable w) (ffmpeg_usable w)
              (nodejs_usable w) (storage_usable w) cookies in
        (
          started,
          d.degraded
              ∙ degraded_table c.allow_degraded_start test (ytdlp_usable w) (ffmpeg_usable w)
                  (nodejs_usable w) (storage_usable w) cookies _ started,
          d.reported m.clean,
          d.disabled_kept ∙ m.disables,
        )
