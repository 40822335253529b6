-- ===== src/Startup/Decided.antt =====
-- The decision of `validate_all` (app/core/startup.py), by which of the five checks failed.
use yt_dlp_api.Prelude.{
  String, ◌≡◌, refl, sym, ap, ◌∙◌, suc, Bool, true, false, ◌&&◌, ◌||◌, not, List, [], ◌∷◌, ◌==◌,
  if◌then◌else◌, length, filter, member, arith,
}
use yt_dlp_api.Startup.{ComponentCheckResult, Validator}
use yt_dlp_api.Startup.Validate.{
  Decision, decide, told_all, critical_failures, non_critical_failures, has_any,
}
use yt_dlp_api.Startup.Usable.{Component}

abbrev pub critical_names : Bool → List String
critical_names test = if test then "storage" ∷ [] else "ytdlp" ∷ "storage" ∷ []

-- A result with what the decision looks at.
abbrev pub shaped : String → Bool → Bool → ComponentCheckResult → ComponentCheckResult
shaped name critical passed r = record r { name = name; critical = critical; passed = passed }

shaped_same :
    (name : String) (critical passed : Bool) (r : ComponentCheckResult)
    → Component name critical passed r
    → shaped name critical passed r ≡ r
shaped_same name critical passed r c =
    ap (λ x. shaped x critical passed r) (sym c.named)
    ∙ ap (λ x. shaped r.name x passed r) (sym c.level)
    ∙ ap (λ x. shaped r.name r.critical x r) (sym c.outcome)

module _ (allow py pf pn ps pk : Bool) where
  abbrev pub shaped_all : (y f n s k : ComponentCheckResult) → List ComponentCheckResult
  shaped_all y f n s k =
      shaped "ytdlp" true py y
      ∷ shaped "ffmpeg" true pf f
      ∷ shaped "nodejs" true pn n
      ∷ shaped "storage" true ps s
      ∷ shaped "cookies" (not pk && not allow) pk k
      ∷ []

  module _ (y f n s k : ComponentCheckResult) where
    pub any_critical :
        has_any (critical_failures (shaped_all y f n s k))
        ≡ not (py && pf && pn && ps && (pk || allow))
    any_critical = ground arith

    pub any_truly_critical :
        (test : Bool)
        → has_any (
            filter
              (λ r. member r.name (critical_names test))
              (critical_failures (shaped_all y f n s k)))
          ≡ not (ps && (py || test))
    any_truly_critical test = ground arith

    pub any_non_critical :
        has_any (non_critical_failures (shaped_all y f n s k)) ≡ (not pk && allow)
    any_non_critical = ground arith

    pub results_shaped :
        (rs : List ComponentCheckResult)
        → rs ≡ y ∷ f ∷ n ∷ s ∷ k ∷ []
        → Component "ytdlp" true py y
        → Component "ffmpeg" true pf f
        → Component "nodejs" true pn n
        → Component "storage" true ps s
        → Component "cookies" (not pk && not allow) pk k
        → rs ≡ shaped_all y f n s k
    results_shaped rs e cy cf cn cs ck =
        let a = shaped_same "ytdlp" true py y cy in
        let b = shaped_same "ffmpeg" true pf f cf in
        let c = shaped_same "nodejs" true pn n cn in
        let d = shaped_same "storage" true ps s cs in
        let g = shaped_same "cookies" (not pk && not allow) pk k ck in cc

-- What the decision makes of the three lists of failures.
length-told_all : (rs : List ComponentCheckResult) → length (told_all rs) ≡ length rs
length-told_all [] = refl
length-told_all (r ∷ rs) = ap suc (length-told_all rs)

pub record Decided (allow failed truly others : Bool) (v : Validator) (d : Decision) : Type 0 where
  pub success : d.0 ≡ (not failed || (allow && not truly))
  pub degraded : d.1 ≡ (allow && (if failed then not truly else others))
  pub reported : v.failures ≡ [] → (length d.2.failures == 0) ≡ d.0
  pub disabled_kept : d.2.disabled ≡ v.disabled
  pub results_kept : d.2.results ≡ v.results

pub decide-Decided :
    (allow : Bool) (components : List String) (v : Validator) (failed truly others : Bool)
    → has_any (critical_failures v.results) ≡ failed
    → has_any (filter (λ r. member r.name components) (critical_failures v.results)) ≡ truly
    → has_any (non_critical_failures v.results) ≡ others
    → Decided allow failed truly others v (decide allow components v)
unfolding decide
decide-Decided allow components v false truly others a b c =
    rw (a, c)
      (record {
        success = refl;
        degraded = ground arith;
        reported = λ e. rw e refl;
        disabled_kept = refl;
        results_kept = refl;
      })
decide-Decided false components v true truly others a b c = rw a (record {
  success = refl;
  degraded = refl;
  reported = λ e. rw e (ground (arith, length-told_all (critical_failures v.results)));
  disabled_kept = refl;
  results_kept = refl;
})
decide-Decided true components v true true others a b c =
    rw (a, b)
      (record {
        success = refl;
        degraded = refl;
        reported = λ e. rw e (
            ground (
              arith,
              length-told_all
                  (filter (λ r. member r.name components) (critical_failures v.results)),
            ));
        disabled_kept = refl;
        results_kept = refl;
      })
decide-Decided true components v true false others a b c =
    rw (a, b)
      (record {
        success = refl;
        degraded = refl;
        reported = λ e. rw e refl;
        disabled_kept = refl;
        results_kept = refl;
      })

module _ (allow test py pf pn ps pk : Bool) (y f n s k : ComponentCheckResult) (v : Validator)
    (e : v.results ≡ shaped_all allow py pf pn ps pk y f n s k) where
  pub decided :
      Decided allow
        (not (py && pf && pn && ps && (pk || allow)))
        (not (ps && (py || test)))
        (not pk && allow)
        v
        (decide allow (critical_names test) v)
  decided =
      decide-Decided allow (critical_names test) v _ _ _
        (ap (λ rs. has_any (critical_failures rs)) e ∙ any_critical allow py pf pn ps pk y f n s k)
        (ap
            (λ rs.
              has_any (filter (λ r. member r.name (critical_names test)) (critical_failures rs)))
            e
          ∙ any_truly_critical allow py pf pn ps pk y f n s k test)
        (ap (λ rs. has_any (non_critical_failures rs)) e
          ∙ any_non_critical allow py pf pn ps pk y f n s k)
