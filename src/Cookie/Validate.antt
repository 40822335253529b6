-- ===== src/Cookie/Validate.antt =====
-- app/services/cookie_service.py: what `validate_cookie` answers, and what it leaves in the cache.
use yt_dlp_api.Prelude.{
  ℕ, ◌+◌, ◌-◌, ◌≤◌, String, Bool, true, false, ◌&&◌, not, Option, none, some, ◌≡◌, refl, sym, ap,
  ◌∙◌, ◌⊎◌, inl, inr, arith, ltb, leb, ◌==◌, if◌then◌else◌, str_eq, Bool-cases, Option-cases,
  eq_refl,
}
use yt_dlp_api.Prelude.Dict.{lookup}
use yt_dlp_api.Prelude.Result.{Result, ok, err, Result-cases}
use yt_dlp_api.Cookie.Cache.{TtlCache}
use yt_dlp_api.Cookie.State.{
  validation_cache_ttl, file_check_interval, CookieService, Disk, AuthRun, get_cookie_path,
  load_cookie_file, modified_at, check_file_modification, or_zero, should_check_file,
  test_youtube_authentication, auth_result,
}
use yt_dlp_api.Cookie.{
  invalidate_cache, validate_cookie_file, full_validation, refreshed, validate_cookie,
}

-- Whether a file has another modification time than the one on record.
abbrev pub differs : Option ℕ → Option ℕ → Bool
differs none recorded = false
differs (some m) none = true
differs (some m) (some n) = not (m == n)

module _ {C : Type 0} where
  -- A minute has gone by since the last look at the file, and it has changed since.
  abbrev pub noticed : CookieService C → Disk → ℕ → String → Bool
  noticed s disk now provider =
      leb file_check_interval (now - or_zero (lookup provider s.last_file_check))
      && differs (modified_at s disk provider) (lookup provider s.file_mtimes)

  modified_same :
      (s s' : CookieService C) (disk : Disk) (provider : String)
      → s'.provider_cookies ≡ s.provider_cookies
      → modified_at s' disk provider ≡ modified_at s disk provider
  unfolding modified_at get_cookie_path
  modified_same s s' disk provider e = ground arith

  -- The look at a file: no more than its time is written.
  check_changes :
      (s : CookieService C) (disk : Disk) (provider : String)
      → ((check_file_modification s disk provider).1
          ≡ differs (modified_at s disk provider) (lookup provider s.file_mtimes))
        × ((check_file_modification s disk provider).0.provider_cookies ≡ s.provider_cookies)
        × ((check_file_modification s disk provider).0.test_mode ≡ s.test_mode)
        × ((check_file_modification s disk provider).0.validation_cache ≡ s.validation_cache)
  unfolding check_file_modification
  check_changes s disk provider = ground arith

  should_changes :
      (s : CookieService C) (now : ℕ) (provider : String)
      → ((should_check_file s now provider).1
          ≡ leb file_check_interval (now - or_zero (lookup provider s.last_file_check)))
        × ((should_check_file s now provider).0.provider_cookies ≡ s.provider_cookies)
        × ((should_check_file s now provider).0.test_mode ≡ s.test_mode)
        × ((should_check_file s now provider).0.validation_cache ≡ s.validation_cache)
        × ((should_check_file s now provider).0.file_mtimes ≡ s.file_mtimes)
  unfolding should_check_file
  should_changes s now provider = ground arith

  module _ (cache : TtlCache C validation_cache_ttl) (is_space : ℕ → Bool) where
    pub invalidated :
        (s : CookieService C) (now : ℕ) (provider : String)
        → ((invalidate_cache cache is_space s now provider).provider_cookies ≡ s.provider_cookies)
          × ((invalidate_cache cache is_space s now provider).test_mode ≡ s.test_mode)
          × (cache.get
                (invalidate_cache cache is_space s now provider).validation_cache
                now
                provider
              ≡ none)
    unfolding invalidate_cache
    invalidated s now provider = elim (Option-cases (cache.get s.validation_cache now provider)) [
      | inl e ↦ rw e (refl, refl, e)
      | inr (b, e) ↦ rw e (
        refl,
        refl,
        cache.get-delete s.validation_cache now provider provider ∙ rw (eq_refl provider) refl,
      )
    ]

    invalidated_other :
        (s : CookieService C) (now t : ℕ) (provider j : String)
        → str_eq provider j ≡ false
        → cache.get (invalidate_cache cache is_space s now provider).validation_cache t j
          ≡ cache.get s.validation_cache t j
    unfolding invalidate_cache
    invalidated_other s now t provider j h =
        elim (Option-cases (cache.get s.validation_cache now provider)) [
          | inl e ↦ rw e refl
          | inr (b, e) ↦ rw e (cache.get-delete s.validation_cache t provider j ∙ rw h refl)
        ]

    pub full_same :
        (s s' : CookieService C) (disk : Disk) (run : AuthRun) (provider : String)
        → s'.provider_cookies ≡ s.provider_cookies
        → s'.test_mode ≡ s.test_mode
        → full_validation cache is_space s' disk run provider
          ≡ full_validation cache is_space s disk run provider
    unfolding full_validation validate_cookie_file load_cookie_file get_cookie_path
        test_youtube_authentication
    full_same s s' disk run provider e m = ground arith

    record Refreshes (s : CookieService C) (disk : Disk) (now : ℕ) (provider : String)
        (s' : CookieService C) : Type 0 where
      pub same_cookies : s'.provider_cookies ≡ s.provider_cookies
      pub same_mode : s'.test_mode ≡ s.test_mode
      pub cached : cache.get s'.validation_cache now provider ≡ (
          if noticed s disk now provider then none else cache.get s.validation_cache now provider)
      pub same_cache :
          noticed s disk now provider ≡ false → s'.validation_cache ≡ s.validation_cache
      pub others :
          (t : ℕ) (j : String)
          → str_eq provider j ≡ false
          → cache.get s'.validation_cache t j ≡ cache.get s.validation_cache t j

    -- Nothing noticed: the cache stays.
    kept-Refreshes :
        (s : CookieService C) (disk : Disk) (now : ℕ) (provider : String) (s' : CookieService C)
        → noticed s disk now provider ≡ false
        → s'.provider_cookies ≡ s.provider_cookies
        → s'.test_mode ≡ s.test_mode
        → s'.validation_cache ≡ s.validation_cache
        → Refreshes s disk now provider s'
    kept-Refreshes s disk now provider s' n e m v = record {
      same_cookies = e;
      same_mode = m;
      cached = rw n (ap (λ c. cache.get c now provider) v);
      same_cache = λ h. v;
      others = λ t j h. ap (λ c. cache.get c t j) v;
    }

    noticed_by :
        (s : CookieService C) (disk : Disk) (now : ℕ) (provider : String)
        → (should_check_file s now provider).1 ≡ true
        → noticed s disk now provider
          ≡ (check_file_modification (should_check_file s now provider).0 disk provider).1
    noticed_by s disk now provider d =
        let due = should_changes s now provider in
        let seen = check_changes (should_check_file s now provider).0 disk provider in
        let same = modified_same s (should_check_file s now provider).0 disk provider due.1 in
        rw (sym due.0 ∙ d, seen.0, same, due.4) refl

    refreshed-Refreshes :
        (s : CookieService C) (disk : Disk) (now : ℕ) (provider : String)
        → Refreshes s disk now provider (refreshed cache is_space s disk now provider)
    unfolding refreshed
    refreshed-Refreshes s disk now provider =
        let checked = (should_check_file s now provider).0 in
        let found = (check_file_modification checked disk provider).0 in
        let due = should_changes s now provider in
        let seen = check_changes checked disk provider in
        elim (Bool-cases (should_check_file s now provider).1) [
          | inr d ↦ rw d (
              kept-Refreshes s disk now provider checked (rw (sym due.0 ∙ d) refl) due.1 due.2
                due.3)
          | inl d ↦ elim (Bool-cases (check_file_modification checked disk provider).1) [
            | inr f ↦
                rw (d, f)
                  (kept-Refreshes s disk now provider found (noticed_by s disk now provider d ∙ f)
                    (seen.1 ∙ due.1) (seen.2 ∙ due.2) (seen.3 ∙ due.3))
            | inl f ↦
                let n = noticed_by s disk now provider d ∙ f in
                let gone = invalidated found now provider in
                rw (d, f)
                  (record {
                    same_cookies = gone.0 ∙ (seen.1 ∙ due.1);
                    same_mode = gone.1 ∙ (seen.2 ∙ due.2);
                    cached = rw n gone.2;
                    same_cache = λ h. absurd cc;
                    others = λ t j h.
                        invalidated_other found now t provider j h
                        ∙ ap (λ c. cache.get c t j) (seen.3 ∙ due.3);
                  })
          ]
        ]

    -- Only a success comes out of a full validation that raises nothing.
    full_true :
        (s : CookieService C) (disk : Disk) (run : AuthRun) (provider : String) (v : Bool)
        → full_validation cache is_space s disk run provider ≡ ok v
        → v ≡ true
    unfolding full_validation validate_cookie_file test_youtube_authentication auth_result
    full_true s disk run provider v h = ground arith

    -- What a call answers, and the cache that it leaves.
    pub data Answers (s : CookieService C) (disk : Disk) (run : AuthRun) (now : ℕ)
        (provider : String) (r : CookieService C × Result String Bool) : Type 0 where
      from_cache :
          (b : Bool)
          → noticed s disk now provider ≡ false
          → cache.get s.validation_cache now provider ≡ some b
          → r.1 ≡ ok b
          → r.0.validation_cache ≡ s.validation_cache
          → Answers s disk run now provider r
      passes :
          (noticed s disk now provider ≡ true) ⊎ (cache.get s.validation_cache now provider ≡ none)
          → full_validation cache is_space s disk run provider ≡ ok true
          → r.1 ≡ ok true
          → ((t : ℕ)
              → now ≤ t
              → cache.get r.0.validation_cache t provider
                ≡ (if ltb t (now + validation_cache_ttl) then some true else none))
          → Answers s disk run now provider r
      fails :
          (e : String)
          → (noticed s disk now provider ≡ true)
            ⊎ (cache.get s.validation_cache now provider ≡ none)
          → full_validation cache is_space s disk run provider ≡ err e
          → r.1 ≡ err e
          → cache.get r.0.validation_cache now provider ≡ none
          → Answers s disk run now provider r

    why_checked :
        (s : CookieService C) (disk : Disk) (now : ℕ) (provider : String) (o : Option Bool)
        → o ≡ (
            if noticed s disk now provider then none else cache.get s.validation_cache now provider)
        → o ≡ none
        → (noticed s disk now provider ≡ true) ⊎ (cache.get s.validation_cache now provider ≡ none)
    why_checked s disk now provider o c e = elim (Bool-cases (noticed s disk now provider)) [
      | inl n ↦ inl n
      | inr n ↦ inr (sym (rw n at c) ∙ e)
    ]

    why_cached :
        (s : CookieService C) (disk : Disk) (now : ℕ) (provider : String) (o : Option Bool)
        (b : Bool)
        → o ≡ (
            if noticed s disk now provider then none else cache.get s.validation_cache now provider)
        → o ≡ some b
        → (noticed s disk now provider ≡ false)
          × (cache.get s.validation_cache now provider ≡ some b)
    why_cached s disk now provider o b c e = elim (Bool-cases (noticed s disk now provider)) [
      | inl n ↦ absurd (let k = rw n at c in cc)
      | inr n ↦ (n, sym (rw n at c) ∙ e)
    ]

    -- `validate_cookie` ends in one of three ways. Where the file has not been noticed to change in
    -- the last look, and the cache has an answer, that is the answer, and the cache stays.
    -- Otherwise the file is validated in full: a success is answered, and is in the cache for an
    -- hour from now; a failure is raised, and the provider has no answer in the cache.
    pub validate_cookie-Answers :
        (s : CookieService C) (disk : Disk) (run : AuthRun) (now : ℕ) (provider : String)
        → Answers s disk run now provider (validate_cookie cache is_space s disk run now provider)
    unfolding validate_cookie
    validate_cookie-Answers s disk run now provider =
        let s' = refreshed cache is_space s disk now provider in
        let f = refreshed-Refreshes s disk now provider in
        let same = full_same s s' disk run provider f.same_cookies f.same_mode in
        elim (Option-cases (cache.get s'.validation_cache now provider)) [
          | inr (b, e) ↦
              let w = why_cached s disk now provider _ b f.cached e in
              rw (e, validate_cookie) (from_cache b w.0 w.1 refl (f.same_cache w.0))
          | inl e ↦ elim (Result-cases (full_validation cache is_space s' disk run provider)) [
            | inr (m, r) ↦
                rw (e, r, validate_cookie)
                  (fails m (why_checked s disk now provider _ f.cached e) (sym same ∙ r) refl e)
            | inl (v, r) ↦
                let ok_true = r ∙ ap (λ x. ok x) (full_true s' disk run provider v r) in
                rw (e, ok_true, validate_cookie)
                  (passes (why_checked s disk now provider _ f.cached e) (sym same ∙ ok_true) refl
                    (λ t h. cache.get-set s'.validation_cache now t provider true h))
          ]
        ]
