-- ===== src/Cookie/Reload.antt =====
-- app/services/cookie_service.py: what `reload_cookie` answers, and what it leaves in the cache.
use mathlib.Core.Option.{some-injective}
use yt_dlp_api.Prelude.{
  ℕ, ◌+◌, ◌≤◌, String, Bool, true, false, Option, none, some, ◌≡◌, refl, sym, ap, ◌∙◌, inl, inr,
  ltb, if◌then◌else◌, is_some, Option-cases, eq_refl,
}
use yt_dlp_api.Prelude.Dict.{lookup, insert, lookup-insert}
use yt_dlp_api.Prelude.Int.{ℤ}
use yt_dlp_api.Prelude.Result.{Result, ok, err}
use yt_dlp_api.Prelude.Text.{concat}
use yt_dlp_api.Cookie.Cache.{TtlCache}
use yt_dlp_api.Cookie.State.{validation_cache_ttl, CookieService, Disk, AuthRun}
use yt_dlp_api.Cookie.{
  invalidate_cache, full_validation, validate_cookie, reload_failed, roll_back, revalidated,
  reload_cookie,
}
use yt_dlp_api.Cookie.Validate.{
  noticed, Answers, from_cache, passes, fails, validate_cookie-Answers, full_same, invalidated,
}

module _ {C : Type 0} (cache : TtlCache C validation_cache_ttl) (is_space : ℕ → Bool) where
  -- What a cache answers at a time after a value was put in.
  abbrev pub put_at : ℕ → Option Bool → ℕ → Option Bool
  put_at now none t = none
  put_at now (some v) t = if ltb t (now + validation_cache_ttl) then some v else none

  stays_none :
      (c : C) (now t : ℕ) (provider : String)
      → now ≤ t
      → cache.get c now provider ≡ none
      → cache.get c t provider ≡ none
  stays_none c now t provider l h = elim (Option-cases (cache.get c t provider)) [
    | inl e ↦ e
    | inr (b, e) ↦ absurd (let k = cache.get-earlier c now t provider b l e in cc)
  ]

  -- The check of a reload never answers from the cache.
  data Checks (s : CookieService C) (disk : Disk) (run : AuthRun) (now : ℕ) (provider : String)
      (r : CookieService C × Result String Bool) : Type 0 where
    check_passes :
        full_validation cache is_space s disk run provider ≡ ok true
        → r.1 ≡ ok true
        → ((t : ℕ) → now ≤ t → cache.get r.0.validation_cache t provider ≡ put_at now (some true) t)
        → Checks s disk run now provider r
    check_fails :
        (e : String)
        → full_validation cache is_space s disk run provider ≡ err e
        → r.1 ≡ err e
        → cache.get r.0.validation_cache now provider ≡ none
        → Checks s disk run now provider r

  Answers-Checks :
      (s s' : CookieService C) (disk : Disk) (run : AuthRun) (now : ℕ) (provider : String)
      (r : CookieService C × Result String Bool)
      → full_validation cache is_space s' disk run provider
        ≡ full_validation cache is_space s disk run provider
      → cache.get s'.validation_cache now provider ≡ none
      → Answers cache is_space s' disk run now provider r
      → Checks s disk run now provider r
  Answers-Checks s s' disk run now provider r f g (from_cache b n h a c) = absurd cc
  Answers-Checks s s' disk run now provider r f g (passes w v a c) = check_passes (sym f ∙ v) a c
  Answers-Checks s s' disk run now provider r f g (fails e w v a c) = check_fails e (sym f ∙ v) a c

  revalidated-Checks :
      (s : CookieService C) (disk : Disk) (run : AuthRun) (now : ℕ) (provider : String)
      → Checks s disk run now provider (revalidated cache is_space s disk run now provider)
  unfolding revalidated
  revalidated-Checks s disk run now provider =
      let gone = invalidated cache is_space s now provider in
      let s' = invalidate_cache cache is_space s now provider in
      let s'' = record s' { last_file_check = insert provider 0 s'.last_file_check } in
      Answers-Checks s s'' disk run now provider _
        (full_same cache is_space s s'' disk run provider gone.0 gone.1) gone.2
        (validate_cookie-Answers cache is_space s'' disk run now provider)

  -- How a reload may end.
  pub data Reloads (s : CookieService C) (disk : Disk) (run : AuthRun) (now : ℕ) (provider : String)
      (r : CookieService C × Result String (Option ℤ)) : Type 0 where
    unknown :
        lookup provider s.provider_cookies ≡ none
        → r ≡ (s, err (concat (concat "Provider '" provider) "' not configured"))
        → Reloads s disk run now provider r
    reloaded :
        (age : Option ℤ)
        → full_validation cache is_space s disk run provider ≡ ok true
        → r.1 ≡ ok age
        → ((t : ℕ) → now ≤ t → cache.get r.0.validation_cache t provider ≡ put_at now (some true) t)
        → Reloads s disk run now provider r
    rolled_back :
        (e : String)
        → full_validation cache is_space s disk run provider ≡ err e
        → r.1 ≡ err (reload_failed provider e)
        → ((t : ℕ)
            → now ≤ t
            → cache.get r.0.validation_cache t provider
              ≡ put_at now (cache.get s.validation_cache now provider) t)
        → ((m : ℕ)
            → lookup provider s.file_mtimes ≡ some m
            → lookup provider r.0.file_mtimes ≡ some m)
        → Reloads s disk run now provider r

  -- The rollback, over the cache without an answer.
  restored_cache :
      (s : CookieService C) (now t : ℕ) (provider : String) (valid : Option Bool) (m : Option ℕ)
      → now ≤ t
      → cache.get s.validation_cache now provider ≡ none
      → cache.get (roll_back cache is_space s now provider valid m).validation_cache t provider
        ≡ put_at now valid t
  unfolding roll_back
  restored_cache s now t provider none m l h = stays_none s.validation_cache now t provider l h
  restored_cache s now t provider (some v) m l h =
      cache.get-set s.validation_cache now t provider v l

  restored_mtime :
      (s : CookieService C) (now : ℕ) (provider : String) (valid : Option Bool) (o : Option ℕ)
      (m : ℕ)
      → o ≡ some m
      → lookup provider (roll_back cache is_space s now provider valid o).file_mtimes ≡ some m
  unfolding roll_back
  restored_mtime s now provider valid none m h = absurd cc
  restored_mtime s now provider valid (some n) m h =
      lookup-insert provider provider n s.file_mtimes ∙ (rw (eq_refl provider) h)

  Checks-Reloads :
      (s : CookieService C) (disk : Disk) (run : AuthRun) (now : ℕ) (provider : String)
      → is_some (lookup provider s.provider_cookies) ≡ true
      → Checks s disk run now provider (revalidated cache is_space s disk run now provider)
      → Reloads s disk run now provider (reload_cookie cache is_space s disk run now provider)
  unfolding reload_cookie
  Checks-Reloads s disk run now provider k (check_passes v a c) =
      rw (k, a, reload_cookie) (reloaded _ v refl c)
  Checks-Reloads s disk run now provider k (check_fails e v a c) =
      let tried = (revalidated cache is_space s disk run now provider).0 in
      let valid = cache.get s.validation_cache now provider in
      let mtime = lookup provider s.file_mtimes in
      rw (k, a, reload_cookie)
        (rolled_back e v refl (λ t l. restored_cache tried now t provider valid mtime l c)
          (λ m h. restored_mtime tried now provider valid mtime m h))

  -- `reload_cookie` ends in one of three ways. A provider that is not configured is refused, and
  -- nothing changes. Otherwise the file is validated in full, whatever the cache holds. A success
  -- is answered, and is in the cache for an hour from now. A failure is raised, with its reason,
  -- and the answer that the cache had for the provider, if any, is in the cache for an hour from
  -- now; the modification time on record, if any, is the old one.
  pub reload_cookie-Reloads :
      (s : CookieService C) (disk : Disk) (run : AuthRun) (now : ℕ) (provider : String)
      → Reloads s disk run now provider (reload_cookie cache is_space s disk run now provider)
  unfolding reload_cookie
  reload_cookie-Reloads s disk run now provider =
      elim (Option-cases (lookup provider s.provider_cookies)) [
        | inl e ↦ rw (e, reload_cookie) (unknown e refl)
        | inr (p, e) ↦
            Checks-Reloads s disk run now provider (rw e refl)
              (revalidated-Checks s disk run now provider)
      ]

  Reloads-cached :
      (s : CookieService C) (disk : Disk) (run : AuthRun) (now t : ℕ) (provider : String) (b : Bool)
      (e : String) (r : CookieService C × Result String (Option ℤ))
      → is_some (lookup provider s.provider_cookies) ≡ true
      → cache.get s.validation_cache now provider ≡ some b
      → full_validation cache is_space s disk run provider ≡ err e
      → now ≤ t
      → ltb t (now + validation_cache_ttl) ≡ true
      → Reloads s disk run now provider r
      → cache.get r.0.validation_cache t provider ≡ some b
  Reloads-cached s disk run now t provider b e r k h f l lt (unknown n q) =
      absurd (let c = rw n at k in cc)
  Reloads-cached s disk run now t provider b e r k h f l lt (reloaded age v a c) = absurd cc
  Reloads-cached s disk run now t provider b e r k h f l lt (rolled_back e' v a c m) =
      c t l ∙ rw (h, lt) refl

  Answers-cached :
      (s : CookieService C) (disk : Disk) (run : AuthRun) (now : ℕ) (provider : String) (b : Bool)
      (r : CookieService C × Result String Bool)
      → noticed s disk now provider ≡ false
      → cache.get s.validation_cache now provider ≡ some b
      → Answers cache is_space s disk run now provider r
      → r.1 ≡ ok b
  Answers-cached s disk run now provider b r n h (from_cache b' n' h' a c) =
      a ∙ ap (λ x. ok x) (some-injective b' b (sym h' ∙ h))
  Answers-cached s disk run now provider b r n h (passes (inl w) v a c) = absurd cc
  Answers-cached s disk run now provider b r n h (passes (inr w) v a c) = absurd cc
  Answers-cached s disk run now provider b r n h (fails e (inl w) v a c) = absurd cc
  Answers-cached s disk run now provider b r n h (fails e (inr w) v a c) = absurd cc

  -- Where the provider is configured and the cache has an answer for it, a reload whose full
  -- validation fails lets the answer live on for a full hour from the failure: at any time before
  -- that, `validate_cookie` answers it again, if the file is not noticed to have changed.
  pub failed_reload_renews :
      (s : CookieService C) (disk disk' : Disk) (run run' : AuthRun) (now t : ℕ) (provider : String)
      (b : Bool) (e : String)
      → is_some (lookup provider s.provider_cookies) ≡ true
      → cache.get s.validation_cache now provider ≡ some b
      → full_validation cache is_space s disk run provider ≡ err e
      → now ≤ t
      → ltb t (now + validation_cache_ttl) ≡ true
      → noticed (reload_cookie cache is_space s disk run now provider).0 disk' t provider ≡ false
      → (validate_cookie cache is_space
          (reload_cookie cache is_space s disk run now provider).0
          disk'
          run'
          t
          provider).1
        ≡ ok b
  failed_reload_renews s disk disk' run run' now t provider b e k h f l lt n =
      Answers-cached _ disk' run' t provider b _ n
        (Reloads-cached s disk run now t provider b e _ k h f l lt
          (reload_cookie-Reloads s disk run now provider))
        (validate_cookie-Answers cache is_space _ disk' run' t provider)
