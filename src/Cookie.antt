-- ===== src/Cookie.antt =====
-- app/services/cookie_service.py: the cached check of a provider's cookie file, and its reload. The
-- cache is a parameter that meets the contract of Cookie/Cache.antt; what the files hold and how
-- yt-dlp ends are inputs. The wait for yt-dlp takes no time.
pub mod Cache
pub mod Timed
pub mod Netscape
pub mod State
pub mod Validate
pub mod Reload
mod Tests
use yt_dlp_api.Prelude.{
  ℕ, ◌-◌, ◌/◌, String, Bool, true, false, ◌&&◌, not, Option, none, some, List, [], ◌∷◌, ltb, leb,
  ◌==◌, if◌then◌else◌, str_eq, is_some,
}
use yt_dlp_api.Prelude.Chars.{Text}
use yt_dlp_api.Prelude.Dict.{Dict, lookup, insert}
use yt_dlp_api.Prelude.Int.{ℤ, sub_ℕ}
use yt_dlp_api.Prelude.Result.{Result, ok, err, ◌>>=◌}
use yt_dlp_api.Prelude.Text.{concat, decimal, truthy, or_else}
use yt_dlp_api.Cookie.Cache.{TtlCache}
use yt_dlp_api.Cookie.Netscape.{validate_netscape_format}
use yt_dlp_api.Cookie.State.{
  warning_age_days, validation_cache_ttl, file_check_interval, CookieService, Disk, AuthRun,
  get_cookie_path, load_cookie_file, get_cookie_age, check_file_modification, should_check_file,
  test_youtube_authentication,
}

abbrev pub reload_failed : String → String → String
reload_failed provider e =
    concat (concat (concat (concat "Failed to reload cookie for " provider) ": ") e)
      ". Previous cookie state has been retained."

abbrev pub invalid_message : String → String
invalid_message provider = concat (concat "New cookie for " provider) " failed validation"

module _ {C : Type 0} (cache : TtlCache C validation_cache_ttl) (is_space : ℕ → Bool) where
  -- `_invalidate_cache`
  unfoldable pub invalidate_cache : CookieService C → ℕ → String → CookieService C
  invalidate_cache s now provider =
      if is_some (cache.get s.validation_cache now provider)
      then record s { validation_cache = cache.delete s.validation_cache provider }
      else s

  -- The age is only logged.
  unfoldable pub validate_cookie_file : CookieService C → Disk → String → Result String Bool
  unfolding load_cookie_file
  validate_cookie_file s disk provider = do
    content ← load_cookie_file s disk provider
    validate_netscape_format is_space content provider

  -- The `try` block of `validate_cookie`.
  unfoldable pub full_validation : CookieService C → Disk → AuthRun → String → Result String Bool
  unfolding validate_cookie_file test_youtube_authentication
  full_validation s disk run provider = do
    valid ← validate_cookie_file s disk provider
    if str_eq provider "youtube" then test_youtube_authentication s run else ok true

  -- The part of `validate_cookie` before the cache is read.
  unfoldable pub refreshed : CookieService C → Disk → ℕ → String → CookieService C
  unfolding should_check_file check_file_modification invalidate_cache
  refreshed s disk now provider =
      let checked = should_check_file s now provider in
      let found = check_file_modification checked.0 disk provider in
      if checked.1
      then (if found.1 then invalidate_cache found.0 now provider else found.0)
      else checked.0

  unfoldable pub validate_cookie :
      CookieService C → Disk → AuthRun → ℕ → String → CookieService C × Result String Bool
  unfolding refreshed full_validation
  validate_cookie s disk run now provider =
      let s' = refreshed s disk now provider in
      elim (cache.get s'.validation_cache now provider) [
        | some cached ↦ (s', ok cached)
        | none ↦ elim (full_validation s' disk run provider) [
          | err e ↦ (s', err e)
          | ok valid ↦ (
            record s' { validation_cache = cache.set s'.validation_cache now provider valid },
            ok valid,
          )
        ]
      ]

  -- The handler of `reload_cookie`.
  unfoldable pub roll_back : CookieService C → ℕ → String → Option Bool → Option ℕ → CookieService C
  roll_back s now provider previous_valid previous_mtime = record s {
    validation_cache = elim previous_valid [
      | none ↦ s.validation_cache
      | some valid ↦ cache.set s.validation_cache now provider valid
    ];
    file_mtimes = elim previous_mtime [
      | none ↦ s.file_mtimes
      | some t ↦ insert provider t s.file_mtimes
    ];
  }

  -- The `try` block of `reload_cookie`.
  unfoldable pub revalidated :
      CookieService C → Disk → AuthRun → ℕ → String → CookieService C × Result String Bool
  unfolding invalidate_cache validate_cookie
  revalidated s disk run now provider =
      let s' = invalidate_cache s now provider in
      validate_cookie (record s' { last_file_check = insert provider 0 s'.last_file_check }) disk
        run now provider

  -- The age of the answer, or the message of the CookieError.
  unfoldable pub reload_cookie :
      CookieService C → Disk → AuthRun → ℕ → String → CookieService C × Result String (Option ℤ)
  unfolding revalidated roll_back get_cookie_age
  reload_cookie s disk run now provider =
      let previous_valid = cache.get s.validation_cache now provider in
      let previous_mtime = lookup provider s.file_mtimes in
      let tried = revalidated s disk run now provider in
      let restored = roll_back tried.0 now provider previous_valid previous_mtime in
      if is_some (lookup provider s.provider_cookies)
      then (elim tried.1 [
        | err e ↦ (restored, err (reload_failed provider e))
        | ok valid ↦
            if valid
            then (tried.0, ok (get_cookie_age tried.0 disk now provider))
            else (restored, err (reload_failed provider (invalid_message provider)))
      ])
      else (s, err (concat (concat "Provider '" provider) "' not configured"))
