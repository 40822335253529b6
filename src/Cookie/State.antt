-- ===== src/Cookie/State.antt =====
-- The state of app/services/cookie_service.py, the cookie files, and what is read of them. An
-- operation reads the clock once, and `disk` is what it finds in the file system. The code gives
-- an age in hours as a float; it is in microseconds here, and exact.
use yt_dlp_api.Prelude.{
  ℕ, ◌-◌, ◌/◌, String, Bool, true, false, Option, none, some, [], ◌∷◌, leb, ◌==◌, if◌then◌else◌,
}
use yt_dlp_api.Prelude.Chars.{Text}
use yt_dlp_api.Prelude.Dict.{Dict, lookup, insert}
use yt_dlp_api.Prelude.Int.{ℤ, sub_ℕ}
use yt_dlp_api.Prelude.Result.{Result, ok, err}
use yt_dlp_api.Prelude.Text.{concat, decimal, truthy, or_else}
use yt_dlp_api.Cookie.Cache.{TtlCache}

abbrev pub warning_age_days : ℕ
warning_age_days = 7

-- Microseconds.
abbrev pub validation_cache_ttl : ℕ
validation_cache_ttl = 3600000000

abbrev pub file_check_interval : ℕ
file_check_interval = 60000000

abbrev pub day : ℕ
day = 86400000000

pub record CookieService (C : Type 0) : Type 0 where
  pub provider_cookies : Dict String
  pub test_mode : Bool
  pub validation_cache : C
  pub file_mtimes : Dict ℕ
  pub last_file_check : Dict ℕ

-- What the file system holds at a path; an exception comes as `str(e)`.
pub record Disk : Type 0 where
  pub exists : String → Bool
  pub read_text : String → Result String Text
  pub mtime : String → Result String ℕ

-- How the yt-dlp process of the authentication test ends.
pub data AuthRun : Type 0 where
  auth_exited : ℕ → Option String → AuthRun
  auth_timed_out auth_missing : AuthRun
  auth_raised : String → AuthRun

-- A provider's entry of the configuration.
pub record ProviderConfig : Type 0 where
  pub enabled : Option Bool
  pub cookie_path : Option String

abbrev pub is_enabled : Option Bool → Bool
is_enabled none = true
is_enabled (some b) = b

unfoldable pub load_provider_cookies : Dict String → Dict ProviderConfig → Dict String
load_provider_cookies cookies [] = cookies
load_provider_cookies cookies ((name, config) ∷ d) =
    load_provider_cookies
      (if is_enabled config.enabled
        then (elim (truthy config.cookie_path) [ none ↦ cookies | some p ↦ insert name p cookies ])
        else cookies)
      d

abbrev pub not_configured : String → String
not_configured provider = concat "No cookie path configured for provider: " provider

unfoldable pub missing_file : String → String → String
missing_file provider cookie_path =
    concat (concat (concat (concat "Cookie file not found for " provider) ": ") cookie_path)
      ". Please export cookies from your browser and place them at this location."

unfoldable pub age_warning : String → ℕ → String
age_warning provider age_days =
    concat (concat (concat (concat "Cookie file for " provider) " is ") (decimal age_days))
      " days old. Consider refreshing cookies if authentication issues occur."

abbrev pub or_zero : Option ℕ → ℕ
or_zero none = 0
or_zero (some n) = n

-- `_test_youtube_authentication`. The CookieError of a failed run is raised in the `try` block,
-- so the last handler wraps it.
unfoldable pub auth_result : AuthRun → Result String Bool
auth_result (auth_exited code stderr) =
    if code == 0
    then ok true
    else err (
        concat
          (concat "Failed to test YouTube authentication: "
            "YouTube authentication failed. The cookie may be expired or invalid. Please export fresh cookies from your browser. Error: ")
          (or_else stderr "Unknown error"))
auth_result auth_timed_out =
    err "YouTube authentication test timed out. Check your network connection."
auth_result auth_missing =
    err "yt-dlp is not installed or not in PATH. Cannot validate YouTube cookies."
auth_result (auth_raised e) = err (concat "Failed to test YouTube authentication: " e)

module _ {C : Type 0} where
  unfoldable pub new_service :
      TtlCache C validation_cache_ttl → Bool → Dict ProviderConfig → CookieService C
  unfolding load_provider_cookies
  new_service cache test_mode config = record {
    provider_cookies = load_provider_cookies [] config;
    test_mode = test_mode;
    validation_cache = cache.empty;
    file_mtimes = [];
    last_file_check = [];
  }

  unfoldable pub get_cookie_path : CookieService C → String → Option String
  get_cookie_path s provider = lookup provider s.provider_cookies

  unfoldable pub load_cookie_file : CookieService C → Disk → String → Result String Text
  unfolding get_cookie_path missing_file
  load_cookie_file s disk provider = elim (truthy (get_cookie_path s provider)) [
    | none ↦ err (not_configured provider)
    | some cookie_path ↦
        if disk.exists cookie_path
        then (elim (disk.read_text cookie_path) [
          | ok content ↦ ok content
          | err e ↦ err (concat (concat (concat "Failed to read cookie file for " provider) ": ") e)
        ])
        else err (missing_file provider cookie_path)
  ]

  -- The path of a file that is there, and its modification time; none where the code gives up.
  unfoldable pub modified_at : CookieService C → Disk → String → Option ℕ
  unfolding get_cookie_path
  modified_at s disk provider = elim (truthy (get_cookie_path s provider)) [
    | none ↦ none
    | some cookie_path ↦
        if disk.exists cookie_path
        then (elim (disk.mtime cookie_path) [ ok t ↦ some t | err e ↦ none ])
        else none
  ]

  -- A file from the future is no day old here, and less than none in the code.
  unfoldable pub check_cookie_age : CookieService C → Disk → ℕ → String → Option String
  unfolding modified_at age_warning
  check_cookie_age s disk now provider = elim (modified_at s disk provider) [
    | none ↦ none
    | some mtime ↦
        if leb warning_age_days ((now - mtime) / day)
        then some (age_warning provider ((now - mtime) / day))
        else none
  ]

  unfoldable pub get_cookie_age : CookieService C → Disk → ℕ → String → Option ℤ
  unfolding modified_at
  get_cookie_age s disk now provider = elim (modified_at s disk provider) [
    | none ↦ none
    | some mtime ↦ some (sub_ℕ now mtime)
  ]

  -- `_check_file_modification`
  unfoldable pub check_file_modification : CookieService C → Disk → String → CookieService C × Bool
  unfolding modified_at
  check_file_modification s disk provider = elim (modified_at s disk provider) [
    | none ↦ (s, false)
    | some current ↦ elim (lookup provider s.file_mtimes) [
      | none ↦ (record s { file_mtimes = insert provider current s.file_mtimes }, true)
      | some last ↦
          if current == last
          then (s, false)
          else (record s { file_mtimes = insert provider current s.file_mtimes }, true)
    ]
  ]

  -- `_should_check_file`
  unfoldable pub should_check_file : CookieService C → ℕ → String → CookieService C × Bool
  should_check_file s now provider =
      if leb file_check_interval (now - or_zero (lookup provider s.last_file_check))
      then (record s { last_file_check = insert provider now s.last_file_check }, true)
      else (s, false)

  unfoldable pub test_youtube_authentication : CookieService C → AuthRun → Result String Bool
  unfolding auth_result get_cookie_path
  test_youtube_authentication s run =
      if s.test_mode then ok true else elim (truthy (get_cookie_path s "youtube")) [
        | none ↦ err "No cookie path configured for YouTube"
        | some cookie_path ↦ auth_result run
      ]
