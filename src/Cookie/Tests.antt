-- ===== src/Cookie/Tests.antt =====
-- Runs of app/services/cookie_service.py on small inputs, and the theorems at such inputs.
use yt_dlp_api.Prelude.{
  ℕ, ◌+◌, ◌<◌, String, Bool, true, false, ◌||◌, [], ◌∷◌, ◌≡◌, ◌↔◌, refl, arith, ◌==◌, count,
}
use yt_dlp_api.Prelude.Chars.{Text, codes, strip, split}
use yt_dlp_api.Prelude.Dict.{Dict}
use yt_dlp_api.Prelude.Result.{ok, err}
use yt_dlp_api.Cookie.Timed.{timed_dict}
use yt_dlp_api.Cookie.Netscape.{validate_netscape_format, valid_entries, fields_message}
use yt_dlp_api.Cookie.Netscape.Exact.{is_broken, is_entry, validate_netscape_format_exact}
use yt_dlp_api.Cookie.State.{
  validation_cache_ttl, CookieService, Disk, auth_timed_out, get_cookie_path, load_cookie_file,
  modified_at, should_check_file, check_file_modification, test_youtube_authentication, auth_result,
}
use yt_dlp_api.Cookie.{
  full_validation, validate_cookie, validate_cookie_file, refreshed, reload_cookie, revalidated,
  invalidate_cache, roll_back,
}
use yt_dlp_api.Cookie.Validate.{Answers, validate_cookie-Answers, noticed}
use yt_dlp_api.Cookie.Reload.{Reloads, reload_cookie-Reloads, failed_reload_renews}

-- Tab, newline and blank.
abbrev ascii_space : ℕ → Bool
ascii_space c = c == b'\t' || c == b'\n' || c == b' '

abbrev cookie_text : Text
cookie_text = codes "# Netscape HTTP Cookie File\n.a\tTRUE\t/\tTRUE\t0\tn\tv\n"

well_formed : validate_netscape_format ascii_space cookie_text "youtube" ≡ ok true
unfolding validate_netscape_format valid_entries split strip
well_formed = refl

-- An entry with an empty value loses its last tab, and is refused.
empty_value :
    validate_netscape_format ascii_space (codes ".a\tTRUE\t/\tTRUE\t0\tn\t\n") "youtube"
    ≡ err (fields_message "youtube" 6)
unfolding validate_netscape_format valid_entries split strip
empty_value = refl

validate_netscape_format_exact_example :
    (validate_netscape_format ascii_space cookie_text "youtube" ≡ ok true) ↔ (
      (count (is_broken ascii_space) (split b'\n' (strip ascii_space cookie_text)) ≡ 0)
      × (0 < count (is_entry ascii_space) (split b'\n' (strip ascii_space cookie_text))))
validate_netscape_format_exact_example =
    validate_netscape_format_exact ascii_space cookie_text "youtube"

-- The file was changed at the second 50; at 2 minutes it was found good.
abbrev checked : CookieService (Dict (Bool × ℕ))
checked = record {
  provider_cookies = ("youtube", "/c.txt") ∷ [];
  test_mode = false;
  validation_cache = ("youtube", (true, 120000000 + validation_cache_ttl)) ∷ [];
  file_mtimes = ("youtube", 50000000) ∷ [];
  last_file_check = ("youtube", 120000000) ∷ [];
}

abbrev disk : Disk
disk = record { exists = λ p. true; read_text = λ p. ok cookie_text; mtime = λ p. ok 50000000 }

validate_cookie-Answers_example :
    Answers
      (timed_dict validation_cache_ttl)
      ascii_space
      checked
      disk
      auth_timed_out
      130000000
      "youtube"
      (validate_cookie
        (timed_dict validation_cache_ttl)
        ascii_space
        checked
        disk
        auth_timed_out
        130000000
        "youtube")
validate_cookie-Answers_example =
    validate_cookie-Answers (timed_dict validation_cache_ttl) ascii_space checked disk
      auth_timed_out 130000000 "youtube"

reload_cookie-Reloads_example :
    Reloads
      (timed_dict validation_cache_ttl)
      ascii_space
      checked
      disk
      auth_timed_out
      3000000000
      "youtube"
      (reload_cookie
        (timed_dict validation_cache_ttl)
        ascii_space
        checked
        disk
        auth_timed_out
        3000000000
        "youtube")
reload_cookie-Reloads_example =
    reload_cookie-Reloads (timed_dict validation_cache_ttl) ascii_space checked disk auth_timed_out
      3000000000 "youtube"

abbrev timed_out_message : String
timed_out_message = "YouTube authentication test timed out. Check your network connection."

fails_now :
    full_validation
      (timed_dict validation_cache_ttl)
      ascii_space
      checked
      disk
      auth_timed_out
      "youtube"
    ≡ err timed_out_message
unfolding full_validation validate_cookie_file load_cookie_file get_cookie_path
    validate_netscape_format valid_entries split strip test_youtube_authentication auth_result
fails_now = refl

nothing_noticed :
    noticed
      (reload_cookie
        (timed_dict validation_cache_ttl)
        ascii_space
        checked
        disk
        auth_timed_out
        3000000000
        "youtube").0
      disk
      4000000000
      "youtube"
    ≡ false
unfolding reload_cookie revalidated invalidate_cache validate_cookie refreshed should_check_file
    check_file_modification modified_at full_validation validate_cookie_file load_cookie_file
    get_cookie_path validate_netscape_format valid_entries split strip test_youtube_authentication
    auth_result roll_back
nothing_noticed = refl

-- The check of the second 120 would have expired by the second 4000.
failed_reload_renews_example :
    (validate_cookie
      (timed_dict validation_cache_ttl)
      ascii_space
      (reload_cookie
        (timed_dict validation_cache_ttl)
        ascii_space
        checked
        disk
        auth_timed_out
        3000000000
        "youtube").0
      disk
      auth_timed_out
      4000000000
      "youtube").1
    ≡ ok true
failed_reload_renews_example =
    failed_reload_renews (timed_dict validation_cache_ttl) ascii_space checked disk disk
      auth_timed_out auth_timed_out 3000000000 4000000000 "youtube" true timed_out_message refl refl
      fails_now (omega arith) refl nothing_noticed
