-- ===== src/Validation/Tests.antt =====
-- Runs of app/core/validation.py on small inputs, and the theorem at such an input.
use yt_dlp_api.Prelude.{ℕ, Bool, true, false, ◌||◌, Option, none, some, [], ◌≡◌, ◌↔◌, refl, ◌==◌}
use yt_dlp_api.Prelude.Chars.{Text, codes, strip, split}
use yt_dlp_api.Prelude.Int.{pos}
use yt_dlp_api.Validation.{
  accepted, SplitUrl, default_allowed_domains, check_url, netloc_of, potential_domain, validate,
  validate_format_id, check_format_id, is_format_char, is_accepted, validate_language_code,
  is_language, integer, validate_positive_integer, validate_audio_format, validate_audio_quality,
}
use yt_dlp_api.Validation.Domain.{IsAllowed, validate_exact}

abbrev same : Text → Text
same t = t

abbrev is_blank : ℕ → Bool
is_blank c = (c == b' ') || (c == b'\n')

-- Every text as a path.
abbrev all_path : Text → Option SplitUrl
all_path t = some (record { scheme = []; netloc = []; path = t; hostname = none })

-- A url without its scheme.
path_accepted :
    validate all_path same is_blank default_allowed_domains (codes " youtu.be/x ")
    ≡ accepted (codes "youtu.be/x")
unfolding validate check_url netloc_of potential_domain strip split
path_accepted = refl

format_accepted : is_accepted (validate_format_id same is_blank (codes "137+140")) ≡ true
unfolding validate_format_id check_format_id is_format_char strip
format_accepted = refl

format_rejected : is_accepted (validate_format_id same is_blank (codes "22; rm")) ≡ false
unfolding validate_format_id check_format_id is_format_char strip
format_rejected = refl

language_accepted : is_accepted (validate_language_code same is_blank (codes "en-us")) ≡ true
unfolding validate_language_code is_language strip
language_accepted = refl

too_large :
    is_accepted (validate_positive_integer (integer (pos 101)) (codes "n") (some 100)) ≡ false
unfolding validate_positive_integer
too_large = refl

audio_accepted : is_accepted (validate_audio_format same is_blank (codes "opus")) ≡ true
unfolding validate_audio_format
audio_accepted = refl

quality_rejected : is_accepted (validate_audio_quality same is_blank (codes "256")) ≡ false
unfolding validate_audio_quality
quality_rejected = refl

validate_exact_example :
    (validate all_path same is_blank default_allowed_domains (codes " youtu.be/x ")
      ≡ accepted (codes "youtu.be/x"))
    ↔ ((codes "youtu.be/x" ≡ strip is_blank (codes " youtu.be/x "))
        × IsAllowed all_path same is_blank default_allowed_domains
            (strip is_blank (codes " youtu.be/x ")))
validate_exact_example =
    validate_exact all_path same is_blank default_allowed_domains (codes " youtu.be/x ")
      (codes "youtu.be/x")
