-- ===== src/Template/Tests.antt =====
-- app/core/template.py: concrete names, with ASCII tables, and the theorems at concrete inputs.
use yt_dlp_api.Prelude.{
  arith, ℕ, ◌-◌, ◌≤◌, Bool, false, ◌&&◌, [], ◌∷◌, map, ◌≡◌, refl, leb, ◌==◌, if◌then◌else◌, length,
}
use yt_dlp_api.Prelude.Chars.{Text, codes, text_in, strip, digits, digits_fuel}
use yt_dlp_api.Template.Unique.{
  unique, suffix_limit, get_unique_filename, find_unique, name_and_ext, suffixed,
}
use yt_dlp_api.Template.Unique.Total.{Uniques, get_unique_filename_total}
use yt_dlp_api.Template.Validate.{
  valid_template, validate_template, check_template, has_traversal, is_absolute,
}
use yt_dlp_api.Template.{rsplit, is_reserved, sanitize_filename}
use yt_dlp_api.Template.Clean.{AllClean}
use yt_dlp_api.Template.Safe.{sanitize_filename-AllClean}
use yt_dlp_api.Template.Reserved.{sanitize_filename_free}
use yt_dlp_api.Template.Length.{length-sanitize_filename}

abbrev same_text : Text → Text
same_text t = t

abbrev upper_char : ℕ → ℕ
upper_char c = if leb 97 c && leb c 122 then c - 32 else c

abbrev ascii_upper : Text → Text
ascii_upper t = map upper_char t

abbrev is_blank : ℕ → Bool
is_blank c = c == 32

abbrev sanitized : Text → Text
sanitized t = sanitize_filename same_text ascii_upper is_blank t

-- " a/b. " gives "a_b".
slash_test : sanitized (32 ∷ 97 ∷ 47 ∷ 98 ∷ 46 ∷ 32 ∷ []) ≡ 97 ∷ 95 ∷ 98 ∷ []
unfolding sanitize_filename
slash_test = refl

-- "con.txt" gives "_con.txt".
reserved_test :
    sanitized (99 ∷ 111 ∷ 110 ∷ 46 ∷ 116 ∷ 120 ∷ 116 ∷ [])
    ≡ 95 ∷ 99 ∷ 111 ∷ 110 ∷ 46 ∷ 116 ∷ 120 ∷ 116 ∷ []
unfolding sanitize_filename
reserved_test = refl

-- ". a" keeps a blank at its start: the dots go after the blanks.
leading_blank_test : sanitized (46 ∷ 32 ∷ 97 ∷ []) ≡ 32 ∷ 97 ∷ []
unfolding sanitize_filename
leading_blank_test = refl

sanitize_filename-AllClean_example : AllClean (sanitized (46 ∷ 46 ∷ 47 ∷ 97 ∷ 0 ∷ []))
sanitize_filename-AllClean_example =
    sanitize_filename-AllClean same_text ascii_upper is_blank (46 ∷ 46 ∷ 47 ∷ 97 ∷ 0 ∷ [])

length-sanitize_filename_example :
    (1 ≤ length (sanitized (46 ∷ 46 ∷ 47 ∷ 97 ∷ [])))
    × (length (sanitized (46 ∷ 46 ∷ 47 ∷ 97 ∷ [])) ≤ 200)
length-sanitize_filename_example =
    length-sanitize_filename same_text ascii_upper is_blank (46 ∷ 46 ∷ 47 ∷ 97 ∷ [])

sanitize_filename_free_example :
    is_reserved same_text ascii_upper is_blank (sanitized (110 ∷ 117 ∷ 108 ∷ [])) ≡ false
sanitize_filename_free_example =
    sanitize_filename_free same_text ascii_upper is_blank (λ t. refl) refl (110 ∷ 117 ∷ 108 ∷ [])

-- A directory that holds "a.b" and "a_1.b".
abbrev held : Text → Bool
held t = text_in t (codes "a.b" ∷ codes "a_1.b" ∷ [])

second_free : get_unique_filename held suffix_limit (codes "a.b") ≡ unique (codes "a_2.b")
unfolding get_unique_filename find_unique name_and_ext suffixed rsplit digits digits_fuel
second_free = refl

get_unique_filename_total_example :
    Uniques held suffix_limit (codes "a.b") (get_unique_filename held suffix_limit (codes "a.b"))
get_unique_filename_total_example =
    get_unique_filename_total held suffix_limit (codes "a.b") (omega arith)

abbrev is_letter : ℕ → Bool
is_letter c = leb b'a' c && leb c b'z'

taken : validate_template is_blank is_letter (codes " x/a..b ") ≡ valid_template (codes "x/a..b")
unfolding validate_template check_template has_traversal is_absolute strip
taken = refl
