-- ===== src/Validation.antt =====
-- app/core/validation.py: the checks of urls, format ids and parameters. Texts are code points;
-- `urlparse`, `lower` (str.lower) and `is_space` (what str.strip takes off) are parameters.
pub mod Domain
mod Tests
use yt_dlp_api.Prelude.{
  ℕ, zero, suc, Bool, true, false, ◌&&◌, ◌||◌, not, Option, none, some, List, [], ◌∷◌, ◌++◌, ltb,
  leb, ◌==◌, if◌then◌else◌, length,
}
use yt_dlp_api.Prelude.Chars.{
  Text, codes, text_in, strip, split, drop_while, take_while, all_chars, contains_text, digits,
}
use yt_dlp_api.Prelude.Int.{ℤ, pos, negsuc}

-- `sanitized_value` of a valid result, `error_message` of another.
pub data ValidationResult : Type 0 where
  accepted : Text → ValidationResult
  rejected : Text → ValidationResult

abbrev pub is_accepted : ValidationResult → Bool
is_accepted (accepted t) = true
is_accepted (rejected t) = false

-- What `urlparse` gives of a url, as far as it is read.
pub record SplitUrl : Type 0 where
  pub scheme : Text
  pub netloc : Text
  pub path : Text
  pub hostname : Option Text

abbrev pub default_allowed_domains : List Text
default_allowed_domains =
    codes "youtube.com" ∷ codes "www.youtube.com" ∷ codes "m.youtube.com" ∷ codes "youtu.be" ∷ []

abbrev pub dangerous_schemes : List Text
dangerous_schemes =
    codes "javascript" ∷ codes "data" ∷ codes "file" ∷ codes "vbscript" ∷ codes "about" ∷ []

abbrev pub web_schemes : List Text
web_schemes = codes "http" ∷ codes "https" ∷ [] ∷ []

abbrev pub first_of : List Text → Text
first_of [] = []
first_of (t ∷ ts) = t

abbrev pub last_of : List Text → Text
last_of [] = []
last_of (t ∷ []) = t
last_of (t ∷ u ∷ ts) = last_of (u ∷ ts)

module _ (urlparse : Text → Option SplitUrl) (lower : Text → Text) (is_space : ℕ → Bool) where
  -- The first part of a path, where it looks like a domain.
  unfoldable pub potential_domain : Text → Text
  potential_domain path =
      let part = lower (first_of (split b'/' path)) in
      if contains_text (codes ".") part then part else []

  -- `netloc`, of the url or out of its path
  unfoldable pub netloc_of : SplitUrl → Text
  unfolding potential_domain
  netloc_of parsed = elim (lower parsed.netloc) [
    | [] ↦ potential_domain parsed.path
    | c ∷ cs ↦ c ∷ cs
  ]

  abbrev pub domain_from : Option Text → Text → Text
  domain_from none netloc = last_of (split b'@' (first_of (split b':' netloc)))
  domain_from (some []) netloc = last_of (split b'@' (first_of (split b':' netloc)))
  domain_from (some (c ∷ cs)) netloc = lower (c ∷ cs)

  abbrev pub check_domain : List Text → Text → SplitUrl → Text → ValidationResult
  check_domain allowed url parsed [] = rejected (codes "URL must include a valid domain")
  check_domain allowed url parsed (c ∷ cs) =
      let domain = domain_from parsed.hostname (c ∷ cs) in
      if text_in domain allowed
      then accepted url
      else rejected (codes "Domain '" ++ domain ++ codes "' is not in the allowed list")

  -- What is checked of a url that is parsed.
  unfoldable pub check_url : List Text → Text → SplitUrl → ValidationResult
  unfolding netloc_of
  check_url allowed url parsed =
      let scheme = lower parsed.scheme in
      if text_in scheme dangerous_schemes
      then rejected (codes "URL scheme '" ++ scheme ++ codes "' is not allowed")
      else if not (text_in scheme web_schemes)
      then rejected (codes "URL must use http or https scheme")
      else check_domain allowed url parsed (netloc_of parsed)

  abbrev pub parsed_url : List Text → Text → Option SplitUrl → ValidationResult
  parsed_url allowed url none = rejected (codes "Invalid URL format")
  parsed_url allowed url (some parsed) = check_url allowed url parsed

  abbrev pub stripped_url : List Text → Text → ValidationResult
  stripped_url allowed [] = rejected (codes "URL cannot be empty")
  stripped_url allowed (c ∷ cs) = parsed_url allowed (c ∷ cs) (urlparse (c ∷ cs))

  -- `URLValidator.validate`
  unfoldable pub validate : List Text → Text → ValidationResult
  unfolding check_url
  validate allowed [] = rejected (codes "URL is required and must be a string")
  validate allowed (x ∷ xs) = stripped_url allowed (strip is_space (x ∷ xs))

  -- `validate_youtube_url`
  unfoldable pub validate_youtube_url : Text → Bool
  unfolding validate
  validate_youtube_url url = is_accepted (validate default_allowed_domains url)

-- `self.allowed_domains = allowed_domains or self.DEFAULT_ALLOWED_DOMAINS`
abbrev pub domains_or_default : List Text → List Text
domains_or_default [] = default_allowed_domains
domains_or_default (d ∷ ds) = d ∷ ds

abbrev pub max_format_id_length : ℕ
max_format_id_length = 50

abbrev pub special_selectors : List Text
special_selectors =
    codes "best"
    ∷ codes "worst"
    ∷ codes "bestvideo"
    ∷ codes "worstvideo"
    ∷ codes "bestaudio"
    ∷ codes "worstaudio"
    ∷ codes "bestvideo+bestaudio"
    ∷ codes "best[height<=720]"
    ∷ codes "best[height<=1080]"
    ∷ []

abbrev pub in_range : ℕ → ℕ → ℕ → Bool
in_range a b c = leb a c && leb c b

abbrev pub is_letter : ℕ → Bool
is_letter c = in_range b'a' b'z' c || in_range b'A' b'Z' c

-- `[a-zA-Z0-9_+-]`
unfoldable pub is_format_char : ℕ → Bool
is_format_char c = is_letter c || in_range b'0' b'9' c || (c == b'_') || (c == b'+') || (c == b'-')

module _ (lower : Text → Text) (is_space : ℕ → Bool) where
  -- What is checked of a format id that is stripped and not empty.
  unfoldable pub check_format_id : Text → ValidationResult
  unfolding is_format_char
  check_format_id t =
      if ltb max_format_id_length (length t)
      then rejected (codes "Format ID exceeds maximum length of 50")
      else if text_in (lower t) special_selectors
      then accepted t
      else if all_chars is_format_char t
      then accepted t
      else rejected (codes "Format ID contains invalid characters")

  abbrev pub stripped_format_id : Text → ValidationResult
  stripped_format_id [] = rejected (codes "Format ID cannot be empty")
  stripped_format_id (c ∷ cs) = check_format_id (c ∷ cs)

  unfoldable pub validate_format_id : Text → ValidationResult
  unfolding check_format_id
  validate_format_id [] = rejected (codes "Format ID is required")
  validate_format_id (x ∷ xs) = stripped_format_id (strip is_space (x ∷ xs))

  abbrev pub audio_formats : List Text
  audio_formats = codes "mp3" ∷ codes "m4a" ∷ codes "wav" ∷ codes "opus" ∷ []

  abbrev pub audio_qualities : List Text
  audio_qualities = codes "128" ∷ codes "192" ∷ codes "320" ∷ []

  unfoldable pub validate_audio_format : Text → ValidationResult
  validate_audio_format [] = rejected (codes "Audio format is required")
  validate_audio_format (x ∷ xs) =
      if text_in (lower (x ∷ xs)) audio_formats
      then accepted (lower (x ∷ xs))
      else rejected (codes "Invalid audio format. Valid options: mp3, m4a, wav, opus")

  unfoldable pub validate_audio_quality : Text → ValidationResult
  validate_audio_quality [] = rejected (codes "Audio quality is required")
  validate_audio_quality (x ∷ xs) =
      if text_in (x ∷ xs) audio_qualities
      then accepted (x ∷ xs)
      else rejected (codes "Invalid audio quality. Valid options: 128, 192, 320kbps")

  -- `(-[a-zA-Z]{2,4})?$`
  abbrev pub is_region : Text → Bool
  is_region [] = true
  is_region (c ∷ t) = (c == b'-') && all_chars is_letter t && in_range 2 4 (length t)

  -- `^[a-z]{2,3}` and a region, of a text with no newline at its end; the letters up to the first
  -- other character are those of the language.
  unfoldable pub is_language : Text → Bool
  is_language t =
      in_range 2 3 (length (take_while (in_range b'a' b'z') t))
      && is_region (drop_while (in_range b'a' b'z') t)

  unfoldable pub validate_language_code : Text → ValidationResult
  unfolding is_language
  validate_language_code [] = rejected (codes "Language code is required")
  validate_language_code (x ∷ xs) =
      let lang_code = lower (strip is_space (x ∷ xs)) in
      if is_language lang_code
      then accepted lang_code
      else rejected (codes "Invalid language code format. Use ISO 639 format (e.g., 'en', 'en-US')")

-- A value that should be an integer.
pub data Given : Type 0 where
  integer : ℤ → Given
  other_type : Given

abbrev pub exceeds : ℕ → Option ℕ → Bool
exceeds n none = false
exceeds n (some m) = ltb m n

abbrev pub limit_of : Option ℕ → Text
limit_of none = []
limit_of (some m) = digits m

abbrev pub not_positive : Text → ValidationResult
not_positive name = rejected (name ++ codes " must be a positive integer")

unfoldable pub validate_positive_integer : Given → Text → Option ℕ → ValidationResult
validate_positive_integer other_type name max_value = rejected (name ++ codes " must be an integer")
validate_positive_integer (integer (negsuc n)) name max_value = not_positive name
validate_positive_integer (integer (pos zero)) name max_value = not_positive name
validate_positive_integer (integer (pos (suc n))) name max_value =
    if exceeds (suc n) max_value
    then rejected (name ++ codes " exceeds maximum allowed value of " ++ limit_of max_value)
    else accepted (digits (suc n))
