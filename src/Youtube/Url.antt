-- ===== src/Youtube/Url.antt =====
-- `validate_url` and `extract_video_id` of app/providers/youtube.py. The regular expressions are
-- matchers over code points that take what comes after; `same c d` is the comparison of a
-- character of the text with one of the pattern under re.IGNORECASE, `is_word` is `\w`.
pub mod Extract
pub mod Case
use yt_dlp_api.Prelude.{
  ℕ, String, Bool, true, false, ◌&&◌, ◌||◌, Option, none, some, List, [], ◌∷◌, ◌==◌, if◌then◌else◌,
}
use yt_dlp_api.Prelude.Chars.{Text, codes, take_while}

-- `[\w-]`
abbrev pub is_id_char : (ℕ → Bool) → ℕ → Bool
is_id_char is_word c = is_word c || c == b'-'

-- The text of a pattern, then what follows it.
abbrev pub lit : (ℕ → ℕ → Bool) → Text → (Text → Bool) → Text → Bool
lit same [] next t = next t
lit same (p ∷ ps) next [] = false
lit same (p ∷ ps) next (c ∷ t) = same c p && lit same ps next t

-- `(?:…)?`
abbrev pub opt : (ℕ → ℕ → Bool) → Text → (Text → Bool) → Text → Bool
opt same p next t = lit same p next t || next t

-- `https?://`
abbrev pub http_scheme : (ℕ → ℕ → Bool) → (Text → Bool) → Text → Bool
http_scheme same next t =
    lit same (codes "http") (opt same (codes "s") (lit same (codes "://") next)) t

-- `(?:https?://)?`
abbrev pub opt_scheme : (ℕ → ℕ → Bool) → (Text → Bool) → Text → Bool
opt_scheme same next t = http_scheme same next t || next t

-- `[\w-]+` at the end of a pattern: one character is enough.
abbrev pub id_start : (ℕ → Bool) → Text → Bool
id_start is_word [] = false
id_start is_word (c ∷ t) = is_id_char is_word c

-- `self.URL_PATTERNS`, each after the optional scheme.
unfoldable pub any_pattern : (ℕ → ℕ → Bool) → (ℕ → Bool) → Text → Bool
any_pattern same is_word t =
    opt same (codes "www.") (lit same (codes "youtube.com/watch?v=") (id_start is_word)) t
    || opt same (codes "www.") (lit same (codes "youtube.com/shorts/") (id_start is_word)) t
    || opt same (codes "www.") (lit same (codes "youtube.com/embed/") (id_start is_word)) t
    || lit same (codes "youtu.be/") (id_start is_word) t
    || lit same (codes "m.youtube.com/watch?v=") (id_start is_word) t

-- `re.match(pattern, url, re.IGNORECASE)` for one of the patterns
unfoldable pub validate_url : (ℕ → ℕ → Bool) → (ℕ → Bool) → Text → Bool
unfolding any_pattern
validate_url same is_word url = opt_scheme same (any_pattern same is_word) url

-- `v=`, `shorts/`, `embed/` or `youtu.be/` at the start of a text, and the text after it.
abbrev pub after : Text → Text → Option Text
after [] t = some t
after (p ∷ ps) [] = none
after (p ∷ ps) (c ∷ t) = if c == p then after ps t else none

-- The group of the pattern, after a marker.
unfoldable pub id_after : (ℕ → Bool) → Text → Text → Option Text
id_after is_word marker t = elim (after marker t) [
  | none ↦ none
  | some rest ↦ elim (take_while (is_id_char is_word) rest) [ [] ↦ none | c ∷ cs ↦ some (c ∷ cs) ]
]

abbrev pub or_option : Option Text → Option Text → Option Text
or_option none b = b
or_option (some a) b = some a

unfoldable pub id_here : (ℕ → Bool) → Text → Option Text
unfolding id_after
id_here is_word t = or_option (id_after is_word (codes "v=") t) (
    or_option (id_after is_word (codes "shorts/") t)
      (or_option (id_after is_word (codes "embed/") t) (id_after is_word (codes "youtu.be/") t)))

-- `re.search(self.VIDEO_ID_PATTERN, url)`: the first place that fits.
unfoldable pub extract_video_id : (ℕ → Bool) → Text → Option Text
unfolding id_here
extract_video_id is_word [] = none
extract_video_id is_word (c ∷ t) = or_option (id_here is_word (c ∷ t)) (extract_video_id is_word t)
