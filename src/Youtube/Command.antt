-- ===== src/Youtube/Command.antt =====
-- The yt-dlp commands of app/providers/youtube.py, what its log shows of them (`_redact_command`),
-- and the copy of the cookie file that they run against (app/utils/cookies.py).
pub mod Hidden
use yt_dlp_api.Prelude.Text.{truthy, or_else}
use yt_dlp_api.Prelude.{
  ℕ, zero, suc, ◌+◌, String, Bool, true, false, ◌&&◌, ◌||◌, not, Option, none, some, List, [], ◌∷◌,
  ◌++◌, if◌then◌else◌, str_eq, member, get_elem?,
}

-- The arguments of `download`.
pub record DownloadRequest : Type 0 where
  pub url : String
  pub format_id : Option String
  pub output_template : Option String
  pub extract_audio : Bool
  pub audio_format : Option String
  pub include_subtitles : Bool
  pub subtitle_lang : Option String

-- `cmd.extend([flag, value])`, if there is a value
abbrev pub option : String → Option String → List String
option flag value = elim (truthy value) [ none ↦ [] | some v ↦ flag ∷ v ∷ [] ]

-- `audio_format or "mp3"`
abbrev pub audio_format_of : DownloadRequest → String
audio_format_of r = or_else (truthy r.audio_format) "mp3"

-- `audio_format in ["mp3", "m4a"]`
abbrev pub has_best_quality : Option String → Bool
has_best_quality none = false
has_best_quality (some f) = str_eq f "mp3" || str_eq f "m4a"

unfoldable pub audio_options : DownloadRequest → List String
audio_options r =
    if r.extract_audio
    then "-x"
      ∷ "--audio-format"
      ∷ audio_format_of r
      ∷ (if has_best_quality r.audio_format then "--audio-quality" ∷ "0" ∷ [] else [])
    else []

unfoldable pub subtitle_options : DownloadRequest → List String
subtitle_options r =
    if r.include_subtitles then "--write-subs" ∷ option "--sub-langs" r.subtitle_lang else []

unfoldable pub download_command : String → DownloadRequest → List String
unfolding audio_options subtitle_options
download_command cookie_path r =
    "yt-dlp"
    ∷ "--cookies"
    ∷ cookie_path
    ∷ "--print"
    ∷ "after_move:filepath"
    ∷ (option "-f" r.format_id
        ++ (audio_options r
            ++ (option "-o" r.output_template ++ (subtitle_options r ++ r.url ∷ []))))

unfoldable pub info_command : String → Bool → String → List String
info_command cookie_path include_formats url =
    "yt-dlp"
    ∷ "--dump-json"
    ∷ "--no-download"
    ∷ "--cookies"
    ∷ cookie_path
    ∷ ((if include_formats then [] else "--skip-download" ∷ []) ++ url ∷ [])

unfoldable pub transcript_command : String → Bool → String → String → String → List String
transcript_command cookie_path manual lang tmpdir url =
    "yt-dlp"
    ∷ "--skip-download"
    ∷ (if manual then "--write-subs" else "--write-auto-subs")
    ∷ "--sub-langs"
    ∷ lang
    ∷ "--sub-format"
    ∷ "vtt"
    ∷ "--paths"
    ∷ tmpdir
    ∷ "--output"
    ∷ "transcript.%(ext)s"
    ∷ "--cookies"
    ∷ cookie_path
    ∷ url
    ∷ []

abbrev pub is_secret_flag : String → Bool
is_secret_flag arg = member arg ("--cookies" ∷ "--password" ∷ "--username" ∷ [])

-- The loop of `_redact_command`, with `skip_next`.
unfoldable pub redact_from : Bool → List String → List String
redact_from skip_next [] = []
redact_from skip_next (arg ∷ rest) =
    (if skip_next then "[REDACTED]" else arg)
    ∷ redact_from (not skip_next && is_secret_flag arg) rest

unfoldable pub redact_command : List String → List String
unfolding redact_from
redact_command cmd = redact_from false cmd

-- `cmd.index(arg)`; none: a ValueError.
unfoldable pub index_of : String → List String → Option ℕ
index_of arg [] = none
index_of arg (x ∷ xs) =
    if str_eq x arg
    then some 0
    else (elim (index_of arg xs) [ none ↦ none | some i ↦ some (suc i) ])

-- `patched[i] = v`
unfoldable pub set_arg : List String → ℕ → String → List String
set_arg [] i v = []
set_arg (x ∷ xs) zero v = v ∷ xs
set_arg (x ∷ xs) (suc i) v = x ∷ set_arg xs i v

-- The command that `exec_cookie_copy` yields. `is_file` is `os.path.isfile`, `temp_path` the copy.
unfoldable pub exec_cookie_copy : (String → Bool) → String → List String → List String
unfolding index_of set_arg
exec_cookie_copy is_file temp_path cmd = elim (index_of "--cookies" cmd) [
  | none ↦ cmd
  | some i ↦ elim (get_elem? cmd (suc i)) [
    | none ↦ cmd
    | some cookie_path ↦ if is_file cookie_path then set_arg cmd (suc i) temp_path else cmd
  ]
]
