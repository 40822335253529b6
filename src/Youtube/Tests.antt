-- ===== src/Youtube/Tests.antt =====
-- Runs of app/providers/youtube.py on small inputs, and the theorems at such inputs.
use yt_dlp_api.Prelude.{
  ℕ, zero, suc, String, Bool, true, ◌&&◌, ◌||◌, none, some, [], ◌∷◌, ◌≡◌, refl, ◌==◌, leb,
}
use yt_dlp_api.Prelude.Chars.{codes}
use yt_dlp_api.Youtube.Attempts.{
  Attempt, exited, timed_out, completed_process, RetryConfig, execute_attempts, attempts_from, turn,
  handle_timeout, wait_time,
}
use yt_dlp_api.Youtube.Command.{
  DownloadRequest, download_command, audio_options, subtitle_options, redact_from, redact_command,
}
use yt_dlp_api.Youtube.Url.{validate_url, any_pattern, extract_video_id, id_here, id_after}
use yt_dlp_api.Youtube.Url.Extract.{http, watch, validate_url-extracts}
use yt_dlp_api.Youtube.Url.Case.{lower, upper_host_rejected}

abbrev settings : RetryConfig
settings = record { retry_attempts = 3; retry_backoff = 2 ∷ 4 ∷ 8 ∷ []; timeout = "300" }

-- The first attempt runs out of time, the second succeeds.
abbrev slow_once : ℕ → Attempt
slow_once zero = timed_out
slow_once (suc i) = exited 0 "{}" none

second_attempt :
    execute_attempts settings slow_once
    ≡ (record { started = 2; slept = 2 ∷ []; cleanups = 1 }, completed_process "{}" none)
unfolding execute_attempts attempts_from turn handle_timeout wait_time
second_attempt = refl

abbrev audio_request : DownloadRequest
audio_request = record {
  url = "https://youtu.be/abc";
  format_id = none;
  output_template = some "/out/x.%(ext)s";
  extract_audio = true;
  audio_format = some "m4a";
  include_subtitles = true;
  subtitle_lang = some "en";
}

redacted :
    redact_command (download_command "/cookies.txt" audio_request)
    ≡ "yt-dlp" ∷ "--cookies" ∷ "[REDACTED]" ∷ "--print" ∷ "after_move:filepath" ∷ "-x"
      ∷ "--audio-format" ∷ "m4a" ∷ "--audio-quality" ∷ "0" ∷ "-o" ∷ "/out/x.%(ext)s"
      ∷ "--write-subs" ∷ "--sub-langs" ∷ "en" ∷ "https://youtu.be/abc" ∷ []
unfolding redact_command redact_from download_command audio_options subtitle_options
redacted = refl

abbrev any_file : String → Bool
any_file p = true

-- The letters, digits and underscore of ASCII.
abbrev ascii_word : ℕ → Bool
ascii_word c =
    (leb b'a' c && leb c b'z')
    || (leb b'A' c && leb c b'Z')
    || (leb b'0' c && leb c b'9')
    || c == b'_'

found :
    extract_video_id ascii_word (codes "https://www.youtube.com/watch?v=a-b&t=1")
    ≡ some (codes "a-b")
unfolding extract_video_id id_here id_after
found = refl

accepted : validate_url (λ c d. lower c == d) ascii_word (codes "HTTPS://youtu.be/abc") ≡ true
unfolding validate_url any_pattern
accepted = refl

abbrev ascii_same : ℕ → ℕ → Bool
ascii_same c d = lower c == d

validate_url-extracts_example :
    (validate_url ascii_same ascii_word (codes "https://www.youtube.com/watch?v=aB-1&t=5") ≡ true)
    × (extract_video_id ascii_word (codes "https://www.youtube.com/watch?v=aB-1&t=5")
        ≡ some (codes "aB-1"))
validate_url-extracts_example =
    validate_url-extracts ascii_word b'a' (codes "B-1") (codes "&t=5") refl refl ascii_same
      (λ c d h. refl) (http true) (watch true)

upper_host_rejected_example :
    (validate_url ascii_same ascii_word (codes "YOUTU.BE/abc") ≡ true)
    × (extract_video_id ascii_word (codes "YOUTU.BE/abc") ≡ none)
upper_host_rejected_example =
    upper_host_rejected ascii_same ascii_word (λ c d h. refl) refl refl refl b'a' (codes "bc") refl
