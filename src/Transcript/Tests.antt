-- ===== src/Transcript/Tests.antt =====
-- Runs of app/utils/transcript.py on small inputs, with natural numbers of milliseconds or seconds as
-- the floats, and the theorem at such an input.
use yt_dlp_api.Prelude.{ℕ, ◌+◌, ◌*◌, Option, ◌≡◌, refl, some, List, [], ◌∷◌}
use yt_dlp_api.Prelude.Chars.{Text, codes, split, digits, digits_fuel}
use yt_dlp_api.Transcript.{
  TranscriptSegment, timestamp_to_seconds, padded, srt_timestamp, seconds_to_srt_timestamp, blocks,
  segments_to_srt, segments_to_text,
}
use yt_dlp_api.Transcript.Digits.{int_from}
use yt_dlp_api.Transcript.Timestamps.{srt_time, seconds_to_srt_timestamp_lem}

abbrev whole : Text → Option ℕ
whole t = some (int_from 0 t)

with_hours : timestamp_to_seconds whole whole (λ n s. n + s) (codes "01:02:03") ≡ some 3723
unfolding timestamp_to_seconds split
with_hours = refl

-- With a fourth part the hours are none.
four_parts : timestamp_to_seconds whole whole (λ n s. n + s) (codes "7:01:02:03") ≡ some 123
unfolding timestamp_to_seconds split
four_parts = refl

abbrev same : ℕ → ℕ
same n = n

abbrev two_segments : List (TranscriptSegment ℕ)
two_segments =
    record { start = 0; end = 1500; text = codes "a" }
    ∷ record { start = 1500; end = 3600000; text = codes "b" }
    ∷ []

as_srt :
    segments_to_srt same same two_segments
    ≡ codes "1\n00:00:00,000 --> 00:00:01,500\na\n\n2\n00:00:01,500 --> 01:00:00,000\nb\n"
unfolding segments_to_srt blocks seconds_to_srt_timestamp srt_timestamp padded digits digits_fuel
as_srt = refl

as_text : segments_to_text two_segments ≡ codes "a\nb"
unfolding segments_to_text
as_text = refl

-- 3723 seconds.
seconds_to_srt_timestamp_example :
    srt_time (seconds_to_srt_timestamp (λ n. n * 1000) same 3723) ≡ some 3723000
seconds_to_srt_timestamp_example = seconds_to_srt_timestamp_lem (λ n. n * 1000) same 3723
