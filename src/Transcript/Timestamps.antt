-- ===== src/Transcript/Timestamps.antt =====
-- app/utils/transcript.py: the timestamps that are written are the ones that SRT prescribes.
use yt_dlp_api.Prelude.{
  ℕ, ◌+◌, ◌*◌, ◌/◌, ◌%◌, ◌<◌, Bool, true, ◌&&◌, Option, none, some, List, [], ◌∷◌, ◌++◌, ◌≡◌, refl,
  ap, ◌∙◌, arith, length, ltb, leb, ◌==◌, if◌then◌else◌,
}
use yt_dlp_api.Prelude.Chars.{Text, split, all_chars}
use yt_dlp_api.Transcript.{padded, srt_timestamp, seconds_to_srt_timestamp}
use yt_dlp_api.Transcript.Digits.{
  int_from, is_digit, int_from-padded, padded_all, split-append, split-free_of, digits-free_of,
  append-free_of, le-length-padded, length-padded_two, length-padded_three,
}

-- The fields of an SRT timestamp, `hours:minutes:seconds,milliseconds`: digits alone, of two, two,
-- two and three places (the hours may have more), with less than 60 minutes and seconds.
abbrev pub is_field : ℕ → Text → Bool
is_field w t = all_chars is_digit t && length t == w

abbrev pub are_fields : Text → Text → Text → Text → Bool
are_fields h m s ms =
    all_chars is_digit h
    && leb 2 (length h)
    && is_field 2 m
    && is_field 2 s
    && is_field 3 ms
    && ltb (int_from 0 m) 60
    && ltb (int_from 0 s) 60

abbrev pub fields_time : Text → Text → Text → Text → Option ℕ
fields_time h m s ms =
    if are_fields h m s ms
    then some (int_from 0 h * 3600000 + int_from 0 m * 60000 + int_from 0 s * 1000 + int_from 0 ms)
    else none

abbrev pub with_seconds : Text → Text → List Text → Option ℕ
with_seconds h m (s ∷ ms ∷ []) = fields_time h m s ms
with_seconds h m _ = none

abbrev pub with_parts : List Text → Option ℕ
with_parts (h ∷ m ∷ r ∷ []) = with_seconds h m (split b',' r)
with_parts _ = none

-- The milliseconds that a text denotes as an SRT timestamp, if it is one.
abbrev pub srt_time : Text → Option ℕ
srt_time t = with_parts (split b':' t)

-- A timestamp of four texts of digits.
abbrev timestamp : ℕ → Text → Text → Text → Text → Text
timestamp sep h m s ms = h ++ b':' ∷ (m ++ b':' ∷ (s ++ sep ∷ ms))

abbrev AreDigits : Text → Text → Text → Text → Type 0
AreDigits h m s ms =
    (all_chars is_digit h ≡ true)
    × (all_chars is_digit m ≡ true)
    × (all_chars is_digit s ≡ true)
    × (all_chars is_digit ms ≡ true)

are_fields-padded :
    (h m s ms : ℕ)
    → m < 60
    → s < 60
    → ms < 1000
    → are_fields (padded 2 h) (padded 2 m) (padded 2 s) (padded 3 ms) ≡ true
are_fields-padded h m s ms a b c =
    let wide = le-length-padded 2 h in
    rw (padded_all 2 h, padded_all 2 m, padded_all 2 s, padded_all 3 ms)
      (rw
        (
          length-padded_two m (omega arith),
          length-padded_two s (omega arith),
          length-padded_three ms c,
        )
        (rw (int_from-padded 2 m, int_from-padded 2 s) (ground arith)))

fields_time-padded :
    (h m s ms : ℕ)
    → m < 60
    → s < 60
    → ms < 1000
    → fields_time (padded 2 h) (padded 2 m) (padded 2 s) (padded 3 ms)
      ≡ some (h * 3600000 + m * 60000 + s * 1000 + ms)
fields_time-padded h m s ms a b c =
    rw (are_fields-padded h m s ms a b c) (
      rw (int_from-padded 2 h, int_from-padded 2 m, int_from-padded 2 s, int_from-padded 3 ms) refl)

srt_time_of_digits :
    (h m s ms : Text)
    → AreDigits h m s ms
    → srt_time (timestamp b',' h m s ms) ≡ fields_time h m s ms
srt_time_of_digits h m s ms d =
    let parts : split b':' (timestamp b',' h m s ms) ≡ h ∷ m ∷ (s ++ b',' ∷ ms) ∷ [] =
      split-append b':' h (m ++ b':' ∷ (s ++ b',' ∷ ms)) refl d.0
      ∙ ap (λ r. h ∷ r) (split-append b':' m (s ++ b',' ∷ ms) refl d.1)
      ∙ ap (λ r. h ∷ m ∷ r)
          (split-free_of b':' (s ++ b',' ∷ ms) (
            append-free_of b':' s (b',' ∷ ms) (digits-free_of b':' s refl d.2)
              (digits-free_of b':' ms refl d.3))) in
    let last : split b',' (s ++ b',' ∷ ms) ≡ s ∷ ms ∷ [] =
      split-append b',' s ms refl d.2
      ∙ ap (λ r. s ∷ r) (split-free_of b',' ms (digits-free_of b',' ms refl d.3)) in
    ap with_parts parts ∙ ap (with_seconds h m) last

sum_back :
    (v : ℕ)
    → v / 3600000 * 3600000
        + v % 3600000 / 60000 * 60000
        + v % 3600000 % 60000 / 1000 * 1000
        + v % 3600000 % 60000 % 1000
      ≡ v
sum_back v = omega arith

srt_time-srt_timestamp : (v : ℕ) → srt_time (srt_timestamp v) ≡ some v
unfolding srt_timestamp
srt_time-srt_timestamp v =
    let h = v / 3600000 in
    let m = v % 3600000 / 60000 in
    let s = v % 3600000 % 60000 / 1000 in
    let ms = v % 3600000 % 60000 % 1000 in
    srt_time_of_digits (padded 2 h) (padded 2 m) (padded 2 s) (padded 3 ms)
      (padded_all 2 h, padded_all 2 m, padded_all 2 s, padded_all 3 ms)
    ∙ fields_time-padded h m s ms (omega arith) (omega arith) (omega arith)
    ∙ ap (λ n. some n) (sum_back v)

module _ {Float : Type 0} (times_1000 : Float → Float) (round : Float → ℕ) where
  -- What is written for any number of seconds is an SRT timestamp, of digits in fields of two, two, two
  -- and three places (more for the hours where they need it) with less than 60 minutes and seconds, and
  -- it denotes exactly the milliseconds to which the product by 1000 is rounded.
  pub seconds_to_srt_timestamp_lem :
      (value : Float)
      → srt_time (seconds_to_srt_timestamp times_1000 round value) ≡ some (round (times_1000 value))
  unfolding seconds_to_srt_timestamp
  seconds_to_srt_timestamp_lem value = srt_time-srt_timestamp (round (times_1000 value))
