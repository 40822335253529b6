-- ===== src/Transcript.antt =====
-- app/utils/transcript.py: the timestamps and the rendering of transcripts, over code points. The
-- seconds are floats: their type is a parameter, and so are `float`, `int`, the sum of an int and a
-- float, the product by 1000 and `round`, which gives a natural number as no time is negative.
pub mod Digits
pub mod Timestamps
mod Tests
use yt_dlp_api.Prelude.{
  ℕ, zero, suc, ◌+◌, ◌-◌, ◌*◌, ◌/◌, ◌%◌, Option, none, some, List, [], ◌∷◌, ◌++◌, length, ltb,
  if◌then◌else◌,
}
use yt_dlp_api.Prelude.Chars.{Text, codes, split, digits}

pub record TranscriptSegment (Float : Type 0) : Type 0 where
  pub start : Float
  pub end : Float
  pub text : Text

-- `parts[-1]`, `parts[-2]` and so on
abbrev pub from_last : List Text → List Text → List Text
from_last [] last = last
from_last (p ∷ ps) last = from_last ps (p ∷ last)

module _ {Float : Type 0} (float_of : Text → Option Float) (int_of : Text → Option ℕ)
    (add_int : ℕ → Float → Float) where
  abbrev pub total_seconds : Option Float → Option ℕ → Option ℕ → Option Float
  total_seconds (some seconds) (some minutes) (some hours) =
      some (add_int (hours * 3600 + minutes * 60) seconds)
  total_seconds _ _ _ = none

  abbrev pub seconds_of : List Text → Option Float
  seconds_of (s ∷ m ∷ h ∷ []) = total_seconds (float_of s) (int_of m) (int_of h)
  seconds_of (s ∷ m ∷ _) = total_seconds (float_of s) (int_of m) (some 0)
  seconds_of _ = none

  -- `_timestamp_to_seconds`; none: a ValueError or an IndexError.
  unfoldable pub timestamp_to_seconds : Text → Option Float
  timestamp_to_seconds value = seconds_of (from_last (split b':' value) [])

abbrev pub zeros : ℕ → Text
zeros zero = []
zeros (suc n) = b'0' ∷ zeros n

-- `f"{n:0wd}"`
unfoldable pub padded : ℕ → ℕ → Text
unfolding digits
padded w n = zeros (w - length (digits n)) ++ digits n

-- `f"{hours:02d}:{minutes:02d}:{seconds:02d},{millis:03d}"`, of the rounded milliseconds.
unfoldable pub srt_timestamp : ℕ → Text
unfolding padded
srt_timestamp millis =
    let remainder = millis % 3600000 in
    padded 2 (millis / 3600000)
    ++ b':'
      ∷ (padded 2 (remainder / 60000)
          ++ b':'
            ∷ (padded 2 (remainder % 60000 / 1000) ++ b',' ∷ padded 3 (remainder % 60000 % 1000)))

-- `sep.join(ts)`
abbrev pub join : Text → List Text → Text
join sep [] = []
join sep (t ∷ []) = t
join sep (t ∷ u ∷ ts) = t ++ (sep ++ join sep (u ∷ ts))

module _ {Float : Type 0} where
  abbrev pub texts : List (TranscriptSegment Float) → List Text
  texts [] = []
  texts (s ∷ ss) = s.text ∷ texts ss

  unfoldable pub segments_to_text : List (TranscriptSegment Float) → Text
  segments_to_text segments = join (b'\n' ∷ []) (texts segments)

module _ {Float : Type 0} (times_1000 : Float → Float) (round : Float → ℕ) where
  unfoldable pub seconds_to_srt_timestamp : Float → Text
  unfolding srt_timestamp
  seconds_to_srt_timestamp value = srt_timestamp (round (times_1000 value))

  -- The blocks, from an index on.
  unfoldable pub blocks : ℕ → List (TranscriptSegment Float) → List Text
  unfolding digits seconds_to_srt_timestamp
  blocks index [] = []
  blocks index (s ∷ ss) =
      (digits index
        ++ b'\n'
          ∷ (seconds_to_srt_timestamp s.start
              ++ (codes " --> " ++ (seconds_to_srt_timestamp s.end ++ b'\n' ∷ s.text))))
      ∷ blocks (suc index) ss

  unfoldable pub segments_to_srt : List (TranscriptSegment Float) → Text
  unfolding blocks
  segments_to_srt segments = elim (blocks 1 segments) [
    | [] ↦ []
    | b ∷ bs ↦ join (b'\n' ∷ b'\n' ∷ []) (b ∷ bs) ++ b'\n' ∷ []
  ]
