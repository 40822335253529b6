-- ===== src/Youtube/Url/Case.antt =====
-- app/providers/youtube.py: `validate_url` ignores case, `extract_video_id` does not.
use yt_dlp_api.Prelude.{
  ℕ, ◌+◌, ◌<◌, Bool, true, false, ◌&&◌, ◌||◌, none, [], ◌∷◌, ◌++◌, ◌≡◌, refl, ap, ◌∙◌, arith, ◌==◌,
  if◌then◌else◌, leb,
}
use yt_dlp_api.Prelude.Chars.{Text, codes, all_chars}
use yt_dlp_api.Youtube.Url.{
  is_id_char, lit, id_start, any_pattern, validate_url, after, id_after, or_option, id_here,
  extract_video_id,
}

-- The small letter of an ASCII letter.
abbrev pub lower : ℕ → ℕ
lower c = if leb b'A' c && leb c b'Z' then c + 32 else c

pub or_right : (a b : Bool) → b ≡ true → a || b ≡ true
or_right true b h = refl
or_right false b h = h

pub or_left : (a b : Bool) → a ≡ true → a || b ≡ true
or_left true b h = refl
or_left false b h = absurd cc

-- re.IGNORECASE tells ASCII characters apart up to case; `=`, `/` and `.` are no word characters.
module _ (same : ℕ → ℕ → Bool) (is_word : ℕ → Bool)
    (same_ascii : (c d : ℕ) → c < 128 → same c d ≡ (lower c == d)) (word_eq : is_word b'=' ≡ false)
    (word_slash : is_word b'/' ≡ false) (word_dot : is_word b'.' ≡ false) where
  -- No marker lies within an id.
  after-none :
      (m t : Text)
      → all_chars (is_id_char is_word) t ≡ true
      → all_chars (is_id_char is_word) m ≡ false
      → after m t ≡ none
  after-none [] t h k = absurd cc
  after-none (p ∷ m) [] h k = refl
  after-none (p ∷ m) (c ∷ t) h k = ground (arith, after-none m t)

  id_after-none :
      (m t : Text)
      → all_chars (is_id_char is_word) t ≡ true
      → all_chars (is_id_char is_word) m ≡ false
      → id_after is_word m t ≡ none
  unfolding id_after
  id_after-none m t h k = rw (after-none m t h k, id_after) refl

  v_bad : all_chars (is_id_char is_word) (codes "v=") ≡ false
  v_bad = ground (arith, word_eq)

  shorts_bad : all_chars (is_id_char is_word) (codes "shorts/") ≡ false
  shorts_bad = ground (arith, word_slash)

  embed_bad : all_chars (is_id_char is_word) (codes "embed/") ≡ false
  embed_bad = ground (arith, word_slash)

  youtu_be_bad : all_chars (is_id_char is_word) (codes "youtu.be/") ≡ false
  youtu_be_bad = ground (arith, word_dot)

  id_here-none : (t : Text) → all_chars (is_id_char is_word) t ≡ true → id_here is_word t ≡ none
  unfolding id_here
  id_here-none t h =
      rw (id_after-none (codes "v=") t h v_bad, id_after-none (codes "shorts/") t h shorts_bad)
        (rw
          (
            id_after-none (codes "embed/") t h embed_bad,
            id_after-none (codes "youtu.be/") t h youtu_be_bad,
          )
          refl)

  extract_none :
      (t : Text) → all_chars (is_id_char is_word) t ≡ true → extract_video_id is_word t ≡ none
  unfolding extract_video_id
  extract_none [] h = refl
  extract_none (c ∷ t) h =
      ap (λ o. or_option o (extract_video_id is_word t)) (id_here-none (c ∷ t) h)
      ∙ extract_none t (ground arith)

  upper_lit :
      (next : Text → Bool) (t : Text)
      → lit same (codes "youtu.be/") next (codes "YOUTU.BE/" ++ t) ≡ next t
  upper_lit next t =
      rw
        (
          same_ascii b'Y' b'y' (omega arith),
          same_ascii b'O' b'o' (omega arith),
          same_ascii b'U' b'u' (omega arith),
          same_ascii b'T' b't' (omega arith),
        )
        (rw
          (
            same_ascii b'.' b'.' (omega arith),
            same_ascii b'B' b'b' (omega arith),
            same_ascii b'E' b'e' (omega arith),
            same_ascii b'/' b'/' (omega arith),
          )
          refl)

  -- Where re.IGNORECASE tells ASCII characters apart up to case, and `=`, `/` and `.` are no word
  -- characters, every url "YOUTU.BE/" with an id after it passes `validate_url`, yet
  -- `extract_video_id` finds no id in it.
  pub upper_host_rejected :
      (c : ℕ) (cs : Text)
      → all_chars (is_id_char is_word) (c ∷ cs) ≡ true
      → (validate_url same is_word (codes "YOUTU.BE/" ++ c ∷ cs) ≡ true)
        × (extract_video_id is_word (codes "YOUTU.BE/" ++ c ∷ cs) ≡ none)
  unfolding validate_url any_pattern extract_video_id
  upper_host_rejected c cs h = (
    or_right _ _
        (or_left _ _ (or_right _ _ (upper_lit (id_start is_word) (c ∷ cs) ∙ ground arith))),
    extract_none (c ∷ cs) h,
  )
