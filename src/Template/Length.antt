-- ===== src/Template/Length.antt =====
-- app/core/template.py: the length of a sanitized name.
use yt_dlp_api.Prelude.{
  false, ℕ, ◌+◌, ◌-◌, ◌≤◌, Bool, [], ◌∷◌, ◌≡◌, arith, inl, inr, Bool-cases, Option-cases,
  if◌then◌else◌, length, take, min, ltb, length-append, length-take,
}
use yt_dlp_api.Prelude.Chars.{Text}
use yt_dlp_api.Template.{
  cut_to_max, join_cut, guard_short, cut_parts, truncate, shorten, or_unnamed, sanitize_filename,
  rsplit, guard_reserved, clean_chars, is_reserved,
}

length-join_cut :
    (name : Text) (m : ℕ) (ext : Text)
    → length (join_cut name m ext) ≤ (if ltb m 1 then 1 else m) + 1 + length ext
length-join_cut name m ext = omega (
  arith,
  length-append (take (if ltb m 1 then 1 else m) name) (46 ∷ ext),
  length-take (if ltb m 1 then 1 else m) name,
)

length-cut_parts : (name ext : Text) → length (cut_parts name ext) ≤ 200
unfolding cut_parts
length-cut_parts name ext = ground (
  arith,
  length-join_cut name (200 - min (length ext) 198 - 1) (take (min (length ext) 198) ext),
  length-take (min (length ext) 198) ext,
  length-join_cut name (200 - length ext - 1) ext,
)

short_enough : (t : Text) → ltb 200 (length t) ≡ false → length t ≤ 200
short_enough t e = ground arith

length-cut_to_max : (t : Text) → length (cut_to_max t) ≤ 200
length-cut_to_max t = elim (Bool-cases (ltb 200 (length t))) [
  | inl e ↦ rw e (omega (arith, length-take 200 t))
  | inr e ↦ rw e (short_enough t e)
]

length-truncate : (t : Text) → length (truncate t) ≤ 200
unfolding truncate
length-truncate t = elim (Option-cases (rsplit t)) [
  | inl e ↦ rw (e, truncate) (omega (arith, length-take 200 t))
  | inr (p, e) ↦ rw (e, truncate) (length-cut_parts p.0 p.1)
]

length-or_unnamed :
    (t : Text) → length t ≤ 200 → (1 ≤ length (or_unnamed t)) × (length (or_unnamed t) ≤ 200)
unfolding or_unnamed
length-or_unnamed [] h = (omega arith, omega arith)
length-or_unnamed (c ∷ cs) h = ground arith

module _ (normalize upper : Text → Text) (is_space : ℕ → Bool) where
  length-guard_short :
      (t : Text) → length t ≤ 200 → length (guard_short normalize upper is_space t) ≤ 200
  unfolding guard_short
  length-guard_short t h = elim (Bool-cases (is_reserved normalize upper is_space t)) [
    | inl e ↦ rw (e, guard_short) (length-cut_to_max (95 ∷ t))
    | inr e ↦ rw (e, guard_short) h
  ]

  length-shorten : (t : Text) → length (shorten normalize upper is_space t) ≤ 200
  unfolding shorten
  length-shorten t = elim (Bool-cases (ltb 200 (length t))) [
    | inl e ↦ rw (e, shorten) (length-guard_short (truncate t) (length-truncate t))
    | inr e ↦ rw (e, shorten) (short_enough t e)
  ]

  -- A sanitized name has from 1 to 200 characters, whatever the name it is made from.
  pub length-sanitize_filename :
      (t : Text)
      → (1 ≤ length (sanitize_filename normalize upper is_space t))
        × (length (sanitize_filename normalize upper is_space t) ≤ 200)
  unfolding sanitize_filename
  length-sanitize_filename [] = (omega arith, omega arith)
  length-sanitize_filename (c ∷ cs) = length-or_unnamed _ (
      length-shorten
        (guard_reserved normalize upper is_space (clean_chars normalize upper is_space (c ∷ cs))))
