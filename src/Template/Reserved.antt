-- ===== src/Template/Reserved.antt =====
-- app/core/template.py: a sanitized name passes the check for the names of Windows devices.
use yt_dlp_api.Prelude.{
  ℕ, Bool, false, [], ◌∷◌, ◌≡◌, refl, inl, inr, Bool-cases, Option-cases, length, take, ltb,
}
use yt_dlp_api.Prelude.Chars.{Text, text_in}
use yt_dlp_api.Template.{
  rsplit, name_without_ext, cut_to_max, truncate, or_unnamed, unnamed, clean_chars, guard_reserved,
  guard_short, is_reserved, shorten, sanitize_filename,
}

name_without_ext-underscore : (t : Text) → name_without_ext (95 ∷ t) ≡ 95 ∷ name_without_ext t
unfolding name_without_ext rsplit
name_without_ext-underscore t = elim (Option-cases (rsplit t)) [
  | inl e ↦ rw (e, name_without_ext, rsplit) refl
  | inr (p, e) ↦ rw (e, name_without_ext, rsplit) refl
]

-- `str.upper` of the two texts that the code adds is as documented: an underscore has no upper
-- case, and "unnamed" is ASCII.
module _ (normalize upper : Text → Text) (is_space : ℕ → Bool)
    (upper_underscore : (t : Text) → upper (95 ∷ t) ≡ 95 ∷ upper t)
    (upper_unnamed : upper unnamed ≡ 85 ∷ 78 ∷ 78 ∷ 65 ∷ 77 ∷ 69 ∷ 68 ∷ []) where
  underscored : (t : Text) → is_reserved normalize upper is_space (95 ∷ t) ≡ false
  unfolding is_reserved
  underscored t = rw (name_without_ext-underscore t, upper_underscore (name_without_ext t)) refl

  unnamed_free : is_reserved normalize upper is_space unnamed ≡ false
  unfolding is_reserved name_without_ext
  unnamed_free = rw upper_unnamed refl

  cut_underscored : (t : Text) → is_reserved normalize upper is_space (cut_to_max (95 ∷ t)) ≡ false
  cut_underscored t = elim (Bool-cases (ltb 200 (length (95 ∷ t)))) [
    | inl e ↦ rw e (underscored (take 199 t))
    | inr e ↦ rw e (underscored t)
  ]

  guard_reserved_free :
      (t : Text)
      → is_reserved normalize upper is_space (guard_reserved normalize upper is_space t) ≡ false
  unfolding guard_reserved
  guard_reserved_free t = elim (Bool-cases (is_reserved normalize upper is_space t)) [
    | inl e ↦ rw (e, guard_reserved) (underscored t)
    | inr e ↦ rw (e, guard_reserved) e
  ]

  guard_short_free :
      (t : Text)
      → is_reserved normalize upper is_space (guard_short normalize upper is_space t) ≡ false
  unfolding guard_short
  guard_short_free t = elim (Bool-cases (is_reserved normalize upper is_space t)) [
    | inl e ↦ rw (e, guard_short) (cut_underscored t)
    | inr e ↦ rw (e, guard_short) e
  ]

  shorten_free :
      (t : Text)
      → is_reserved normalize upper is_space t ≡ false
      → is_reserved normalize upper is_space (shorten normalize upper is_space t) ≡ false
  unfolding shorten
  shorten_free t h = elim (Bool-cases (ltb 200 (length t))) [
    | inl e ↦ rw (e, shorten) (guard_short_free (truncate t))
    | inr e ↦ rw (e, shorten) h
  ]

  or_unnamed_free :
      (t : Text)
      → is_reserved normalize upper is_space t ≡ false
      → is_reserved normalize upper is_space (or_unnamed t) ≡ false
  unfolding or_unnamed
  or_unnamed_free t h = elim (Bool-cases (text_in t ([] ∷ (46 ∷ []) ∷ (46 ∷ 46 ∷ []) ∷ []))) [
    | inl e ↦ rw (e, or_unnamed) unnamed_free
    | inr e ↦ rw (e, or_unnamed) h
  ]

  -- The check for reserved names, which looks at the name before the last dot, finds none in a
  -- sanitized name, even where a truncation makes one, if `upper` keeps a leading underscore and maps
  -- "unnamed" to "UNNAMED".
  pub sanitize_filename_free :
      (t : Text)
      → is_reserved normalize upper is_space (sanitize_filename normalize upper is_space t) ≡ false
  unfolding sanitize_filename
  sanitize_filename_free [] = unnamed_free
  sanitize_filename_free (c ∷ cs) =
      let guarded =
        guard_reserved normalize upper is_space (clean_chars normalize upper is_space (c ∷ cs)) in
      or_unnamed_free (shorten normalize upper is_space guarded)
        (shorten_free guarded (guard_reserved_free (clean_chars normalize upper is_space (c ∷ cs))))
