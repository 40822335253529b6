-- ===== src/Template/Safe.antt =====
-- app/core/template.py: a sanitized name holds no unsafe character.
use yt_dlp_api.Prelude.{
  ℕ, ◌+◌, ◌-◌, Bool, not, leb→le, [], ◌∷◌, arith, inl, inr, subst, Bool-cases, Option-cases,
  if◌then◌else◌, length, take, filter, min, ltb, leb, ◌==◌,
}
use yt_dlp_api.Prelude.Chars.{Text, strip, text_in}
use yt_dlp_api.Template.{
  illegal_chars, replace_all, is_dot, rsplit, join_cut, cut_parts, cut_to_max, truncate, or_unnamed,
  unnamed, clean_chars, guard_reserved, guard_short, is_reserved, shorten, sanitize_filename,
}
use yt_dlp_api.Template.Clean.{
  Avoids, IsClean, AllClean, AllClean-append, AllClean-take, AllClean-strip, PartsClean,
  rsplit-PartsClean, AllAvoid, rev_onto, replace_all-AllAvoid,
}

Avoids-turned : (c : ℕ) → Avoids (rev_onto illegal_chars []) c → IsClean c
Avoids-turned c h = ground arith

AllAvoid-turned : (t : Text) → AllAvoid (rev_onto illegal_chars []) t → AllClean t
AllAvoid-turned [] h = tt
AllAvoid-turned (c ∷ t) h = (Avoids-turned c h.0, AllAvoid-turned t h.1)

filter-AllAvoid : (p : ℕ → Bool) (t : Text) → AllAvoid [] t → AllAvoid [] (filter p t)
filter-AllAvoid p [] h = tt
filter-AllAvoid p (c ∷ t) h = elim (Bool-cases (p c)) [
  | inl e ↦ rw e (h.0, filter-AllAvoid p t h.1)
  | inr e ↦ rw e (filter-AllAvoid p t h.1)
]

printable-AllAvoid : (t : Text) → AllAvoid [] (filter (λ c. leb 32 c) t)
printable-AllAvoid [] = tt
printable-AllAvoid (c ∷ t) = elim (Bool-cases (leb 32 c)) [
  | inl e ↦ rw e (leb→le 32 c e, printable-AllAvoid t)
  | inr e ↦ rw e (printable-AllAvoid t)
]

underscore-IsClean : IsClean 95
underscore-IsClean = ground arith

pub dot-IsClean : IsClean 46
dot-IsClean = ground arith

pub unnamed-AllClean : AllClean unnamed
unnamed-AllClean = ground arith

join_cut-AllClean :
    (name : Text) (m : ℕ) (ext : Text)
    → AllClean name
    → AllClean ext
    → AllClean (join_cut name m ext)
join_cut-AllClean name m ext h k =
    AllClean-append (take (if ltb m 1 then 1 else m) name) (46 ∷ ext)
      (AllClean-take (if ltb m 1 then 1 else m) name h) (dot-IsClean, k)

cut_parts-AllClean :
    (name ext : Text) → AllClean name → AllClean ext → AllClean (cut_parts name ext)
unfolding cut_parts
cut_parts-AllClean name ext h k = elim (Bool-cases (ltb 199 (length ext + 1))) [
  | inl e ↦ rw e (
      join_cut-AllClean name (200 - min (length ext) 198 - 1) (take (min (length ext) 198) ext) h
        (AllClean-take (min (length ext) 198) ext k))
  | inr e ↦ rw e (join_cut-AllClean name (200 - length ext - 1) ext h k)
]

truncate-AllClean : (t : Text) → AllClean t → AllClean (truncate t)
unfolding truncate
truncate-AllClean t h = elim (Option-cases (rsplit t)) [
  | inl e ↦ rw (e, truncate) (AllClean-take 200 t h)
  | inr ((name, ext), e) ↦
      let i = subst PartsClean e (rsplit-PartsClean t h) in
      rw (e, truncate) (cut_parts-AllClean name ext i.0 i.1)
]

cut_to_max-AllClean : (t : Text) → AllClean t → AllClean (cut_to_max t)
cut_to_max-AllClean t h = elim (Bool-cases (ltb 200 (length t))) [
  | inl e ↦ rw e (AllClean-take 200 t h)
  | inr e ↦ rw e h
]

or_unnamed-AllClean : (t : Text) → AllClean t → AllClean (or_unnamed t)
unfolding or_unnamed
or_unnamed-AllClean t h = elim (Bool-cases (text_in t ([] ∷ (46 ∷ []) ∷ (46 ∷ 46 ∷ []) ∷ []))) [
  | inl e ↦ rw (e, or_unnamed) unnamed-AllClean
  | inr e ↦ rw (e, or_unnamed) h
]

module _ (normalize upper : Text → Text) (is_space : ℕ → Bool) where
  clean_chars-AllClean : (t : Text) → AllClean (clean_chars normalize upper is_space t)
  unfolding clean_chars
  clean_chars-AllClean t =
      let printable = filter (λ c. leb 32 c) (normalize t) in
      let kept = filter (λ c. not (c == 0)) printable in
      AllClean-strip is_dot (strip is_space (replace_all illegal_chars kept)) (
        AllClean-strip is_space (replace_all illegal_chars kept) (
          AllAvoid-turned (replace_all illegal_chars kept) (
            replace_all-AllAvoid illegal_chars [] kept (ground arith)
              (filter-AllAvoid (λ c. not (c == 0)) printable (printable-AllAvoid (normalize t))))))

  guard_reserved-AllClean :
      (t : Text) → AllClean t → AllClean (guard_reserved normalize upper is_space t)
  unfolding guard_reserved
  guard_reserved-AllClean t h = elim (Bool-cases (is_reserved normalize upper is_space t)) [
    | inl e ↦ rw (e, guard_reserved) (underscore-IsClean, h)
    | inr e ↦ rw (e, guard_reserved) h
  ]

  guard_short-AllClean : (t : Text) → AllClean t → AllClean (guard_short normalize upper is_space t)
  unfolding guard_short
  guard_short-AllClean t h = elim (Bool-cases (is_reserved normalize upper is_space t)) [
    | inl e ↦ rw (e, guard_short) (cut_to_max-AllClean (95 ∷ t) (underscore-IsClean, h))
    | inr e ↦ rw (e, guard_short) h
  ]

  shorten-AllClean : (t : Text) → AllClean t → AllClean (shorten normalize upper is_space t)
  unfolding shorten
  shorten-AllClean t h = elim (Bool-cases (ltb 200 (length t))) [
    | inl e ↦ rw (e, shorten) (guard_short-AllClean (truncate t) (truncate-AllClean t h))
    | inr e ↦ rw (e, shorten) h
  ]

  -- No character of a sanitized name is a control character or illegal in a file name, a slash or
  -- a null byte among them, whatever the name it is made from.
  pub sanitize_filename-AllClean :
      (t : Text) → AllClean (sanitize_filename normalize upper is_space t)
  unfolding sanitize_filename
  sanitize_filename-AllClean [] = unnamed-AllClean
  sanitize_filename-AllClean (c ∷ cs) =
      or_unnamed-AllClean _
        (shorten-AllClean _ (guard_reserved-AllClean _ (clean_chars-AllClean (c ∷ cs))))
