-- ===== src/Youtube/Url/Extract.antt =====
-- app/providers/youtube.py: the urls of the documented forms pass `validate_url`, and
-- `extract_video_id` finds their id.
use yt_dlp_api.Prelude.{
  ℕ, ◌<◌, Bool, true, false, ◌&&◌, Option, none, some, [], ◌∷◌, ◌++◌, ◌≡◌, refl, ◌∙◌, arith, ◌==◌,
  ltb, if◌then◌else◌,
}
use yt_dlp_api.Prelude.Chars.{Text, codes, all_chars, take_while}
use yt_dlp_api.Youtube.Url.{
  is_id_char, lit, opt, id_start, any_pattern, validate_url, after, id_after, or_option, id_here,
  extract_video_id,
}
use yt_dlp_api.Youtube.Url.Case.{lower, or_left, or_right}

abbrev optional : Bool → Text → Text → Text
optional b p t = if b then p ++ t else t

-- No scheme, or "http" with or without an "s".
pub data Scheme : Type 0 where
  no_scheme : Scheme
  http : Bool → Scheme

abbrev pub with_scheme : Scheme → Text → Text
with_scheme no_scheme t = t
with_scheme (http s) t = codes "http" ++ optional s (codes "s") (codes "://" ++ t)

-- The forms of a url before its id; the first three have "www." or not.
pub data Form : Type 0 where
  watch short embed : Bool → Form
  youtu_be mobile : Form

abbrev pub with_form : Form → Text → Text
with_form (watch www) t = optional www (codes "www.") (codes "youtube.com/watch?v=" ++ t)
with_form (short www) t = optional www (codes "www.") (codes "youtube.com/shorts/" ++ t)
with_form (embed www) t = optional www (codes "www.") (codes "youtube.com/embed/" ++ t)
with_form youtu_be t = codes "youtu.be/" ++ t
with_form mobile t = codes "m.youtube.com/watch?v=" ++ t

take_while_stops :
    (p : ℕ → Bool) (xs rest : Text)
    → all_chars p xs ≡ true
    → (take_while p rest ≡ [])
    → take_while p (xs ++ rest) ≡ xs
take_while_stops p [] rest h k = k
take_while_stops p (x ∷ xs) rest h k = ground (arith, take_while_stops p xs rest)

or_some : (a b : Option Text) (x : Text) → a ≡ some x → or_option a b ≡ some x
or_some none b x e = absurd cc
or_some (some a) b x e = e

after-append : (m t : Text) → after m (m ++ t) ≡ some t
after-append [] t = refl
after-append (p ∷ m) t = ground (arith, after-append m t)

module _ (is_word : ℕ → Bool) (c : ℕ) (cs rest : Text)
    (h : all_chars (is_id_char is_word) (c ∷ cs) ≡ true) (k : id_start is_word rest ≡ false) where
  abbrev id_text : Text
  id_text = (c ∷ cs) ++ rest

  stops : (r : Text) → id_start is_word r ≡ false → take_while (is_id_char is_word) r ≡ []
  stops [] e = refl
  stops (d ∷ r) e = ground arith

  id_after_found : (m : Text) → id_after is_word m (m ++ id_text) ≡ some (c ∷ cs)
  unfolding id_after
  id_after_found m =
      rw (after-append m id_text, id_after)
        (rw (take_while_stops (is_id_char is_word) (c ∷ cs) rest h (stops rest k)) refl)

  -- The id behind each of the markers.
  found_v : extract_video_id is_word (codes "v=" ++ id_text) ≡ some (c ∷ cs)
  unfolding extract_video_id id_here id_after
  found_v = or_some _ _ _ (or_some _ _ _ (id_after_found (codes "v=")))

  found_shorts : extract_video_id is_word (codes "shorts/" ++ id_text) ≡ some (c ∷ cs)
  unfolding extract_video_id id_here id_after
  found_shorts = or_some _ _ _ (or_some _ _ _ (id_after_found (codes "shorts/")))

  found_embed : extract_video_id is_word (codes "embed/" ++ id_text) ≡ some (c ∷ cs)
  unfolding extract_video_id id_here id_after
  found_embed = or_some _ _ _ (or_some _ _ _ (id_after_found (codes "embed/")))

  found_youtu_be : extract_video_id is_word (codes "youtu.be/" ++ id_text) ≡ some (c ∷ cs)
  unfolding extract_video_id id_here id_after
  found_youtu_be = or_some _ _ _ (id_after_found (codes "youtu.be/"))

  form_found : (f : Form) → extract_video_id is_word (with_form f id_text) ≡ some (c ∷ cs)
  unfolding extract_video_id id_here id_after
  form_found (watch true) = found_v
  form_found (watch false) = found_v
  form_found (short true) = found_shorts
  form_found (short false) = found_shorts
  form_found (embed true) = found_embed
  form_found (embed false) = found_embed
  form_found youtu_be = found_youtu_be
  form_found mobile = found_v

  scheme_found :
      (s : Scheme) (t : Text)
      → extract_video_id is_word (with_scheme s t) ≡ extract_video_id is_word t
  unfolding extract_video_id id_here id_after
  scheme_found no_scheme t = refl
  scheme_found (http true) t = refl
  scheme_found (http false) t = refl

  module _ (same : ℕ → ℕ → Bool)
      (same_ascii : (d e : ℕ) → d < 128 → same d e ≡ (lower d == e)) where
    abbrev is_small : ℕ → Bool
    is_small d = ltb d 128 && lower d == d

    -- A text of the pattern that is written as it is.
    lit_same :
        (ps : Text) (next : Text → Bool) (t : Text)
        → all_chars is_small ps ≡ true
        → lit same ps next (ps ++ t) ≡ next t
    lit_same [] next t e = refl
    lit_same (p ∷ ps) next t e =
        rw (same_ascii p p (ground arith)) (ground (arith, lit_same ps next t))

    opt_same :
        (ps : Text) (next : Text → Bool) (t : Text) (b : Bool)
        → all_chars is_small ps ≡ true
        → next t ≡ true
        → opt same ps next (optional b ps t) ≡ true
    opt_same ps next t true e n = or_left _ _ (lit_same ps next t e ∙ n)
    opt_same ps next t false e n = or_right _ _ n

    marked :
        (ps : Text)
        → all_chars is_small ps ≡ true
        → lit same ps (id_start is_word) (ps ++ id_text) ≡ true
    marked ps e = lit_same ps (id_start is_word) id_text e ∙ ground arith

    www_marked :
        (www : Bool) (ps : Text)
        → all_chars is_small ps ≡ true
        → opt same
            (codes "www.")
            (lit same ps (id_start is_word))
            (optional www (codes "www.") (ps ++ id_text))
          ≡ true
    www_marked www ps e =
        opt_same (codes "www.") (lit same ps (id_start is_word)) (ps ++ id_text) www refl
          (marked ps e)

    form_accepted : (f : Form) → any_pattern same is_word (with_form f id_text) ≡ true
    unfolding any_pattern
    form_accepted (watch www) = or_left _ _ (
        or_left _ _
          (or_left _ _ (or_left _ _ (www_marked www (codes "youtube.com/watch?v=") refl))))
    form_accepted (short www) = or_left _ _ (
        or_left _ _
          (or_left _ _ (or_right _ _ (www_marked www (codes "youtube.com/shorts/") refl))))
    form_accepted (embed www) =
        or_left _ _ (or_left _ _ (or_right _ _ (www_marked www (codes "youtube.com/embed/") refl)))
    form_accepted youtu_be = or_left _ _ (or_right _ _ (marked (codes "youtu.be/") refl))
    form_accepted mobile = or_right _ _ (marked (codes "m.youtube.com/watch?v=") refl)

    scheme_accepted :
        (s : Scheme) (t : Text)
        → any_pattern same is_word t ≡ true
        → validate_url same is_word (with_scheme s t) ≡ true
    unfolding validate_url
    scheme_accepted no_scheme t e = or_right _ _ e
    scheme_accepted (http s) t e =
        let start = lit same (codes "://") (any_pattern same is_word) in
        let plain = codes "://" ++ t in
        or_left _ (any_pattern same is_word (with_scheme (http s) t)) (
          lit_same (codes "http") (opt same (codes "s") start) (optional s (codes "s") plain) refl
          ∙ opt_same (codes "s") start plain s refl
              (lit_same (codes "://") (any_pattern same is_word) t refl ∙ e))

    -- Every url of one of the forms, with or without a scheme and "www.", that is in small letters up
    -- to its id passes `validate_url`, and `extract_video_id` finds exactly its id: characters of
    -- `[\w-]`, at least one, up to the end or the first other character. re.IGNORECASE is to tell ASCII
    -- characters apart up to case.
    pub validate_url-extracts :
        (s : Scheme) (f : Form)
        → (validate_url same is_word (with_scheme s (with_form f id_text)) ≡ true)
          × (extract_video_id is_word (with_scheme s (with_form f id_text)) ≡ some (c ∷ cs))
    validate_url-extracts s f = (
      scheme_accepted s (with_form f id_text) (form_accepted f),
      scheme_found s (with_form f id_text) ∙ form_found f,
    )
