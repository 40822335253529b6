-- ===== src/Startup/Search.antt =====
-- The search of `configure_ytdlp_runtime` (app/core/startup.py) in a configuration file: it passes
-- over lines without the option and finds one at the start of a line.
use yt_dlp_api.Prelude.{
  ℕ, ◌≡◌, refl, sym, ap, ◌∙◌, Bool, true, false, ◌&&◌, ◌||◌, none, some, [], ◌∷◌, ◌++◌, arith, ◌==◌,
  if◌then◌else◌, inl, inr, ==_iff, Bool-cases,
}
use yt_dlp_api.Prelude.Chars.{
  Text, codes, drop_while, take_while, starts_with, contains_text, all_chars,
}
use yt_dlp_api.Checks.{behind, is_solid}
use yt_dlp_api.Startup.Runtime.{
  runtimes_option, ends_with_newline, with_newline, spaced_word, or_later, search_runtimes,
}

pub append_assoc : (xs ys zs : Text) → (xs ++ ys) ++ zs ≡ xs ++ (ys ++ zs)
append_assoc [] ys zs = refl
append_assoc (x ∷ xs) ys zs = ap (λ t. x ∷ t) (append_assoc xs ys zs)

pub append_nil : (xs : Text) → xs ++ [] ≡ xs
append_nil [] = refl
append_nil (x ∷ xs) = ap (λ t. x ∷ t) (append_nil xs)

-- Whole lines, or nothing.
abbrev pub is_lines : Text → Bool
is_lines [] = true
is_lines (c ∷ t) = ends_with_newline (c ∷ t)

is_lines-newline : (t : Text) → is_lines (t ++ b'\n' ∷ []) ≡ true
is_lines-newline [] = refl
is_lines-newline (c ∷ []) = refl
is_lines-newline (c ∷ d ∷ t) = is_lines-newline (d ∷ t)

pub with_newline-lines : (t : Text) → is_lines (with_newline t) ≡ true
unfolding with_newline
with_newline-lines [] = refl
with_newline-lines (c ∷ t) = elim (Bool-cases (ends_with_newline (c ∷ t))) [
  | inl e ↦ rw (e, with_newline) e
  | inr e ↦ rw (e, with_newline) (is_lines-newline (c ∷ t))
]

-- A prefix without a newline does not begin in whole lines and end behind them.
no_newline : ℕ → Bool
no_newline c = if c == b'\n' then false else true

neither : (a b : Bool) → (a || b) ≡ false → (a ≡ false) × (b ≡ false)
neither a b h = (ground arith, ground arith)

each : (a b : Bool) → (a && b) ≡ true → (a ≡ true) × (b ≡ true)
each a b h = (ground arith, ground arith)

module _ (is_space : ℕ → Bool) where
  solid_space : (c : ℕ) → is_solid is_space c ≡ true → is_space c ≡ false
  solid_space c h = ground arith

  behind_lines :
      (p : Text) (c : ℕ) (t zs : Text)
      → all_chars no_newline p ≡ true
      → ends_with_newline (c ∷ t) ≡ true
      → starts_with p (c ∷ t) ≡ false
      → behind is_space p (c ∷ t ++ zs) ≡ none
  unfolding no_newline
  behind_lines [] c t zs n e h = absurd (cc)
  behind_lines (x ∷ p) c [] zs n e h = ground (arith, ==_iff c x, ==_iff c b'\n', ==_iff x b'\n')
  behind_lines (x ∷ p) c (d ∷ t) zs n e h = elim (Bool-cases (c == x)) [
    | inl g ↦ rw g (behind_lines p d t zs (ground arith) e (rw g at h))
    | inr g ↦ rw g refl
  ]

  option_clean : all_chars no_newline runtimes_option ≡ true
  unfolding no_newline
  option_clean = refl

  is_lines-tail : (c : ℕ) (t : Text) → is_lines (c ∷ t) ≡ true → is_lines t ≡ true
  is_lines-tail c [] h = refl
  is_lines-tail c (d ∷ t) h = h

  -- The search passes over whole lines without the option.
  pub search_runtimes-lines :
      (xs zs : Text)
      → is_lines xs ≡ true
      → contains_text runtimes_option xs ≡ false
      → search_runtimes is_space (xs ++ zs) ≡ search_runtimes is_space zs
  unfolding search_runtimes
  search_runtimes-lines [] zs l h = refl
  search_runtimes-lines (c ∷ t) zs l h =
      let (a, b) = neither (starts_with runtimes_option (c ∷ t)) _ h in
      ap (λ o. or_later is_space (spaced_word is_space o) (search_runtimes is_space (t ++ zs)))
        (behind_lines runtimes_option c t zs option_clean l a)
      ∙ search_runtimes-lines t zs (is_lines-tail c t l) b

  behind-append : (p t : Text) → behind is_space p (p ++ t) ≡ some t
  behind-append [] t = refl
  behind-append (x ∷ p) t = let e : (x == x) ≡ true = ground arith in rw e (behind-append p t)

  take_solid :
      (w t : Text)
      → all_chars (is_solid is_space) w ≡ true
      → is_space b'\n' ≡ true
      → take_while (is_solid is_space) (w ++ b'\n' ∷ t) ≡ w
  take_solid [] t a n = rw n refl
  take_solid (c ∷ w) t a n =
      let (first, later) = each (is_solid is_space c) _ a in
      rw first (ap (λ r. c ∷ r) (take_solid w t later n))

  drop_solid : (c : ℕ) (t : Text) → is_solid is_space c ≡ true → drop_while is_space (c ∷ t) ≡ c ∷ t
  drop_solid c t a = ground arith

  -- The option at the start of a text, with a value that a newline ends.
  option_word :
      (c : ℕ) (w t : Text)
      → is_space b' ' ≡ true
      → is_space b'\n' ≡ true
      → all_chars (is_solid is_space) (c ∷ w) ≡ true
      → spaced_word is_space (some (b' ' ∷ c ∷ w ++ b'\n' ∷ t)) ≡ some (c ∷ w)
  option_word c w t s n a =
      let (first, later) = each (is_solid is_space c) _ a in
      rw s (
        rw (drop_solid c (w ++ b'\n' ∷ t) first)
          (rw (solid_space c first) (ap (λ r. some (c ∷ r)) (take_solid w t later n))))

  option_tail : Text
  option_tail = codes "-js-runtimes"

  -- The option, a blank, its value, a newline and more.
  abbrev pub option_line : Text → Text → Text
  option_line w t = runtimes_option ++ b' ' ∷ w ++ b'\n' ∷ t

  pub search_runtimes-here :
      (c : ℕ) (w t : Text)
      → is_space b' ' ≡ true
      → is_space b'\n' ≡ true
      → all_chars (is_solid is_space) (c ∷ w) ≡ true
      → search_runtimes is_space (option_line (c ∷ w) t) ≡ some (c ∷ w)
  unfolding search_runtimes option_tail
  search_runtimes-here c w t s n a =
      let value = b' ' ∷ c ∷ w ++ b'\n' ∷ t in
      ap
        (λ o.
          or_later is_space (spaced_word is_space o)
            (search_runtimes is_space (option_tail ++ value)))
        (behind-append runtimes_option value)
      ∙ ap (λ o. or_later is_space o (search_runtimes is_space (option_tail ++ value)))
          (option_word c w t s n a)

  pub with_newline-more : (t : Text) → (u : Text) × (with_newline t ≡ t ++ u)
  unfolding with_newline
  with_newline-more [] = ([], refl)
  with_newline-more (c ∷ t) = elim (Bool-cases (ends_with_newline (c ∷ t))) [
    | inl e ↦ ([], rw (e, with_newline) (sym (append_nil (c ∷ t))))
    | inr e ↦ (b'\n' ∷ [], rw (e, with_newline) refl)
  ]

  -- A last newline does not complete the option.
  starts_with-newline :
      (p t : Text)
      → all_chars no_newline p ≡ true
      → starts_with p t ≡ false
      → starts_with p (t ++ b'\n' ∷ []) ≡ false
  unfolding no_newline
  starts_with-newline [] t n h = absurd (cc)
  starts_with-newline (x ∷ p) [] n h = ground (arith, ==_iff b'\n' x, ==_iff x b'\n')
  starts_with-newline (x ∷ p) (c ∷ t) n h = elim (Bool-cases (c == x)) [
    | inl g ↦ rw g (starts_with-newline p t (ground arith) (rw g at h))
    | inr g ↦ rw g refl
  ]

  contains-newline :
      (p t : Text)
      → all_chars no_newline p ≡ true
      → contains_text p t ≡ false
      → contains_text p (t ++ b'\n' ∷ []) ≡ false
  contains-newline p [] n h = let first = starts_with-newline p [] n h in ground (arith, first)
  contains-newline p (c ∷ t) n h =
      let (first, later) = neither (starts_with p (c ∷ t)) _ h in
      let a = starts_with-newline p (c ∷ t) n first in
      let b = contains-newline p t n later in ground (arith, a, b)

  pub with_newline-absent :
      (t : Text)
      → contains_text runtimes_option t ≡ false
      → contains_text runtimes_option (with_newline t) ≡ false
  unfolding with_newline
  with_newline-absent [] h = h
  with_newline-absent (c ∷ t) h = elim (Bool-cases (ends_with_newline (c ∷ t))) [
    | inl e ↦ rw (e, with_newline) h
    | inr e ↦ rw (e, with_newline) (contains-newline runtimes_option (c ∷ t) option_clean h)
  ]

  behind_absent : (p t : Text) → starts_with p t ≡ false → behind is_space p t ≡ none
  behind_absent [] t h = absurd (cc)
  behind_absent (x ∷ p) [] h = refl
  behind_absent (x ∷ p) (c ∷ t) h = elim (Bool-cases (c == x)) [
    | inl g ↦ rw g (behind_absent p t (rw g at h))
    | inr g ↦ rw g refl
  ]

  pub search_runtimes_absent :
      (t : Text) → contains_text runtimes_option t ≡ false → search_runtimes is_space t ≡ none
  unfolding search_runtimes
  search_runtimes_absent [] h = refl
  search_runtimes_absent (c ∷ t) h =
      let (first, later) = neither (starts_with runtimes_option (c ∷ t)) _ h in
      ap (λ o. or_later is_space (spaced_word is_space o) (search_runtimes is_space t))
        (behind_absent runtimes_option (c ∷ t) first)
      ∙ search_runtimes_absent t later
