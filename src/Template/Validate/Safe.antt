-- ===== src/Template/Validate/Safe.antt =====
-- `validate_template` of app/core/template.py: the templates that it takes.
use yt_dlp_api.Prelude.{
  ℕ, Bool, true, false, [], ◌∷◌, ◌++◌, ◌≡◌, ◌≢◌, refl, sym, ap, ◌∙◌, subst, arith,
}
use yt_dlp_api.Prelude.Chars.{Text, strip, text_eq, starts_with, contains_text}
use yt_dlp_api.Template.Validate.{
  TemplateResult, valid_template, invalid_template, has_traversal, is_absolute, check_template,
  validate_template,
}

-- A template that stays below the directory where it is used, as far as its text tells.
pub record IsSafe (t : Text) : Type 0 where
  pub not_empty : t ≢ []
  pub no_parent : (before after : Text) → t ≢ before ++ b'.' ∷ b'.' ∷ b'/' ∷ after
  pub no_windows_parent : (before after : Text) → t ≢ before ++ b'.' ∷ b'.' ∷ b'\\' ∷ after
  pub not_parent : t ≢ b'.' ∷ b'.' ∷ []
  pub not_absolute : (after : Text) → t ≢ b'/' ∷ after
  pub no_null : (before after : Text) → t ≢ before ++ 0 ∷ after

starts_same : (p t : Text) → starts_with p (p ++ t) ≡ true
starts_same [] t = refl
starts_same (c ∷ p) t = ground (arith, starts_same p t)

contains_inside : (p before after : Text) → contains_text p (before ++ (p ++ after)) ≡ true
contains_inside [] [] [] = refl
contains_inside [] [] (c ∷ t) = refl
contains_inside (c ∷ p) [] after = rw (starts_same (c ∷ p) after) refl
contains_inside p (c ∷ before) after = rw (contains_inside p before after) (ground arith)

check_template_valid :
    (is_alpha : ℕ → Bool) (t u : Text)
    → check_template is_alpha t ≡ valid_template u
    → (u ≡ t)
      × (has_traversal t ≡ false)
      × (is_absolute is_alpha t ≡ false)
      × (contains_text (0 ∷ []) t ≡ false)
unfolding check_template
check_template_valid is_alpha t u h = ground arith

absolute_slash : (is_alpha : ℕ → Bool) (t : Text) → is_absolute is_alpha (b'/' ∷ t) ≡ true
unfolding is_absolute
absolute_slash is_alpha [] = refl
absolute_slash is_alpha (c ∷ t) = refl

no_part :
    (p t : Text) → contains_text p t ≡ false → (before after : Text) → t ≢ before ++ (p ++ after)
no_part p t h before after e =
    let k = sym h ∙ (ap (contains_text p) e ∙ contains_inside p before after) in cc

no_traversal :
    (t : Text)
    → has_traversal t ≡ false
    → (contains_text (b'.' ∷ b'.' ∷ b'/' ∷ []) t ≡ false)
      × (contains_text (b'.' ∷ b'.' ∷ b'\\' ∷ []) t ≡ false)
      × (text_eq t (b'.' ∷ b'.' ∷ []) ≡ false)
unfolding has_traversal
no_traversal t h = ground arith

check_template-IsSafe :
    (is_alpha : ℕ → Bool) (t : Text)
    → t ≢ []
    → has_traversal t ≡ false
    → is_absolute is_alpha t ≡ false
    → contains_text (0 ∷ []) t ≡ false
    → IsSafe t
check_template-IsSafe is_alpha t k v a n =
    let parts = no_traversal t v in
    record {
      not_empty = k;
      no_parent = no_part (b'.' ∷ b'.' ∷ b'/' ∷ []) t parts.0;
      no_windows_parent = no_part (b'.' ∷ b'.' ∷ b'\\' ∷ []) t parts.1;
      not_parent = λ e. (let q = sym parts.2 ∙ ap (λ s. text_eq s (b'.' ∷ b'.' ∷ [])) e in cc);
      not_absolute =
          λ u e. (let q = sym a ∙ (ap (is_absolute is_alpha) e ∙ absolute_slash is_alpha u) in cc);
      no_null = no_part (0 ∷ []) t n;
    }

checked-IsSafe :
    (is_alpha : ℕ → Bool) (t u : Text)
    → t ≢ []
    → check_template is_alpha t ≡ valid_template u
    → (u ≡ t) × IsSafe u
checked-IsSafe is_alpha t u k h =
    let facts = check_template_valid is_alpha t u h in
    (
      facts.0,
      subst IsSafe (sym facts.0) (check_template-IsSafe is_alpha t k facts.1 facts.2 facts.3),
    )

stripped-IsSafe :
    (is_alpha : ℕ → Bool) (t u : Text)
    → (elim t as (λ x. TemplateResult) [
      | [] ↦ invalid_template "Template cannot be empty"
      | c ∷ cs ↦ check_template is_alpha (c ∷ cs)
    ])
      ≡ valid_template u
    → (u ≡ t) × IsSafe u
stripped-IsSafe is_alpha [] u h = absurd cc
stripped-IsSafe is_alpha (c ∷ cs) u h = checked-IsSafe is_alpha (c ∷ cs) u (λ e. cc) h

-- A template that is valid is taken without the blanks around it, and is then not empty, nor "..",
-- nor does it hold "../", "..\" or a null byte, or begin with a slash.
pub validate_template-IsSafe :
    (is_space is_alpha : ℕ → Bool) (t u : Text)
    → validate_template is_space is_alpha t ≡ valid_template u
    → (u ≡ strip is_space t) × IsSafe u
unfolding validate_template
validate_template-IsSafe is_space is_alpha [] u h = absurd cc
validate_template-IsSafe is_space is_alpha (x ∷ xs) u h =
    stripped-IsSafe is_alpha (strip is_space (x ∷ xs)) u h
