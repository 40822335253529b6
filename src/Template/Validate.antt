-- ===== src/Template/Validate.antt =====
-- `validate_template` of app/core/template.py; `is_space` and `is_alpha` are Unicode's tables.
pub mod Safe
use yt_dlp_api.Prelude.{
  ℕ, String, Bool, true, false, ◌&&◌, ◌||◌, List, [], ◌∷◌, ◌++◌, ◌≡◌, ◌≢◌, refl, sym, ap, ◌∙◌, inl,
  inr, arith, ◌==◌, if◌then◌else◌, Bool-cases,
}
use yt_dlp_api.Prelude.Chars.{Text, codes, strip, text_eq, starts_with, contains_text}

-- The processed path, or the message of an error.
pub data TemplateResult : Type 0 where
  valid_template : Text → TemplateResult
  invalid_template : String → TemplateResult

-- `any(re.search(pattern, template) for pattern in self.PATH_TRAVERSAL_PATTERNS)`, of a template
-- with no newline at its end
unfoldable pub has_traversal : Text → Bool
has_traversal t =
    contains_text (b'.' ∷ b'.' ∷ b'/' ∷ []) t
    || contains_text (b'.' ∷ b'.' ∷ b'\\' ∷ []) t
    || text_eq t (b'.' ∷ b'.' ∷ [])

-- An absolute path of Unix, or a drive.
unfoldable pub is_absolute : (ℕ → Bool) → Text → Bool
is_absolute is_alpha [] = false
is_absolute is_alpha (c ∷ []) = c == b'/'
is_absolute is_alpha (c ∷ d ∷ t) = c == b'/' || (d == b':' && is_alpha c)

-- What is checked of a template once it is stripped.
unfoldable pub check_template : (ℕ → Bool) → Text → TemplateResult
unfolding has_traversal is_absolute
check_template is_alpha t =
    if has_traversal t
    then invalid_template "Template contains path traversal sequences"
    else if is_absolute is_alpha t
    then invalid_template "Template cannot use absolute paths"
    else if contains_text (0 ∷ []) t
    then invalid_template "Template contains invalid characters"
    else valid_template t

unfoldable pub validate_template : (ℕ → Bool) → (ℕ → Bool) → Text → TemplateResult
unfolding check_template
validate_template is_space is_alpha [] =
    invalid_template "Template is required and must be a string"
validate_template is_space is_alpha (x ∷ xs) = elim (strip is_space (x ∷ xs)) [
  | [] ↦ invalid_template "Template cannot be empty"
  | c ∷ cs ↦ check_template is_alpha (c ∷ cs)
]
