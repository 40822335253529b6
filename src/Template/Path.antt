-- ===== src/Template/Path.antt =====
-- `validate_output_path`, `process_template` and `build_output_path` of app/core/template.py. The
-- paths of the file system and Python's `%` are parameters.
pub mod Within
mod Tests
use yt_dlp_api.Prelude.{
  ℕ, String, Bool, true, false, ◌&&◌, Option, none, some, List, [], ◌∷◌, ◌++◌, if◌then◌else◌,
}
use yt_dlp_api.Prelude.Chars.{Text, codes, text_eq}
use yt_dlp_api.Prelude.Text.{concat, decimal}
use yt_dlp_api.Template.{sanitize_filename}
use yt_dlp_api.Template.Unique.{
  Unique, unique, too_many, out_of_fuel, get_unique_filename, suffix_limit,
}
use yt_dlp_api.Template.Validate.{
  TemplateResult, valid_template, invalid_template, validate_template,
}

-- `template % variables`: a text, or the message of a KeyError, a ValueError or a TypeError.
pub data Substituted : Type 0 where
  formatted : Text → Substituted
  key_missing bad_format bad_type : String → Substituted

-- Paths: `resolve` gives the parts of a resolved path, or none for the errors that are caught;
-- `str_path` is the text of these parts, `join` that of a name below a directory, and `exists` tells
-- which names the output directory holds.
pub record Paths : Type 0 where
  pub resolve : Text → Option (List Text)
  pub str_path : List Text → Text
  pub join : Text → Text → Text
  pub exists : Text → Bool

-- `resolved_path.relative_to(output_dir)` does not raise.
unfoldable pub is_relative_to : List Text → List Text → Bool
is_relative_to parts [] = true
is_relative_to [] (d ∷ ds) = false
is_relative_to (p ∷ parts) (d ∷ ds) = text_eq p d && is_relative_to parts ds

abbrev pub outside_message : String
outside_message = "Output path must be within the configured output directory"

abbrev pub resolved_within : Paths → Option (List Text) → Option (List Text) → TemplateResult
resolved_within fs none output_dir = invalid_template "Invalid path format"
resolved_within fs (some parts) none = invalid_template "Invalid path format"
resolved_within fs (some parts) (some dir) =
    if is_relative_to parts dir
    then valid_template (fs.str_path parts)
    else invalid_template outside_message

unfoldable pub validate_output_path : Paths → Text → Text → TemplateResult
unfolding is_relative_to
validate_output_path fs output_dir [] = invalid_template "Path is required"
validate_output_path fs output_dir (c ∷ cs) =
    resolved_within fs (fs.resolve (c ∷ cs)) (fs.resolve output_dir)

-- `template or DEFAULT_TEMPLATE`
abbrev pub or_default : Option Text → Text
or_default none = codes "%(title)s-%(id)s.%(ext)s"
or_default (some []) = codes "%(title)s-%(id)s.%(ext)s"
or_default (some (c ∷ cs)) = c ∷ cs

module _ (normalize upper : Text → Text) (is_space is_alpha : ℕ → Bool) where
  abbrev pub sanitized : Substituted → TemplateResult
  sanitized (formatted t) = valid_template (sanitize_filename normalize upper is_space t)
  sanitized (key_missing e) = invalid_template (concat "Missing template variable: " e)
  sanitized (bad_format e) = invalid_template (concat "Invalid template format: " e)
  sanitized (bad_type e) = invalid_template (concat "Type mismatch in template variable: " e)

  abbrev pub processed : Substituted → TemplateResult → TemplateResult
  processed s (invalid_template e) = invalid_template e
  processed s (valid_template t) = sanitized s

  -- The text that is substituted in is the template as it was given.
  unfoldable pub process_template : (Text → Substituted) → Text → TemplateResult
  process_template substitute template =
      processed (substitute template) (validate_template is_space is_alpha template)

  abbrev pub checked_path : Paths → Text → Text → TemplateResult → TemplateResult
  checked_path fs output_dir full_path (invalid_template e) = invalid_template e
  checked_path fs output_dir full_path (valid_template t) = valid_template full_path

  abbrev pub path_of : Paths → Text → Text → TemplateResult
  path_of fs output_dir filename =
      let full_path = fs.join output_dir filename in
      checked_path fs output_dir full_path (validate_output_path fs output_dir full_path)

  abbrev pub path_of_unique : Paths → Text → Unique → TemplateResult
  path_of_unique fs output_dir (unique filename) = path_of fs output_dir filename
  path_of_unique fs output_dir (too_many n) =
      invalid_template
        (concat (concat "Could not generate unique filename after " (decimal n)) " attempts")
  path_of_unique fs output_dir out_of_fuel = invalid_template ""

  abbrev pub path_from : Paths → Text → Bool → TemplateResult → TemplateResult
  path_from fs output_dir ensure_unique (invalid_template e) = invalid_template e
  path_from fs output_dir ensure_unique (valid_template filename) =
      if ensure_unique
      then path_of_unique fs output_dir (get_unique_filename fs.exists suffix_limit filename)
      else path_of fs output_dir filename

  unfoldable pub build_output_path :
      Paths → Text → (Text → Substituted) → Option Text → Bool → TemplateResult
  unfolding process_template validate_output_path
  build_output_path fs output_dir substitute template ensure_unique =
      path_from fs output_dir ensure_unique (process_template substitute (or_default template))
