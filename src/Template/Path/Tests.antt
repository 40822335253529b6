-- ===== src/Template/Path/Tests.antt =====
-- A run of `build_output_path` of app/core/template.py, and the theorem at this input.
use yt_dlp_api.Prelude.{ℕ, Bool, true, false, some, [], ◌∷◌, ◌++◌, ◌≡◌, refl, ◌==◌}
use yt_dlp_api.Prelude.Chars.{Text, codes, text_eq, strip, split, digits, digits_fuel}
use yt_dlp_api.Template.{sanitize_filename, rsplit, is_reserved}
use yt_dlp_api.Template.Unique.{get_unique_filename, find_unique, name_and_ext, suffixed}
use yt_dlp_api.Template.Validate.{
  valid_template, validate_template, check_template, has_traversal, is_absolute,
}
use yt_dlp_api.Template.Path.{
  Paths, Substituted, formatted, build_output_path, validate_output_path, is_relative_to,
}
use yt_dlp_api.Template.Path.Within.{IsWithin, build_output_path-IsWithin}

abbrev same : Text → Text
same t = t

abbrev is_blank : ℕ → Bool
is_blank c = c == b' '

abbrev no_letter : ℕ → Bool
no_letter c = false

-- The directory holds "a.mp4".
abbrev holding : Paths
holding = record {
  resolve = λ t. some (split b'/' t);
  str_path = λ parts. [];
  join = λ dir name. dir ++ b'/' ∷ name;
  exists = text_eq (codes "a.mp4");
}

abbrev plain : Text → Substituted
plain t = formatted t

second_name :
    build_output_path same same is_blank no_letter holding
      (codes "/d")
      plain
      (some (codes "a.mp4"))
      true
    ≡ valid_template (codes "/d/a_1.mp4")
unfolding build_output_path validate_output_path is_relative_to validate_template check_template
    has_traversal is_absolute strip split sanitize_filename get_unique_filename find_unique
    name_and_ext suffixed rsplit digits digits_fuel is_reserved
second_name = refl

build_output_path-IsWithin_example :
    IsWithin same same is_blank no_letter holding
      (codes "/d")
      (codes "a.mp4")
      true
      (codes "/d/a_1.mp4")
build_output_path-IsWithin_example =
    build_output_path-IsWithin same same is_blank no_letter holding (codes "/d") plain
      (some (codes "a.mp4")) true (codes "/d/a_1.mp4") second_name
