-- ===== src/Template/Unique.antt =====
-- `get_unique_filename` of app/core/template.py. `exists` tells which names the directory holds.
pub mod Total
use yt_dlp_api.Prelude.{
  ℕ, zero, suc, Bool, true, false, Option, none, some, List, [], ◌∷◌, ◌++◌, ltb, if◌then◌else◌,
}
use yt_dlp_api.Prelude.Chars.{Text, codes, digits}
use yt_dlp_api.Template.{rsplit}

-- A name, or the ValueError with its number of attempts; `out_of_fuel` stands for a loop that does
-- not end.
pub data Unique : Type 0 where
  unique : Text → Unique
  too_many : ℕ → Unique
  out_of_fuel : Unique

-- `filename or "unnamed"`
abbrev pub or_unnamed_file : Text → Text
or_unnamed_file [] = codes "unnamed"
or_unnamed_file (c ∷ cs) = c ∷ cs

-- The name and the extension, with its dot.
unfoldable pub name_and_ext : Text → Text × Text
name_and_ext filename = elim (rsplit filename) [
  | none ↦ (filename, [])
  | some (name, ext) ↦ (name, b'.' ∷ ext)
]

-- `f"{name}_{counter}{ext}"`
unfoldable pub suffixed : Text × Text → ℕ → Text
suffixed parts counter = parts.0 ++ b'_' ∷ (digits counter ++ parts.1)

module _ (exists : Text → Bool) where
  -- The loop, with the safety limit.
  unfoldable pub find_unique : ℕ → Text × Text → ℕ → ℕ → Unique
  unfolding suffixed
  find_unique limit parts zero counter = out_of_fuel
  find_unique limit parts (suc fuel) counter =
      let next = find_unique limit parts fuel (suc counter) in
      if exists (suffixed parts counter)
      then (if ltb limit (suc counter) then too_many (suc counter) else next)
      else unique (suffixed parts counter)

  unfoldable pub get_unique_filename : ℕ → Text → Unique
  unfolding find_unique name_and_ext
  get_unique_filename limit filename =
      let file = or_unnamed_file filename in
      if exists file then find_unique limit (name_and_ext file) limit 1 else unique file

-- The limit of the code.
abbrev pub suffix_limit : ℕ
suffix_limit = 10000
