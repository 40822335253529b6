-- ===== src/Template.antt =====
-- app/core/template.py: `sanitize_filename`. A text is the list of its code points. The tables of
-- Unicode are parameters: `normalize` (NFKC), `upper` (str.upper) and `is_space` (what str.strip
-- removes).
pub mod Clean
pub mod Safe
pub mod Reserved
pub mod Length
pub mod Unique
pub mod Validate
pub mod Path
mod Tests
use yt_dlp_api.Prelude.{
  ℕ, suc, ◌+◌, ◌-◌, Bool, true, false, ◌&&◌, ◌||◌, not, Option, none, some, List, [], ◌∷◌, ◌++◌,
  map, ltb, leb, ◌==◌, if◌then◌else◌, length, take, filter, min,
}
use yt_dlp_api.Prelude.Chars.{Text, strip, text_in}

-- `<>:"/\|?*`
abbrev pub illegal_chars : Text
illegal_chars = 60 ∷ 62 ∷ 58 ∷ 34 ∷ 47 ∷ 92 ∷ 124 ∷ 63 ∷ 42 ∷ []

abbrev pub replace_char : ℕ → ℕ → ℕ
replace_char char c = if c == char then 95 else c

-- `for char in self.ILLEGAL_CHARS: filename = filename.replace(char, "_")`
unfoldable pub replace_all : Text → Text → Text
replace_all [] filename = filename
replace_all (char ∷ chars) filename = replace_all chars (map (replace_char char) filename)

abbrev pub is_dot : ℕ → Bool
is_dot c = c == 46

-- `filename.rsplit(".", 1)`: the parts around the last dot; none without a dot.
unfoldable pub rsplit : Text → Option (Text × Text)
rsplit [] = none
rsplit (c ∷ cs) = elim (rsplit cs) [
  | some (name, ext) ↦ some (c ∷ name, ext)
  | none ↦ if is_dot c then some ([], cs) else none
]

-- `filename.rsplit(".", 1)[0] if "." in filename else filename`
unfoldable pub name_without_ext : Text → Text
unfolding rsplit
name_without_ext filename = elim (rsplit filename) [ none ↦ filename | some (name, ext) ↦ name ]

-- The names of a device with the numbers 1 to 9.
abbrev pub device_names : ℕ → ℕ → ℕ → List Text
device_names a b c = map (λ n. a ∷ b ∷ c ∷ n ∷ []) (49 ∷ 50 ∷ 51 ∷ 52 ∷ 53 ∷ 54 ∷ 55 ∷ 56 ∷ 57 ∷ [])

-- CON, PRN, AUX, NUL, COM1 to COM9, LPT1 to LPT9
abbrev pub windows_reserved : List Text
windows_reserved =
    (67 ∷ 79 ∷ 78 ∷ [])
    ∷ (80 ∷ 82 ∷ 78 ∷ [])
    ∷ (65 ∷ 85 ∷ 88 ∷ [])
    ∷ (78 ∷ 85 ∷ 76 ∷ [])
    ∷ (device_names 67 79 77 ++ device_names 76 80 84)

abbrev pub max_filename_length : ℕ
max_filename_length = 200

-- "unnamed"
abbrev pub unnamed : Text
unnamed = 117 ∷ 110 ∷ 110 ∷ 97 ∷ 109 ∷ 101 ∷ 100 ∷ []

-- A text cut to the maximum length.
abbrev pub cut_to_max : Text → Text
cut_to_max t = if ltb max_filename_length (length t) then take max_filename_length t else t

-- `f"{name[:max_name_len]}.{ext}"`, with at least one character of the name
abbrev pub join_cut : Text → ℕ → Text → Text
join_cut name max_name_len ext =
    take (if ltb max_name_len 1 then 1 else max_name_len) name ++ 46 ∷ ext

-- The name and the extension, cut to the maximum length together. `max_name_len < 1` is tested
-- before the subtraction, which would be negative.
unfoldable pub cut_parts : Text → Text → Text
cut_parts name ext =
    if ltb (max_filename_length - 1) (length ext + 1)
    then (let max_ext_len = min (length ext) (max_filename_length - 2) in
        join_cut name (max_filename_length - max_ext_len - 1) (take max_ext_len ext))
    else join_cut name (max_filename_length - length ext - 1) ext

unfoldable pub truncate : Text → Text
unfolding cut_parts rsplit
truncate filename = elim (rsplit filename) [
  | none ↦ take max_filename_length filename
  | some (name, ext) ↦ cut_parts name ext
]

-- `if not filename or filename in (".", "..")`
unfoldable pub or_unnamed : Text → Text
or_unnamed filename =
    if text_in filename ([] ∷ (46 ∷ []) ∷ (46 ∷ 46 ∷ []) ∷ []) then unnamed else filename

module _ (normalize upper : Text → Text) (is_space : ℕ → Bool) where
  unfoldable pub is_reserved : Text → Bool
  unfolding name_without_ext
  is_reserved filename = text_in (upper (name_without_ext filename)) windows_reserved

  -- The text without control characters, null bytes, illegal characters, and blanks and dots at
  -- its ends.
  unfoldable pub clean_chars : Text → Text
  unfolding replace_all strip
  clean_chars filename =
      let printable = filter (λ c. leb 32 c) (normalize filename) in
      let without_null = filter (λ c. not (c == 0)) printable in
      strip is_dot (strip is_space (replace_all illegal_chars without_null))

  unfoldable pub guard_reserved : Text → Text
  unfolding is_reserved
  guard_reserved filename = if is_reserved filename then 95 ∷ filename else filename

  -- The second test for a reserved name, after a truncation.
  unfoldable pub guard_short : Text → Text
  unfolding is_reserved
  guard_short short = if is_reserved short then cut_to_max (95 ∷ short) else short

  unfoldable pub shorten : Text → Text
  unfolding truncate guard_short
  shorten filename =
      if ltb max_filename_length (length filename)
      then guard_short (truncate filename)
      else filename

  unfoldable pub sanitize_filename : Text → Text
  unfolding clean_chars guard_reserved shorten or_unnamed
  sanitize_filename [] = unnamed
  sanitize_filename (c ∷ cs) = or_unnamed (shorten (guard_reserved (clean_chars (c ∷ cs))))
