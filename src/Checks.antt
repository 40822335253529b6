-- ===== src/Checks.antt =====
-- app/core/checks.py: whether the programs that the service needs are there. What a process does is
-- a parameter, `Process`; texts are code points, and `is_space` and `digit_value` are Unicode's
-- tables of blanks and of decimal digits. `details`, which stays empty, is left out.

use yt_dlp_api.Prelude.{
  ℕ, zero, suc, ◌+◌, ◌*◌, String, Bool, true, false, Option, none, some, List, [], ◌∷◌, ◌++◌, leb,
  ◌==◌, if◌then◌else◌,
}
use yt_dlp_api.Prelude.Chars.{Text, codes, strip, split, drop_while, take_while, digits}
use yt_dlp_api.Prelude.Int.{ℤ, pos, negsuc, sub_ℕ}
use yt_dlp_api.Prelude.Result.{Result, ok, err}

pub record CheckResult : Type 0 where
  pub name : String
  pub available : Bool
  pub version : Option Text
  pub error : Option Text

-- What comes of the process: it ends with a return code and an output, as text or with the message
-- of the error of its decoding; the time is up; there is no such program; or another exception.
pub data Process : Type 0 where
  exits : ℤ → Result Text Text → Process
  times_out not_found : Process
  fails : Text → Process

-- What `parse_output` returns: success, version and error message.
abbrev pub Parsed : Type 0
Parsed = Bool × Option Text × Option Text

abbrev pub parsed_result : String → Parsed → CheckResult
parsed_result name (true, version, error) = record {
  name = name;
  available = true;
  version = version;
  error = none;
}
parsed_result name (false, version, error) = record {
  name = name;
  available = false;
  version = version;
  error = error;
}

abbrev pub unavailable : String → Text → CheckResult
unavailable name error = record {
  name = name;
  available = false;
  version = none;
  error = some error;
}

abbrev pub is_zero : ℤ → Bool
is_zero (pos zero) = true
is_zero (pos (suc n)) = false
is_zero (negsuc n) = false

-- What a process that process_ended comes to; its output is decoded only where the return code is zero.
abbrev pub process_ended : String → Text → (Text → Parsed) → Bool → Result Text Text → CheckResult
process_ended name command parse_output false stdout =
    unavailable name (command ++ codes " returned non-zero exit code")
process_ended name command parse_output true (err e) = unavailable name e
process_ended name command parse_output true (ok stdout) = parsed_result name (parse_output stdout)

-- The result, and whether the process is killed. `command` is the first word of the command line.
unfoldable pub run_binary_check : String → Text → (Text → Parsed) → Process → CheckResult × Bool
run_binary_check name command parse_output (exits returncode stdout) =
    (process_ended name command parse_output (is_zero returncode) stdout, false)
run_binary_check name command parse_output times_out =
    (unavailable name (command ++ codes " check timed out"), true)
run_binary_check name command parse_output not_found =
    (unavailable name (command ++ codes " not found"), false)
run_binary_check name command parse_output (fails e) = (unavailable name e, false)

module _ (is_space : ℕ → Bool) where
  abbrev pub is_solid : ℕ → Bool
  is_solid c = if is_space c then false else true

  -- The text behind a prefix.
  abbrev pub behind : Text → Text → Option Text
  behind [] t = some t
  behind (p ∷ ps) [] = none
  behind (p ∷ ps) (c ∷ t) = if c == p then behind ps t else none

  -- `(\S+)`: the longest word at the start, of one character at least
  abbrev pub word : Option Text → Option Text
  word none = none
  word (some []) = none
  word (some (c ∷ t)) = if is_space c then none else some (take_while is_solid (c ∷ t))

  -- `re.search(r"ffmpeg version (\S+)", output)`: the group of the first match
  unfoldable pub search_version : Text → Option Text
  search_version [] = none
  search_version (c ∷ t) =
      let later = search_version t in
      elim (word (behind (codes "ffmpeg version ") (c ∷ t))) [ some w ↦ some w | none ↦ later ]

  abbrev pub or_unknown : Option Text → Text
  or_unknown none = codes "unknown"
  or_unknown (some w) = w

  unfoldable pub parse_ytdlp_version : Text → Parsed
  parse_ytdlp_version stdout = (true, some (strip is_space stdout), none)

  unfoldable pub parse_ffmpeg_version : Text → Parsed
  unfolding search_version
  parse_ffmpeg_version stdout = (true, some (or_unknown (search_version stdout)), none)

  unfoldable pub check_ytdlp : Process → CheckResult × Bool
  unfolding run_binary_check parse_ytdlp_version
  check_ytdlp process = run_binary_check "ytdlp" (codes "yt-dlp") parse_ytdlp_version process

  unfoldable pub check_ffmpeg : Process → CheckResult × Bool
  unfolding run_binary_check parse_ffmpeg_version
  check_ffmpeg process = run_binary_check "ffmpeg" (codes "ffmpeg") parse_ffmpeg_version process

module _ (digit_value : ℕ → Option ℕ) where
  -- The digits of `int(t)`, with single underscores between them; `after_digit` tells whether the
  -- last character was one. Texts of more than 4300 digits are not considered.
  abbrev pub int_digits : Bool → ℕ → Text → Option ℕ
  int_digits after_digit n [] = if after_digit then some n else none
  int_digits after_digit n (c ∷ t) =
      let later = int_digits false n t in
      if c == b'_'
      then (if after_digit then later else none)
      else elim (digit_value c) [ none ↦ none | some d ↦ int_digits true (n * 10 + d) t ]

  abbrev pub negated : Option ℕ → Option ℤ
  negated none = none
  negated (some n) = some (sub_ℕ 0 n)

  abbrev pub as_int : Option ℕ → Option ℤ
  as_int none = none
  as_int (some n) = some (pos n)

  -- A sign and digits.
  abbrev pub int_signed : Text → Option ℤ
  int_signed [] = none
  int_signed (c ∷ t) =
      if c == b'-'
      then negated (int_digits false 0 t)
      else if c == b'+'
      then as_int (int_digits false 0 t)
      else as_int (int_digits false 0 (c ∷ t))

  abbrev pub at_least : ℕ → ℤ → Bool
  at_least n (pos m) = leb n m
  at_least n (negsuc m) = false

  -- The first part; `split` gives one at least.
  abbrev pub first_part : List Text → Text
  first_part [] = []
  first_part (t ∷ ts) = t

  module _ (is_space : ℕ → Bool) where
    -- `int(version.lstrip("v").split(".")[0])`; none: a ValueError
    unfoldable pub major_version : Text → Option ℤ
    major_version version =
        int_signed (strip is_space (first_part (split b'.' (drop_while (λ c. c == b'v') version))))

    abbrev pub node_parsed : ℕ → Text → Option ℤ → Parsed
    node_parsed min_version version none =
        (false, some version, some (codes "Unable to parse Node.js version: " ++ version))
    node_parsed min_version version (some major) =
        if at_least min_version major then (true, some version, none) else (
          false,
          some version,
          some (codes "Node.js >= " ++ digits min_version ++ codes " required, found " ++ version),
        )

    unfoldable pub parse_node_version : ℕ → Text → Parsed
    unfolding major_version
    parse_node_version min_version stdout =
        node_parsed min_version (strip is_space stdout) (major_version (strip is_space stdout))

    unfoldable pub check_nodejs : ℕ → Process → CheckResult × Bool
    unfolding run_binary_check parse_node_version
    check_nodejs min_version process =
        run_binary_check "nodejs" (codes "node") (parse_node_version min_version) process
