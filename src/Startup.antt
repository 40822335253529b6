-- ===== src/Startup.antt =====
-- app/core/startup.py: the validation of the components before the service starts. What the
-- programs, the file system and the environment answer is a parameter, `World`; texts are code
-- points, and `lower` and the three tables are Unicode's.
pub mod Validate
pub mod Runtime
pub mod Usable
pub mod Decided
pub mod Exact
pub mod Search
pub mod Restarts
pub mod Grows
mod Tests
use yt_dlp_api.Prelude.{
  ℕ, String, Bool, true, false, ◌&&◌, ◌||◌, not, Option, none, some, List, [], ◌∷◌, ◌++◌, ltb, ◌==◌,
  if◌then◌else◌, length, filter, member, str_eq,
}
use yt_dlp_api.Prelude.Chars.{Text, codes, text_in, strip, split, digits, starts_with}
use yt_dlp_api.Prelude.Result.{Result, ok, err}
use yt_dlp_api.Checks.{CheckResult, Process, check_ytdlp, check_ffmpeg, check_nodejs}

-- The values of `details`.
pub data Detail : Type 0 where
  text_detail : Text → Detail
  count_detail : ℕ → Detail

pub record ComponentCheckResult : Type 0 where
  pub name : String
  pub passed : Bool
  pub critical : Bool
  pub version : Option Text
  pub message : Text
  pub details : List (String × Detail)

pub record StartupResult : Type 0 where
  pub success : Bool
  pub degraded_mode : Bool
  pub checks : List ComponentCheckResult
  pub disabled_providers : List String
  pub errors : List Text
  pub warnings : List Text

-- What `test_file.touch()` and `unlink` come to.
pub data Written : Type 0 where
  written denied : Written
  os_error : Text → Written

-- What reading the cookie file comes to.
pub data Read : Type 0 where
  content : Text → Read
  unreadable : Read
  read_error : Text → Read

-- The output directory: whether it exists, the OSError of making it, if any, and the write test.
pub record Directory : Type 0 where
  pub exists : Result Text Bool
  pub mkdir : Option Text
  pub test_write : Written

pub record World : Type 0 where
  pub testing_variable : Text
  pub ytdlp : Process
  pub ffmpeg : Process
  pub nodejs : Process
  pub output : Directory
  pub cookie_exists : Result Text Bool
  pub cookie_text : Read

-- What is read of the configuration.
pub record Settings : Type 0 where
  pub allow_degraded_start : Bool
  pub output_dir : Text
  pub youtube_enabled : Bool
  pub cookie_path : Option Text

-- The validator's lists, and whether it made the output directory.
pub record Validator : Type 0 where
  pub results : List ComponentCheckResult
  pub disabled : List String
  pub failures : List Text
  pub cautions : List Text
  pub made_directory : Bool

abbrev pub min_nodejs_version : ℕ
min_nodejs_version = 20

-- The reset at the start of a validation.
abbrev pub reset : Validator → Validator
reset v = record v { results = []; disabled = []; failures = []; cautions = [] }

abbrev pub passes : String → Bool → Option Text → Text → ComponentCheckResult
passes name critical version message = record {
  name = name;
  passed = true;
  critical = critical;
  version = version;
  message = message;
  details = [];
}

abbrev pub fails : String → Bool → Text → ComponentCheckResult
fails name critical message = record {
  name = name;
  passed = false;
  critical = critical;
  version = none;
  message = message;
  details = [];
}

-- `result.error or default`
abbrev pub text_or : Option Text → Text → Text
text_or none default = default
text_or (some []) default = default
text_or (some (c ∷ cs)) default = c ∷ cs

-- `check_ytdlp`, `check_ffmpeg` and `check_nodejs` differ in their texts alone.
abbrev pub program_check : String → Text → Text → CheckResult → ComponentCheckResult
program_check name available missing result =
    if result.available
    then passes name true result.version available
    else fails name true (text_or result.error missing)

abbrev pub storage_passes : Text → ComponentCheckResult
storage_passes output_dir =
    record (passes "storage" true none (codes "Storage is available and writable")) {
      details = ("output_dir", text_detail output_dir) ∷ [];
    }

abbrev pub write_tested : Text → Written → ComponentCheckResult
write_tested output_dir written = storage_passes output_dir
write_tested output_dir denied =
    fails "storage" true (codes "Cannot write to output directory: " ++ output_dir)
write_tested output_dir (os_error e) = fails "storage" true (codes "Storage check failed: " ++ e)

abbrev pub directory_made : Text → Written → Option Text → ComponentCheckResult × Bool
directory_made output_dir test (some e) =
    (fails "storage" true (codes "Storage check failed: " ++ e), false)
directory_made output_dir test none = (write_tested output_dir test, true)

abbrev pub directory_found : Text → Directory → Result Text Bool → ComponentCheckResult × Bool
directory_found output_dir d (err e) =
    (fails "storage" true (codes "Storage check failed: " ++ e), false)
directory_found output_dir d (ok true) = (write_tested output_dir d.test_write, false)
directory_found output_dir d (ok false) = directory_made output_dir d.test_write d.mkdir

-- The result, and whether the directory is made.
unfoldable pub check_storage : World → Settings → ComponentCheckResult × Bool
check_storage w c = directory_found c.output_dir w.output w.output.exists

abbrev pub add_result : Validator → ComponentCheckResult → Validator
add_result v r = record v { results = v.results ++ r ∷ [] }

module _ (lower : Text → Text) (is_space : ℕ → Bool) (digit_value : ℕ → Option ℕ) where
  unfoldable pub is_test_mode : World → Bool
  is_test_mode w = text_in (lower w.testing_variable) (codes "true" ∷ codes "1" ∷ codes "yes" ∷ [])

  abbrev pub critical_components : World → List String
  critical_components w = if is_test_mode w then "storage" ∷ [] else "ytdlp" ∷ "storage" ∷ []

  -- `_cookie_failure`, for the provider "youtube".
  unfoldable pub cookie_failure :
      World → Settings → Validator → Text → Validator × ComponentCheckResult
  cookie_failure w c v message =
      if c.allow_degraded_start
      then (
        (if is_test_mode w then v else record v { disabled = v.disabled ++ "youtube" ∷ [] }),
        fails "cookies" false message,
      )
      else (v, fails "cookies" true message)

  -- None where the file is accessible.
  abbrev pub cookie_accessed :
      World
      → Settings
      → Validator
      → Text
      → Result Text Bool
      → Option (Validator × ComponentCheckResult)
  cookie_accessed w c v path (err e) = some (
      cookie_failure w c v
        (codes "Cannot access cookie file: " ++ path ++ codes " (" ++ e ++ codes ")"))
  cookie_accessed w c v path (ok true) = none
  cookie_accessed w c v path (ok false) =
      some (cookie_failure w c v (codes "Cookie file not found: " ++ path))

  unfoldable pub check_cookie_access :
      World → Settings → Validator → Text → Option (Validator × ComponentCheckResult)
  unfolding cookie_failure
  check_cookie_access w c v path = cookie_accessed w c v path w.cookie_exists

  -- `ln.strip() and not ln.startswith("#")`
  abbrev pub is_entry_line : Text → Bool
  is_entry_line line = ltb 0 (length (strip is_space line)) && not (starts_with (codes "#") line)

  abbrev pub has_seven_fields : Text → Bool
  has_seven_fields line = length (split b'\t' line) == 7

  unfoldable pub seven_field_lines : Text → ℕ
  seven_field_lines t =
      length (filter has_seven_fields (filter is_entry_line (split b'\n' (strip is_space t))))

  abbrev pub cookie_passes : Text → ℕ → ComponentCheckResult
  cookie_passes path n = record (passes "cookies" false none (codes "Cookie file is valid")) {
    details = ("path", text_detail path) ∷ ("valid_entries", count_detail n) ∷ [];
  }

  abbrev pub cookie_read :
      World → Settings → Validator → Text → Read → Validator × ComponentCheckResult
  cookie_read w c v path unreadable =
      cookie_failure w c v (codes "Cannot read cookie file: " ++ path)
  cookie_read w c v path (read_error e) =
      cookie_failure w c v (codes "Error reading cookie file: " ++ e)
  cookie_read w c v path (content t) =
      if length (strip is_space t) == 0
      then cookie_failure w c v (codes "Cookie file is empty")
      else if seven_field_lines t == 0
      then cookie_failure w c v (codes "Cookie file has invalid format (no valid Netscape entries)")
      else (v, cookie_passes path (seven_field_lines t))

  abbrev pub cookie_checked :
      World
      → Settings
      → Validator
      → Text
      → Option (Validator × ComponentCheckResult)
      → Validator × ComponentCheckResult
  cookie_checked w c v path (some failure) = failure
  cookie_checked w c v path none = cookie_read w c v path w.cookie_text

  abbrev pub cookie_path_checked :
      World → Settings → Validator → Option Text → Validator × ComponentCheckResult
  cookie_path_checked w c v none =
      cookie_failure w c v (codes "No cookie path configured for YouTube")
  cookie_path_checked w c v (some []) =
      cookie_failure w c v (codes "No cookie path configured for YouTube")
  cookie_path_checked w c v (some (x ∷ xs)) =
      cookie_checked w c v (x ∷ xs) (check_cookie_access w c v (x ∷ xs))

  unfoldable pub check_cookies : World → Settings → Validator → Validator × ComponentCheckResult
  unfolding cookie_failure check_cookie_access seven_field_lines
  check_cookies w c v = if c.youtube_enabled then cookie_path_checked w c v c.cookie_path else (
    v,
    passes "cookies" false none (codes "YouTube provider is disabled, no cookie check needed"),
  )

  abbrev pub ytdlp_check : World → ComponentCheckResult
  ytdlp_check w =
      program_check "ytdlp" (codes "yt-dlp is available") (codes "yt-dlp is not available")
        (check_ytdlp is_space w.ytdlp).0

  abbrev pub ffmpeg_check : World → ComponentCheckResult
  ffmpeg_check w =
      program_check "ffmpeg" (codes "ffmpeg is available") (codes "ffmpeg is not available")
        (check_ffmpeg is_space w.ffmpeg).0

  abbrev pub nodejs_check : World → ComponentCheckResult
  nodejs_check w =
      program_check "nodejs" (codes "Node.js is available") (codes "Node.js >= 20 is required")
        (check_nodejs digit_value is_space min_nodejs_version w.nodejs).0
