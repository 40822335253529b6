-- ===== src/Startup/Tests.antt =====
-- Runs of app/core/startup.py, and the theorems at such inputs.
use yt_dlp_api.Prelude.{
  ℕ, ◌+◌, ◌*◌, ◌≤◌, ◌≡◌, refl, Bool, true, false, ◌&&◌, ◌||◌, not, Option, none, some, [], ◌++◌,
  ◌==◌, ◌-◌, leb, ltb, count, List, ◌∷◌, length, if◌then◌else◌,
}
use yt_dlp_api.Prelude.Chars.{Text, codes, strip, split}
use yt_dlp_api.Prelude.Int.{pos}
use yt_dlp_api.Prelude.Result.{ok}
use yt_dlp_api.Checks.{check_ytdlp, check_ffmpeg, exits, check_nodejs, parse_ffmpeg_version}
use yt_dlp_api.Startup.{
  World, Settings, Validator, content, written, seven_field_lines, is_test_mode,
}
use yt_dlp_api.Startup.Validate.{validate_all}
use yt_dlp_api.Startup.Runtime.{node_lines, search_runtimes, names_node, with_newline}
use yt_dlp_api.Startup.Usable.{storage_usable, cookies_usable}
use yt_dlp_api.Startup.Exact.{
  may_start, disabled_for, ytdlp_usable, ffmpeg_usable, nodejs_usable, validate_all_exact,
}
use yt_dlp_api.Startup.Restarts.{Start, starts, is_effective}
use yt_dlp_api.Startup.Grows.{starts_grow, starts_settle}

abbrev same : Text → Text
same t = t

abbrev is_blank : ℕ → Bool
is_blank c = (c == b' ') || (c == b'\n') || (c == b'\t')

abbrev ascii_digit : ℕ → Option ℕ
ascii_digit c = if leb b'0' c && leb c b'9' then some (c - b'0') else none

-- yt-dlp, ffmpeg and Node.js 18 are there; the cookie file has one entry.
abbrev old_node : World
old_node = record {
  testing_variable = [];
  ytdlp = exits (pos 0) (ok (codes "2025.1.1\n"));
  ffmpeg = exits (pos 0) (ok (codes "ffmpeg version 6.1 Copyright"));
  nodejs = exits (pos 0) (ok (codes "v18.2.0\n"));
  output = record { exists = ok true; mkdir = none; test_write = written };
  cookie_exists = ok true;
  cookie_text = content (codes "a\tb\tc\td\te\tf\tg\n");
}

abbrev strict : Settings
strict = record {
  allow_degraded_start = false;
  output_dir = codes "/out";
  youtube_enabled = true;
  cookie_path = some (codes "/c.txt");
}

abbrev idle_validator : Validator
idle_validator = record {
  results = [];
  disabled = [];
  failures = [];
  cautions = [];
  made_directory = false;
}

node_18 : (check_nodejs ascii_digit is_blank 20 old_node.nodejs).0.available ≡ false
unfolding check_nodejs strip split
node_18 = refl

ffmpeg_version :
    parse_ffmpeg_version is_blank (codes "ffmpeg version 6.1 Copyright")
    ≡ (true, some (codes "6.1"), none)
unfolding parse_ffmpeg_version
ffmpeg_version = refl

one_entry : seven_field_lines same is_blank ascii_digit (codes "# x\na\tb\tc\td\te\tf\tg\n") ≡ 1
unfolding seven_field_lines strip split
one_entry = refl

-- An old Node.js keeps the service from starting, with one message.
refused_start :
    (validate_all same is_blank ascii_digit old_node strict true
      (ok none)
      idle_validator).0.1.success
    ≡ false
unfolding validate_all check_nodejs strip split check_ytdlp check_ffmpeg
refused_start = refl

validate_all_exact_example :
    let r =
      (validate_all same is_blank ascii_digit old_node strict true (ok none) idle_validator).0.1 in
    (r.success
      ≡ may_start false
          (is_test_mode same is_blank ascii_digit old_node)
          (ytdlp_usable same is_blank ascii_digit old_node)
          (ffmpeg_usable same is_blank ascii_digit old_node)
          (nodejs_usable same is_blank ascii_digit old_node)
          (storage_usable old_node)
          (cookies_usable same is_blank ascii_digit old_node strict))
    × (r.degraded_mode ≡ (
        false
        && r.success
        && not (
            ytdlp_usable same is_blank ascii_digit old_node
            && ffmpeg_usable same is_blank ascii_digit old_node
            && nodejs_usable same is_blank ascii_digit old_node
            && storage_usable old_node
            && cookies_usable same is_blank ascii_digit old_node strict)))
    × ((length r.errors == 0) ≡ r.success)
    × (r.disabled_providers
        ≡ disabled_for false
            (is_test_mode same is_blank ascii_digit old_node)
            (cookies_usable same is_blank ascii_digit old_node strict))
validate_all_exact_example =
    validate_all_exact same is_blank ascii_digit old_node strict true (ok none) idle_validator

-- A user's own option for another runtime.
abbrev deno_text : Text
deno_text = codes "--js-runtimes deno\n"

-- Node.js 20 is there.
abbrev new_node : World
new_node = record old_node { nodejs = exits (pos 0) (ok (codes "v20.1.0\n")) }

abbrev start_with : World → Bool → Start
start_with w writable = record {
  world = w;
  settings = strict;
  unread = none;
  writable = writable;
  validator = idle_validator;
}

-- A start without Node.js, one that does it, one that may not write, and another that does it.
abbrev four_starts : List Start
four_starts =
    start_with old_node true
    ∷ start_with new_node true
    ∷ start_with new_node false
    ∷ start_with new_node true
    ∷ []

two_effective : count (is_effective same is_blank ascii_digit) four_starts ≡ 2
unfolding check_nodejs strip split
two_effective = refl

starts_grow_example :
    (t' : Text) × (starts same is_blank ascii_digit four_starts (some deno_text)
      ≡ some (codes "--js-runtimes deno\n" ++ t'))
    × (length deno_text
          + count (is_effective same is_blank ascii_digit) four_starts * length node_lines
        ≤ length (codes "--js-runtimes deno\n" ++ t'))
unfolding split
starts_grow_example =
    starts_grow same ascii_digit is_blank [] (codes "eno") b'd' refl refl refl refl refl refl
      four_starts []

starts_settle_example :
    (starts same is_blank ascii_digit four_starts (some (codes "-f best")) ≡ (
      if ltb 0 (count (is_effective same is_blank ascii_digit) four_starts)
      then some (with_newline (codes "-f best") ++ node_lines)
      else some (codes "-f best")))
    × (names_node is_blank (search_runtimes is_blank (with_newline (codes "-f best") ++ node_lines))
        ≡ true)
starts_settle_example =
    starts_settle same is_blank ascii_digit (some (codes "-f best")) four_starts refl refl refl refl
