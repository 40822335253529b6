-- ===== src/Startup/Runtime.antt =====
-- `configure_ytdlp_runtime` of app/core/startup.py: the option for Node.js in the configuration of
-- yt-dlp, which a start that finds Node.js looks for and may add.
use yt_dlp_api.Prelude.{
  ℕ, Bool, false, not, ◌||◌, Option, none, some, List, [], ◌∷◌, ◌++◌, ◌==◌, if◌then◌else◌,
}
use yt_dlp_api.Prelude.Chars.{Text, codes, text_in, split, drop_while}
use yt_dlp_api.Prelude.Result.{Result, ok, err}
use yt_dlp_api.Checks.{word, behind}

-- The directory and the names below it.
unfoldable pub config_file : Text → Text → Text × List Text
config_file xdg_config home = elim xdg_config [
  | [] ↦ (home, codes ".config" ∷ codes "yt-dlp" ∷ codes "config" ∷ [])
  | x ∷ xs ↦ (x ∷ xs, codes "yt-dlp" ∷ codes "config" ∷ [])
]

abbrev pub runtimes_option : Text
runtimes_option = codes "--js-runtimes"

abbrev pub ends_with_newline : Text → Bool
ends_with_newline [] = false
ends_with_newline (c ∷ []) = c == b'\n'
ends_with_newline (c ∷ d ∷ t) = ends_with_newline (d ∷ t)

-- The two lines that are written.
abbrev pub node_lines : Text
node_lines =
    codes "# Added by yt-dlp-api for JavaScript challenge resolution\n"
    ++ codes "--js-runtimes node\n"

-- `if existing_content and not existing_content.endswith("\n")`
unfoldable pub with_newline : Text → Text
with_newline [] = []
with_newline (c ∷ t) = if ends_with_newline (c ∷ t) then c ∷ t else (c ∷ t) ++ b'\n' ∷ []

abbrev pub existing_content : Option Text → Text
existing_content none = []
existing_content (some t) = t

module _ (is_space : ℕ → Bool) where
  -- `\s+(\S+)`
  abbrev pub spaced_word : Option Text → Option Text
  spaced_word none = none
  spaced_word (some []) = none
  spaced_word (some (c ∷ t)) =
      if is_space c then word is_space (some (drop_while is_space t)) else none

  abbrev pub or_later : Option Text → Option Text → Option Text
  or_later none later = later
  or_later (some w) later = some w

  -- `re.search(r"--js-runtimes\s+(\S+)", content)`: the group of the first match
  unfoldable pub search_runtimes : Text → Option Text
  search_runtimes [] = none
  search_runtimes (c ∷ t) =
      or_later (spaced_word (behind is_space runtimes_option (c ∷ t))) (search_runtimes t)

  abbrev pub names_node : Option Text → Bool
  names_node none = false
  names_node (some w) = text_in (codes "node") (split b',' w)

  -- What stands in the file afterwards.
  unfoldable pub configured : Text → Text
  unfolding search_runtimes with_newline
  configured existing =
      if names_node (search_runtimes existing)
      then existing
      else with_newline existing ++ node_lines

  -- The file, before and afterwards; an error of finding or reading it leaves it as it is, and so
  -- does one of opening it for the new lines (`writable`).
  unfoldable pub configure_ytdlp_runtime :
      Bool → Result Text (Option Text) → Result Text (Option Text)
  unfolding configured search_runtimes
  configure_ytdlp_runtime writable (err e) = err e
  configure_ytdlp_runtime writable (ok file) =
      if names_node (search_runtimes (existing_content file)) || not writable
      then ok file
      else ok (some (configured (existing_content file)))
