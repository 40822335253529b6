-- ===== src/Startup/Restarts.antt =====
-- Starts of the service one after the other (app/core/startup.py), each with what the programs, the
-- file system and the configuration are then, on the same configuration file of yt-dlp.
use yt_dlp_api.Prelude.{
  ℕ, ◌≡◌, refl, ap, ◌∙◌, Bool, true, false, ◌&&◌, Option, none, some, List, [], ◌∷◌, inl, inr,
  Bool-cases, if◌then◌else◌,
}
use yt_dlp_api.Prelude.Chars.{Text}
use yt_dlp_api.Prelude.Result.{Result, ok, err}
use yt_dlp_api.Startup.{World, Settings, Validator}
use yt_dlp_api.Startup.Validate.{validate_all}
use yt_dlp_api.Startup.Runtime.{
  configured, configure_ytdlp_runtime, search_runtimes, names_node, existing_content,
}
use yt_dlp_api.Startup.Exact.{nodejs_usable, validate_all_file}

-- One start; `unread` is the exception of finding or reading the configuration file, if any.
pub record Start : Type 0 where
  pub world : World
  pub settings : Settings
  pub unread : Option Text
  pub writable : Bool
  pub validator : Validator

-- The file, as the start sees it.
abbrev pub seen : Option Text → Option Text → Result Text (Option Text)
seen none file = ok file
seen (some e) file = err e

-- The file as it stays on the disk.
abbrev pub left : Option Text → Result Text (Option Text) → Option Text
left file (ok file') = file'
left file (err e) = file

abbrev pub is_read : Option Text → Bool
is_read none = true
is_read (some e) = false

module _ (lower : Text → Text) (is_space : ℕ → Bool) (digit_value : ℕ → Option ℕ) where
  abbrev pub restart : Start → Option Text → Option Text
  restart s file =
      left file
        (validate_all lower is_space digit_value s.world s.settings s.writable (seen s.unread file)
          s.validator).1

  -- The file after the starts.
  abbrev pub starts : List Start → Option Text → Option Text
  starts [] file = file
  starts (s ∷ ss) file = starts ss (restart s file)

  -- A start that finds Node.js and may read and write the file.
  abbrev pub is_effective : Start → Bool
  is_effective s =
      nodejs_usable lower is_space digit_value s.world && is_read s.unread && s.writable

  configured_named :
      (t : Text)
      → names_node is_space (search_runtimes is_space t) ≡ true
      → configured is_space t ≡ t
  unfolding configured
  configured_named t e = rw e refl

  configure_writable :
      (file : Option Text)
      → configure_ytdlp_runtime is_space true (ok file)
        ≡ ok (some (configured is_space (existing_content file)))
  unfolding configure_ytdlp_runtime search_runtimes configured
  configure_writable none = refl
  configure_writable (some t) =
      elim (Bool-cases (names_node is_space (search_runtimes is_space t))) [
        | inl e ↦ rw e refl
        | inr e ↦ rw e refl
      ]

  configure_denied :
      (file : Option Text) → configure_ytdlp_runtime is_space false (ok file) ≡ ok file
  unfolding configure_ytdlp_runtime
  configure_denied file =
      elim (Bool-cases (names_node is_space (search_runtimes is_space (existing_content file)))) [
        | inl e ↦ rw e refl
        | inr e ↦ rw e refl
      ]

  left_file :
      (n w : Bool) (unread file : Option Text)
      → left file
          (if n then configure_ytdlp_runtime is_space w (seen unread file) else seen unread file)
        ≡ (if n && is_read unread && w
            then some (configured is_space (existing_content file))
            else file)
  unfolding configure_ytdlp_runtime
  left_file false w none file = refl
  left_file false w (some e) file = refl
  left_file true w (some e) file = refl
  left_file true true none file = ap (left file) (configure_writable file)
  left_file true false none file = ap (left file) (configure_denied file)

  -- A start that finds Node.js and may read and write the file configures it; every other one leaves
  -- it as it is.
  pub restart_file :
      (s : Start) (file : Option Text)
      → restart s file
        ≡ (if is_effective s then some (configured is_space (existing_content file)) else file)
  restart_file s file =
      ap (left file) (
        validate_all_file lower is_space digit_value s.world s.settings s.writable
          (seen s.unread file) s.validator)
      ∙ left_file (nodejs_usable lower is_space digit_value s.world) s.writable s.unread file

  -- Once Node.js is configured, a start changes nothing.
  pub starts_configured :
      (t : Text)
      → names_node is_space (search_runtimes is_space t) ≡ true
      → (ss : List Start) → starts ss (some t) ≡ some t
  starts_configured t h [] = refl
  starts_configured t h (s ∷ ss) =
      ap (starts ss) (
        restart_file s (some t) ∙ elim (Bool-cases (is_effective s)) [
          | inl e ↦ rw e (ap (λ x. some x) (configured_named t h))
          | inr e ↦ rw e refl
        ])
      ∙ starts_configured t h ss
