-- ===== src/Youtube/Command/Hidden.antt =====
-- The cookie file of the configuration is neither logged nor given to yt-dlp.
use yt_dlp_api.Prelude.{String, false, Option, none, some, ◌≡◌}
use yt_dlp_api.Youtube.Command.{DownloadRequest, is_secret_flag}

-- An argument that is none of the flags before a secret.
abbrev pub IsPlain : String → Type 0
IsPlain arg = is_secret_flag arg ≡ false

abbrev pub IsPlainOption : Option String → Type 0
IsPlainOption none = Unit
IsPlainOption (some v) = IsPlain v

-- What a user chooses is none of these flags.
pub record IsPlainRequest (r : DownloadRequest) : Type 0 where
  pub plain_url : IsPlain r.url
  pub plain_format : IsPlainOption r.format_id
  pub plain_template : IsPlainOption r.output_template
  pub plain_audio : IsPlainOption r.audio_format
  pub plain_lang : IsPlainOption r.subtitle_lang
