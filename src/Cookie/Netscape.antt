-- ===== src/Cookie/Netscape.antt =====
-- `validate_netscape_format` of app/services/cookie_service.py, over code points; `is_space` is
-- Unicode's table of blanks. The header is only logged, and so left out.
pub mod Exact
use yt_dlp_api.Prelude.{
  ℕ, suc, String, Bool, true, ◌||◌, List, [], ◌∷◌, length, ◌==◌, if◌then◌else◌,
}
use yt_dlp_api.Prelude.Chars.{Text, strip, split}
use yt_dlp_api.Prelude.Result.{Result, ok, err}
use yt_dlp_api.Prelude.Text.{concat, decimal}

-- `not line or line.startswith("#")`
abbrev pub is_skipped : Text → Bool
is_skipped [] = true
is_skipped (c ∷ cs) = c == b'#'

abbrev pub fields : Text → ℕ
fields line = length (split b'\t' line)

unfoldable pub fields_message : String → ℕ → String
fields_message provider n =
    concat
      (concat
        (concat (concat "Invalid cookie entry in " provider)
          " cookie file. Expected 7 tab-separated fields, got ")
        (decimal n))
      ". Ensure the file is in Netscape format."

abbrev pub no_entries_message : String → String
no_entries_message provider =
    concat (concat "No valid cookie entries found in " provider)
      " cookie file. The file may be corrupted or in the wrong format."

abbrev pub empty_message : String → String
empty_message provider = concat (concat "Cookie file for " provider) " is empty"

-- What is made of the number of entries.
abbrev pub concluded : String → Result String ℕ → Result String Bool
concluded provider (err e) = err e
concluded provider (ok n) = if n == 0 then err (no_entries_message provider) else ok true

module _ (is_space : ℕ → Bool) where
  -- The loop over the lines, with `valid_entries`.
  unfoldable pub valid_entries : String → ℕ → List Text → Result String ℕ
  unfolding fields_message
  valid_entries provider n [] = ok n
  valid_entries provider n (l ∷ ls) =
      let line = strip is_space l in
      let rest = valid_entries provider (if is_skipped line then n else suc n) ls in
      if is_skipped line || fields line == 7
      then rest
      else err (fields_message provider (fields line))

  unfoldable pub validate_netscape_format : Text → String → Result String Bool
  unfolding valid_entries
  validate_netscape_format content provider = elim (strip is_space content) [
    | [] ↦ err (empty_message provider)
    | c ∷ cs ↦ concluded provider (valid_entries provider 0 (split b'\n' (c ∷ cs)))
  ]
