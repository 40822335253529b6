-- ===== src/Startup/Usable.antt =====
-- What each check of app/core/startup.py comes to, by what the programs, the file system and the
-- configuration have to offer.
use yt_dlp_api.Prelude.{
  ℕ, String, ◌≡◌, refl, Bool, true, false, ◌&&◌, ◌||◌, not, Option, none, some, [], ◌∷◌, ltb, ◌==◌,
  if◌then◌else◌, length, arith, inl, inr, Bool-cases,
}
use yt_dlp_api.Prelude.Chars.{Text, codes, strip, split}
use yt_dlp_api.Prelude.Result.{Result, ok, err}
use yt_dlp_api.Checks.{check_ytdlp, check_ffmpeg, check_nodejs}
use yt_dlp_api.Startup.{
  ComponentCheckResult, World, Directory, Settings, Validator, Written, written, denied, os_error,
  Read, content, unreadable, read_error, check_storage, cookie_failure, check_cookie_access,
  check_cookies, seven_field_lines, ytdlp_check, ffmpeg_check, nodejs_check, min_nodejs_version,
  cookie_read, cookie_checked, cookie_accessed, passes, cookie_path_checked, directory_found,
  write_tested,
}

-- The directory is there or can be made, and can be written.
abbrev pub is_written : Written → Bool
is_written written = true
is_written denied = false
is_written (os_error e) = false

abbrev pub is_present : Directory → Result Text Bool → Option Text → Bool
is_present d (err e) m = false
is_present d (ok true) m = true
is_present d (ok false) none = true
is_present d (ok false) (some e) = false

abbrev pub storage_usable : World → Bool
storage_usable w =
    is_present w.output w.output.exists w.output.mkdir && is_written w.output.test_write

pub record Component (name : String) (critical passed : Bool) (r : ComponentCheckResult)
    : Type 0 where
  pub named : r.name ≡ name
  pub level : r.critical ≡ critical
  pub outcome : r.passed ≡ passed

write_tested-Component :
    (t : Text) (x : Written) → Component "storage" true (is_written x) (write_tested t x)
write_tested-Component t written = record { named = refl; level = refl; outcome = refl }
write_tested-Component t denied = record { named = refl; level = refl; outcome = refl }
write_tested-Component t (os_error e) = record { named = refl; level = refl; outcome = refl }

directory-Component :
    (t : Text) (d : Directory) (e : Result Text Bool) (m : Option Text)
    → d.mkdir ≡ m
    → Component "storage" true
        (is_present d e m && is_written d.test_write)
        (directory_found t d e).0
directory-Component t d (err e) m h = record { named = refl; level = refl; outcome = refl }
directory-Component t d (ok true) m h = write_tested-Component t d.test_write
directory-Component t d (ok false) none h = rw h (write_tested-Component t d.test_write)
directory-Component t d (ok false) (some e) h =
    rw h (record { named = refl; level = refl; outcome = refl })

pub storage-Component :
    (w : World) (c : Settings) → Component "storage" true (storage_usable w) (check_storage w c).0
unfolding check_storage
storage-Component w c =
    directory-Component c.output_dir w.output w.output.exists w.output.mkdir refl

module _ (lower : Text → Text) (is_space : ℕ → Bool) (digit_value : ℕ → Option ℕ) where
  pub ytdlp-Component :
      (w : World)
      → Component "ytdlp" true
          (check_ytdlp is_space w.ytdlp).0.available
          (ytdlp_check lower is_space digit_value w)
  ytdlp-Component w = elim (Bool-cases (check_ytdlp is_space w.ytdlp).0.available) [
    | inl e ↦ rw e (record { named = refl; level = refl; outcome = refl })
    | inr e ↦ rw e (record { named = refl; level = refl; outcome = refl })
  ]

  pub ffmpeg-Component :
      (w : World)
      → Component "ffmpeg" true
          (check_ffmpeg is_space w.ffmpeg).0.available
          (ffmpeg_check lower is_space digit_value w)
  ffmpeg-Component w = elim (Bool-cases (check_ffmpeg is_space w.ffmpeg).0.available) [
    | inl e ↦ rw e (record { named = refl; level = refl; outcome = refl })
    | inr e ↦ rw e (record { named = refl; level = refl; outcome = refl })
  ]

  pub nodejs-Component :
      (w : World)
      → Component "nodejs" true
          (check_nodejs digit_value is_space min_nodejs_version w.nodejs).0.available
          (nodejs_check lower is_space digit_value w)
  nodejs-Component w =
      elim (Bool-cases
        (check_nodejs digit_value is_space min_nodejs_version w.nodejs).0.available) [
          | inl e ↦ rw e (record { named = refl; level = refl; outcome = refl })
          | inr e ↦ rw e (record { named = refl; level = refl; outcome = refl })
        ]

  -- A cookie file with an entry, or no need of one.
  abbrev pub readable_entries : Result Text Bool → Read → Bool
  readable_entries (ok true) (content t) = ltb 0 (seven_field_lines lower is_space digit_value t)
  readable_entries x y = false

  abbrev pub path_usable : World → Option Text → Bool
  path_usable w none = false
  path_usable w (some []) = false
  path_usable w (some (x ∷ xs)) = readable_entries w.cookie_exists w.cookie_text

  abbrev pub cookies_usable : World → Settings → Bool
  cookies_usable w c = not c.youtube_enabled || path_usable w c.cookie_path

  -- What the check of the cookies comes to.
  pub data Cookies (w : World) (c : Settings) (v : Validator) (usable : Bool)
      (r : Validator × ComponentCheckResult) : Type 0 where
    usable_cookies :
        usable ≡ true → r.0 ≡ v → Component "cookies" false true r.1 → Cookies w c v usable r
    failing_cookies :
        (message : Text)
        → usable ≡ false
        → r ≡ cookie_failure lower is_space digit_value w c v message
        → Cookies w c v usable r

  seven_field_empty :
      (t : Text) → strip is_space t ≡ [] → seven_field_lines lower is_space digit_value t ≡ 0
  unfolding seven_field_lines strip split
  seven_field_empty t e = rw e refl

  length_zero : (t : Text) → (length t == 0) ≡ true → t ≡ []
  length_zero [] h = refl
  length_zero (c ∷ t) h = absurd (ground arith)

  read-Cookies :
      (w : World) (c : Settings) (v : Validator) (path : Text) (x : Read)
      → Cookies w c v
          (readable_entries (ok true) x)
          (cookie_read lower is_space digit_value w c v path x)
  read-Cookies w c v path unreadable = failing_cookies _ refl refl
  read-Cookies w c v path (read_error e) = failing_cookies _ refl refl
  read-Cookies w c v path (content t) = elim (Bool-cases (length (strip is_space t) == 0)) [
    | inl e ↦
        let z = seven_field_empty t (length_zero (strip is_space t) e) in
        rw e (failing_cookies _ (rw z refl) refl)
    | inr e ↦ elim (Bool-cases (seven_field_lines lower is_space digit_value t == 0)) [
      | inl z ↦ rw (e, z) (failing_cookies _ (ground arith) refl)
      | inr z ↦
          rw (e, z)
            (usable_cookies (ground arith) refl
              (record { named = refl; level = refl; outcome = refl }))
    ]
  ]

  exists-Cookies :
      (w : World) (c : Settings) (v : Validator) (path : Text) (x : Result Text Bool)
      → Cookies w c v (readable_entries x w.cookie_text) (
          cookie_checked lower is_space digit_value w c v path
            (cookie_accessed lower is_space digit_value w c v path x))
  exists-Cookies w c v path (err e) = failing_cookies _ refl refl
  exists-Cookies w c v path (ok false) = failing_cookies _ refl refl
  exists-Cookies w c v path (ok true) = read-Cookies w c v path w.cookie_text

  path-Cookies :
      (w : World) (c : Settings) (v : Validator) (x : Option Text)
      → Cookies w c v (path_usable w x) (cookie_path_checked lower is_space digit_value w c v x)
  unfolding check_cookie_access
  path-Cookies w c v none = failing_cookies _ refl refl
  path-Cookies w c v (some []) = failing_cookies _ refl refl
  path-Cookies w c v (some (x ∷ xs)) = exists-Cookies w c v (x ∷ xs) w.cookie_exists

  enabled-Cookies :
      (w : World) (c : Settings) (v : Validator) (b : Bool)
      → Cookies w c v (not b || path_usable w c.cookie_path) (
          if b then cookie_path_checked lower is_space digit_value w c v c.cookie_path else (
            v,
            passes "cookies" false none
                (codes "YouTube provider is disabled, no cookie check needed"),
          ))
  enabled-Cookies w c v true = path-Cookies w c v c.cookie_path
  enabled-Cookies w c v false =
      usable_cookies refl refl (record { named = refl; level = refl; outcome = refl })

  pub check_cookies-Cookies :
      (w : World) (c : Settings) (v : Validator)
      → Cookies w c v (cookies_usable w c) (check_cookies lower is_space digit_value w c v)
  unfolding check_cookies
  check_cookies-Cookies w c v = enabled-Cookies w c v c.youtube_enabled
