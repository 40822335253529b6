-- ===== src/Template/Path/Within.antt =====
-- Where the paths that `build_output_path` of app/core/template.py gives may lie.
use yt_dlp_api.Prelude.{
  ℕ, zero, suc, ◌+◌, ◌<◌, ◌%◌, Bool, true, false, ◌&&◌, inl, inr, Option, none, some, List, [], ◌∷◌,
  ◌++◌, ◌≡◌, refl, sym, ap, ◌∙◌, subst, arith, ltb, Bool-cases, Option-cases,
}
use yt_dlp_api.Prelude.Chars.{Text, text_eq, text_eq_sound, digits, digits_fuel, strip}
use yt_dlp_api.Template.{sanitize_filename, rsplit}
use yt_dlp_api.Template.Clean.{IsClean, AllClean, AllClean-append, PartsClean, rsplit-PartsClean}
use yt_dlp_api.Template.Safe.{sanitize_filename-AllClean, dot-IsClean, unnamed-AllClean}
use yt_dlp_api.Template.Unique.{
  Unique, unique, too_many, out_of_fuel, or_unnamed_file, name_and_ext, suffixed,
  get_unique_filename, suffix_limit,
}
use yt_dlp_api.Template.Unique.Total.{Uniques, free, numbered, all_taken, get_unique_filename_total}
use yt_dlp_api.Template.Validate.{
  TemplateResult, valid_template, invalid_template, validate_template,
}
use yt_dlp_api.Template.Validate.Safe.{IsSafe, validate_template-IsSafe}
use yt_dlp_api.Template.Path.{
  Substituted, formatted, key_missing, bad_format, bad_type, Paths, is_relative_to, resolved_within,
  validate_output_path, or_default, sanitized, processed, process_template, checked_path, path_of,
  path_of_unique, path_from, build_output_path,
}

digit-IsClean : (k : ℕ) → k < 10 → IsClean (b'0' + k)
digit-IsClean k h = ground arith

AllClean-digits_fuel : (f n : ℕ) (rest : Text) → AllClean rest → AllClean (digits_fuel f n rest)
unfolding digits_fuel
AllClean-digits_fuel zero n rest h = h
AllClean-digits_fuel (suc f) n rest h = elim (Bool-cases (ltb n 10)) [
  | inl e ↦ rw (e, digits_fuel) (digit-IsClean n (ground arith), h)
  | inr e ↦
      rw (e, digits_fuel) (AllClean-digits_fuel f _ _ (digit-IsClean (n % 10) (omega arith), h))
]

suffixed-AllClean :
    (parts : Text × Text) (k : ℕ)
    → AllClean parts.0
    → AllClean parts.1
    → AllClean (suffixed parts k)
unfolding suffixed digits
suffixed-AllClean parts k a b =
    let number = AllClean-digits_fuel (suc k) k [] tt in
    let line : IsClean b'_' = ground arith in
    AllClean-append parts.0 (b'_' ∷ (digits k ++ parts.1)) a
      (line, AllClean-append (digits k) parts.1 number b)

name_and_ext-AllClean :
    (t : Text) → AllClean t → AllClean (name_and_ext t).0 × AllClean (name_and_ext t).1
unfolding name_and_ext
name_and_ext-AllClean t h = elim (Option-cases (rsplit t)) [
  | inl e ↦ rw (e, name_and_ext) (h, tt)
  | inr ((x, y), e) ↦
      let i = subst PartsClean e (rsplit-PartsClean t h) in
      rw (e, name_and_ext) (i.0, (dot-IsClean, i.1))
]

or_unnamed_file-AllClean : (t : Text) → AllClean t → AllClean (or_unnamed_file t)
or_unnamed_file-AllClean [] h = unnamed-AllClean
or_unnamed_file-AllClean (c ∷ cs) h = h

both : (a b : Bool) → (a && b) ≡ true → (a ≡ true) × (b ≡ true)
both a b h = (ground arith, ground arith)

-- What a resolved path below a directory is.
is_relative_to-below :
    (parts dir : List Text)
    → is_relative_to parts dir ≡ true
    → (rest : List Text) × (parts ≡ dir ++ rest)
unfolding is_relative_to
is_relative_to-below parts [] h = (parts, refl)
is_relative_to-below [] (d ∷ ds) h = absurd cc
is_relative_to-below (p ∷ parts) (d ∷ ds) h =
    let (same, later) = both (text_eq p d) _ h in
    let (rest, e) = is_relative_to-below parts ds later in
    (rest, ap (λ t. t ∷ parts) (text_eq_sound p d same) ∙ ap (λ t. d ∷ t) e)

-- A path that resolves to one below a directory.
pub record LiesBelow (fs : Paths) (output_dir path : Text) : Type 0 where
  pub parts : List Text
  pub dir : List Text
  pub rest : List Text
  pub resolved : fs.resolve path ≡ some parts
  pub resolved_dir : fs.resolve output_dir ≡ some dir
  pub below : parts ≡ dir ++ rest

module _ (fs : Paths) (output_dir : Text) where
  resolved-LiesBelow :
      (path : Text) (a b : Option (List Text)) (u : Text)
      → fs.resolve path ≡ a
      → fs.resolve output_dir ≡ b
      → resolved_within fs a b ≡ valid_template u
      → LiesBelow fs output_dir path
  resolved-LiesBelow path none b u e g h = absurd cc
  resolved-LiesBelow path (some parts) none u e g h = absurd cc
  resolved-LiesBelow path (some parts) (some dir) u e g h =
      elim (Bool-cases (is_relative_to parts dir)) [
        | inr n ↦ absurd (let k = rw n at h in cc)
        | inl y ↦
            let (rest, below) = is_relative_to-below parts dir y in
            record {
              parts = parts;
              dir = dir;
              rest = rest;
              resolved = e;
              resolved_dir = g;
              below = below;
            }
      ]

  validate_output_path-LiesBelow :
      (path u : Text)
      → validate_output_path fs output_dir path ≡ valid_template u
      → LiesBelow fs output_dir path
  unfolding validate_output_path
  validate_output_path-LiesBelow [] u h = absurd cc
  validate_output_path-LiesBelow (c ∷ cs) u h =
      resolved-LiesBelow (c ∷ cs) (fs.resolve (c ∷ cs)) (fs.resolve output_dir) u refl refl h

module _ (normalize upper : Text → Text) (is_space is_alpha : ℕ → Bool) (fs : Paths)
    (output_dir : Text) where
  -- A path that is given: a clean name in the output directory.
  pub record IsWithin (template : Text) (ensure_unique : Bool) (path : Text) : Type 0 where
    pub safe : IsSafe (strip is_space template)
    pub name : Text
    pub named : path ≡ fs.join output_dir name
    pub clean : AllClean name
    pub untaken : ensure_unique ≡ true → fs.exists name ≡ false
    pub inside : LiesBelow fs output_dir path

  checked_same :
      (full p : Text) (r : TemplateResult)
      → checked_path normalize upper is_space is_alpha fs output_dir full r ≡ valid_template p
      → (p ≡ full) × ((u : Text) × (r ≡ valid_template u))
  checked_same full p (invalid_template e) h = absurd cc
  checked_same full p (valid_template u) h = (cc, (u, refl))

  path_of-IsWithin :
      (template : Text) (ensure_unique : Bool) (name p : Text)
      → IsSafe (strip is_space template)
      → AllClean name
      → (ensure_unique ≡ true → fs.exists name ≡ false)
      → path_of normalize upper is_space is_alpha fs output_dir name ≡ valid_template p
      → IsWithin template ensure_unique p
  path_of-IsWithin template ensure_unique name p s a n h =
      let (same, (u, e)) = checked_same (fs.join output_dir name) p _ h in
      record {
        safe = s;
        name = name;
        named = same;
        clean = a;
        untaken = n;
        inside =
            rw same (validate_output_path-LiesBelow fs output_dir (fs.join output_dir name) u e);
      }

  -- The name that is free, where one is asked for.
  free_name :
      (filename : Text) (r : Unique) (name : Text)
      → AllClean filename
      → Uniques fs.exists suffix_limit filename r
      → r ≡ unique name
      → AllClean name × (fs.exists name ≡ false)
  free_name filename r name a (free n e) q =
      let same : or_unnamed_file filename ≡ name = cc in
      (subst AllClean same (or_unnamed_file-AllClean filename a), sym (ap fs.exists same) ∙ n)
  free_name filename r name a (numbered k t x y m n e) q =
      let file = or_unnamed_file filename in
      let parts = name_and_ext-AllClean file (or_unnamed_file-AllClean filename a) in
      let same : suffixed (name_and_ext file) k ≡ name = cc in
      (
        subst AllClean same (suffixed-AllClean (name_and_ext file) k parts.0 parts.1),
        sym (ap fs.exists same) ∙ n,
      )
  free_name filename r name a (all_taken t m e) q = absurd cc

  path_of_unique-IsWithin :
      (template filename p : Text) (r : Unique)
      → IsSafe (strip is_space template)
      → AllClean filename
      → Uniques fs.exists suffix_limit filename r
      → path_of_unique normalize upper is_space is_alpha fs output_dir r ≡ valid_template p
      → IsWithin template true p
  path_of_unique-IsWithin template filename p (unique name) s a u h =
      let (clean, untaken) = free_name filename (unique name) name a u refl in
      path_of-IsWithin template true name p s clean (λ e. untaken) h
  path_of_unique-IsWithin template filename p (too_many n) s a u h = absurd cc
  path_of_unique-IsWithin template filename p out_of_fuel s a u h = absurd cc

  path_from-IsWithin :
      (template : Text) (ensure_unique : Bool) (filename p : Text)
      → IsSafe (strip is_space template)
      → AllClean filename
      → path_from normalize upper is_space is_alpha fs output_dir ensure_unique
          (valid_template filename)
        ≡ valid_template p
      → IsWithin template ensure_unique p
  path_from-IsWithin template true filename p s a h =
      path_of_unique-IsWithin template filename p
        (get_unique_filename fs.exists suffix_limit filename) s a
        (get_unique_filename_total fs.exists suffix_limit filename (omega arith)) h
  path_from-IsWithin template false filename p s a h =
      path_of-IsWithin template false filename p s a (λ e. absurd cc) h

  substituted-IsWithin :
      (template : Text) (ensure_unique : Bool) (x : Substituted) (p : Text)
      → IsSafe (strip is_space template)
      → path_from normalize upper is_space is_alpha fs output_dir ensure_unique
          (sanitized normalize upper is_space is_alpha x)
        ≡ valid_template p
      → IsWithin template ensure_unique p
  substituted-IsWithin template ensure_unique (formatted t) p s h =
      path_from-IsWithin template ensure_unique (sanitize_filename normalize upper is_space t) p s
        (sanitize_filename-AllClean normalize upper is_space t) h
  substituted-IsWithin template ensure_unique (key_missing e) p s h = absurd cc
  substituted-IsWithin template ensure_unique (bad_format e) p s h = absurd cc
  substituted-IsWithin template ensure_unique (bad_type e) p s h = absurd cc

  processed-IsWithin :
      (template : Text) (ensure_unique : Bool) (x : Substituted) (v : TemplateResult) (p : Text)
      → validate_template is_space is_alpha template ≡ v
      → path_from normalize upper is_space is_alpha fs output_dir ensure_unique
          (processed normalize upper is_space is_alpha x v)
        ≡ valid_template p
      → IsWithin template ensure_unique p
  processed-IsWithin template ensure_unique x (invalid_template e) p g h = absurd cc
  processed-IsWithin template ensure_unique x (valid_template t) p g h =
      let (same, safe) = validate_template-IsSafe is_space is_alpha template t g in
      substituted-IsWithin template ensure_unique x p (subst IsSafe same safe) h

  -- Whatever template and variables are given, a path that `build_output_path` gives is that of a name
  -- in the output directory, and resolves to one below it. The name has no control character and
  -- none that is illegal in a file name, a slash among them; it is free where a unique name is asked
  -- for. The template, or the default one, is safe.
  pub build_output_path-IsWithin :
      (substitute : Text → Substituted) (template : Option Text) (ensure_unique : Bool) (p : Text)
      → build_output_path normalize upper is_space is_alpha fs output_dir substitute template
          ensure_unique
        ≡ valid_template p
      → IsWithin (or_default template) ensure_unique p
  unfolding build_output_path process_template
  build_output_path-IsWithin substitute template ensure_unique p h =
      let given = or_default template in
      processed-IsWithin given ensure_unique (substitute given)
        (validate_template is_space is_alpha given) p refl h
