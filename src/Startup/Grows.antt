-- ===== src/Startup/Grows.antt =====
-- What the starts of the service make of the configuration file of yt-dlp, by
-- `validate_all` and `configure_ytdlp_runtime` of app/core/startup.py: with one that has no option
-- for a runtime, and with one whose first such option lacks Node.js.
use yt_dlp_api.Prelude.{
  ℕ, suc, ◌+◌, ◌*◌, ◌≤◌, ◌≡◌, refl, ap, ◌∙◌, Bool, true, false, Option, some, List, Bool-cases, inl,
  inr, count, ltb, if◌then◌else◌, [], ◌∷◌, ◌++◌, arith, length, length-append,
}
use yt_dlp_api.Prelude.Chars.{Text, codes, text_in, split, contains_text, all_chars}
use yt_dlp_api.Checks.{is_solid}
use yt_dlp_api.Startup.Runtime.{
  runtimes_option, node_lines, with_newline, search_runtimes, names_node, configured,
  existing_content,
}
use yt_dlp_api.Startup.Restarts.{
  Start, restart, starts, is_effective, restart_file, starts_configured,
}
use yt_dlp_api.Startup.Search.{
  append_assoc, is_lines, with_newline-lines, search_runtimes-lines, option_line,
  search_runtimes-here, with_newline-more, with_newline-absent, search_runtimes_absent,
}

module _ (lower : Text → Text) (digit_value : ℕ → Option ℕ) (is_space : ℕ → Bool) (pre w : Text)
    (c : ℕ) (blank : is_space b' ' ≡ true) (line_end : is_space b'\n' ≡ true)
    (solid : all_chars (is_solid is_space) (c ∷ w) ≡ true) (lines : is_lines pre ≡ true)
    (absent : contains_text runtimes_option pre ≡ false)
    (other : text_in (codes "node") (split b',' (c ∷ w)) ≡ false) where
  abbrev with_option : Text → Text
  with_option t = pre ++ option_line is_space (c ∷ w) t

  search_other : (t : Text) → search_runtimes is_space (with_option t) ≡ some (c ∷ w)
  search_other t =
      search_runtimes-lines is_space pre (option_line is_space (c ∷ w) t) lines absent
      ∙ search_runtimes-here is_space c w t blank line_end solid

  configured_other :
      (t : Text) → configured is_space (with_option t) ≡ with_newline (with_option t) ++ node_lines
  unfolding configured
  configured_other t = rw (search_other t) (rw other refl)

  with_option-append : (t u : Text) → with_option t ++ u ≡ with_option (t ++ u)
  with_option-append t u =
      append_assoc pre (option_line is_space (c ∷ w) t) u
      ∙ ap (λ x. pre ++ x)
          (append_assoc runtimes_option (b' ' ∷ (c ∷ w) ++ b'\n' ∷ t) u
            ∙ ap (λ x. runtimes_option ++ b' ' ∷ x) (append_assoc (c ∷ w) (b'\n' ∷ t) u))

  -- One start adds the two lines, at least.
  configured-longer :
      (t : Text)
      → (t' : Text) × (configured is_space (with_option t) ≡ with_option t')
        × (length (with_option t) + length node_lines ≤ length (with_option t'))
  configured-longer t =
      let (u, e) = with_newline-more is_space (with_option t) in
      let same : configured is_space (with_option t) ≡ with_option (t ++ (u ++ node_lines)) =
        configured_other t
        ∙ ap (λ x. x ++ node_lines) e
        ∙ append_assoc (with_option t) u node_lines
        ∙ with_option-append t (u ++ node_lines) in
      let long = length-append (with_option t) (u ++ node_lines) in
      let more = length-append u node_lines in
      let ends = ap length (with_option-append t (u ++ node_lines)) in
      (t ++ (u ++ node_lines), same, omega (arith, long, more, ends))

  -- Each start that finds Node.js and may read and write the file makes it longer by the two lines, at
  -- least, if its first option stands behind whole lines without it, and has a value that a blank and a
  -- newline delimit and that does not name "node"; and its first option stays that one. The blanks of
  -- Unicode are to have the blank and the newline among them, and none of the value's characters.
  pub starts_grow :
      (ss : List Start) (t : Text)
      → (t' : Text) × (starts lower is_space digit_value ss (some (with_option t))
          ≡ some (with_option t'))
        × (length (with_option t)
              + count (is_effective lower is_space digit_value) ss * length node_lines
            ≤ length (with_option t'))
  starts_grow [] t = (t, refl, omega arith)
  starts_grow (s ∷ ss) t =
      let kept = restart_file lower is_space digit_value s (some (with_option t)) in
      elim (Bool-cases (is_effective lower is_space digit_value s)) [
        | inl e ↦
            let (t1, same, longer) = configured-longer t in
            let (t', ends, rest) = starts_grow ss t1 in
            let first : restart lower is_space digit_value s (some (with_option t))
                ≡ some (with_option t1) =
              kept ∙ rw e (ap (λ x. some x) same) in
            (
              t',
              ap (starts lower is_space digit_value ss) first ∙ ends,
              rw e (omega (arith, longer, rest)),
            )
        | inr e ↦
            let (t', ends, rest) = starts_grow ss t in
            let first : restart lower is_space digit_value s (some (with_option t))
                ≡ some (with_option t) =
              kept ∙ rw e refl in
            (t', ap (starts lower is_space digit_value ss) first ∙ ends, rw e rest)
      ]

comment_line : Text
comment_line = codes "# Added by yt-dlp-api for JavaScript challenge resolution\n"

module _ (is_space : ℕ → Bool) (t : Text) (blank : is_space b' ' ≡ true)
    (line_end : is_space b'\n' ≡ true) (solid : all_chars (is_solid is_space) (codes "node") ≡ true)
    (absent : contains_text runtimes_option t ≡ false) where
  configured_absent : configured is_space t ≡ with_newline t ++ node_lines
  unfolding configured
  configured_absent = rw (search_runtimes_absent is_space t absent) refl

  search_settled : search_runtimes is_space (with_newline t ++ node_lines) ≡ some (codes "node")
  unfolding comment_line
  search_settled =
      search_runtimes-lines is_space (with_newline t) node_lines (with_newline-lines t)
        (with_newline-absent is_space t absent)
      ∙ search_runtimes-lines is_space comment_line (codes "--js-runtimes node\n") refl refl
      ∙ search_runtimes-here is_space b'n' (codes "ode") [] blank line_end solid

  settled_lines :
      names_node is_space (search_runtimes is_space (with_newline t ++ node_lines)) ≡ true
  unfolding split
  settled_lines = ap (names_node is_space) search_settled

  settled : names_node is_space (search_runtimes is_space (configured is_space t)) ≡ true
  settled =
      ap (λ x. names_node is_space (search_runtimes is_space x)) configured_absent ∙ settled_lines

ltb-suc : (n : ℕ) → ltb 0 (suc n) ≡ true
ltb-suc n = ground arith

module _ (lower : Text → Text) (is_space : ℕ → Bool) (digit_value : ℕ → Option ℕ) where
  -- A file without the option, or one that does not exist yet, stays as it is until a start finds
  -- Node.js and may read and write it. That start appends the two lines, behind a newline if the file
  -- lacks one at its end; Node.js is configured then, and no further start changes the file. The
  -- blanks of Unicode are to have the blank and the newline among them, and none of the letters of
  -- "node".
  pub starts_settle :
      (file : Option Text) (ss : List Start)
      → is_space b' ' ≡ true
      → is_space b'\n' ≡ true
      → all_chars (is_solid is_space) (codes "node") ≡ true
      → contains_text runtimes_option (existing_content file) ≡ false
      → (starts lower is_space digit_value ss file ≡ (
          if ltb 0 (count (is_effective lower is_space digit_value) ss)
          then some (with_newline (existing_content file) ++ node_lines)
          else file))
        × (names_node is_space
              (search_runtimes is_space (with_newline (existing_content file) ++ node_lines))
            ≡ true)
  starts_settle file [] blank line_end solid absent =
      (refl, settled_lines is_space (existing_content file) blank line_end solid absent)
  starts_settle file (s ∷ ss) blank line_end solid absent =
      let t = existing_content file in
      let named = settled is_space t blank line_end solid absent in
      let lines = settled_lines is_space t blank line_end solid absent in
      let kept = restart_file lower is_space digit_value s file in
      let rest = starts_settle file ss blank line_end solid absent in
      elim (Bool-cases (is_effective lower is_space digit_value s)) [
        | inl e ↦
            let first : restart lower is_space digit_value s file ≡ some (configured is_space t) =
              kept ∙ rw e refl in
            (
              ap (starts lower is_space digit_value ss) first
                  ∙ starts_configured lower is_space digit_value (configured is_space t) named ss
                  ∙ ap (λ x. some x) (configured_absent is_space t blank line_end solid absent)
                  ∙ rw (e, ltb-suc (count (is_effective lower is_space digit_value) ss)) refl,
              lines,
            )
        | inr e ↦
            let first : restart lower is_space digit_value s file ≡ file = kept ∙ rw e refl in
            (ap (starts lower is_space digit_value ss) first ∙ rw e (rest.0), lines)
      ]
