-- ===== src/Cookie/Netscape/Exact.antt =====
-- `validate_netscape_format` of app/services/cookie_service.py: the files that it takes.
use yt_dlp_api.Prelude.{
  ℕ, suc, ◌+◌, ◌<◌, String, Bool, true, ◌&&◌, not, List, [], ◌∷◌, ◌≡◌, ◌↔◌, ◌⊎◌, inl, inr, refl,
  subst, ap, arith, length, count, ◌==◌, Bool-cases,
}
use yt_dlp_api.Prelude.Chars.{Text, strip, split, before_first}
use yt_dlp_api.Prelude.Result.{Result, ok, err}
use yt_dlp_api.Cookie.Netscape.{
  is_skipped, fields, empty_message, concluded, valid_entries, validate_netscape_format,
}

length-before_first :
    (c : ℕ) (ts : List Text) → 0 < length ts → length (before_first c ts) ≡ length ts
length-before_first c [] h = absurd (omega arith)
length-before_first c (t ∷ ts) h = refl

-- One field more than separators.
length-split : (sep : ℕ) (t : Text) → length (split sep t) ≡ suc (count (λ c. c == sep) t)
unfolding split
length-split sep [] = refl
length-split sep (c ∷ cs) =
    ground (arith, length-split sep cs, length-before_first c (split sep cs))

abbrev pub is_tab : ℕ → Bool
is_tab c = c == b'\t'

module _ (is_space : ℕ → Bool) where
  -- A line that is no comment, and not blank.
  abbrev pub is_entry : Text → Bool
  is_entry l = not (is_skipped (strip is_space l))

  -- An entry without exactly six tabs, blanks at its ends left out.
  abbrev pub is_broken : Text → Bool
  is_broken l = is_entry l && not (count is_tab (strip is_space l) == 6)

  abbrev Taken : Result String ℕ → ℕ → ℕ → Type 0
  Taken r broken m = ((broken ≡ 0) × (r ≡ ok m)) ⊎ ((0 < broken) × ((e : String) × (r ≡ err e)))

  fields_seven : (l : Text) → (fields l == 7) ≡ (count is_tab l == 6)
  fields_seven l = ground (arith, length-split b'\t' l)

  valid_entries-Taken :
      (provider : String) (ls : List Text) (n : ℕ)
      → Taken (valid_entries is_space provider n ls) (count is_broken ls) (n + count is_entry ls)
  unfolding valid_entries
  valid_entries-Taken provider [] n = inl (refl, ap (λ m. ok m) (omega arith))
  valid_entries-Taken provider (l ∷ ls) n = elim (Bool-cases (is_skipped (strip is_space l))) [
    | inl e ↦ rw e (valid_entries-Taken provider ls n)
    | inr e ↦ elim (Bool-cases (count is_tab (strip is_space l) == 6)) [
      | inl f ↦
          rw (e, fields_seven (strip is_space l), f)
            (subst (Taken (valid_entries is_space provider (suc n) ls) (count is_broken ls))
              (omega arith) (valid_entries-Taken provider ls (suc n)))
      | inr f ↦ rw (e, fields_seven (strip is_space l), f) (inr (omega arith, (_, refl)))
    ]
  ]

  concluded_exact :
      (provider : String) (r : Result String ℕ) (broken m : ℕ)
      → Taken r broken m
      → (concluded provider r ≡ ok true) ↔ ((broken ≡ 0) × (0 < m))
  concluded_exact provider r broken m (inl (b, e)) = rw e (ground arith)
  concluded_exact provider r broken m (inr (b, (e, q))) =
      rw q (λ h. absurd cc, λ h. absurd (omega (arith, h.0)))

  format_exact :
      (t : Text) (provider : String)
      → ((elim t as (λ x. Result String Bool) [
        | [] ↦ err (empty_message provider)
        | c ∷ cs ↦ concluded provider (valid_entries is_space provider 0 (split b'\n' (c ∷ cs)))
      ])
          ≡ ok true)
        ↔ ((count is_broken (split b'\n' t) ≡ 0) × (0 < count is_entry (split b'\n' t)))
  unfolding split strip
  format_exact [] provider = (λ h. absurd cc, λ h. absurd (omega (arith, h.1)))
  format_exact (c ∷ cs) provider = concluded_exact provider _ _ _ (
      subst (Taken (valid_entries is_space provider 0 (split b'\n' (c ∷ cs))) _) (omega arith)
        (valid_entries-Taken provider (split b'\n' (c ∷ cs)) 0))

  -- A text passes exactly if, blanks at its ends left out, some line is an entry, neither blank nor
  -- a comment, and each entry has six tabs between its first and last characters that are no blanks.
  pub validate_netscape_format_exact :
      (content : Text) (provider : String)
      → (validate_netscape_format is_space content provider ≡ ok true) ↔ (
          (count is_broken (split b'\n' (strip is_space content)) ≡ 0)
          × (0 < count is_entry (split b'\n' (strip is_space content))))
  unfolding validate_netscape_format
  validate_netscape_format_exact content provider = format_exact (strip is_space content) provider
