-- ===== src/Template/Unique/Total.antt =====
-- `get_unique_filename` of app/core/template.py: it ends, with a name that is free.
use yt_dlp_api.Prelude.{
  ℕ, zero, suc, ◌+◌, ◌≤◌, ◌<◌, Bool, true, false, ◌≡◌, refl, ap, subst, inl, inr, arith, ltb,
  Bool-cases, le-cases,
}
use yt_dlp_api.Prelude.Chars.{Text}
use yt_dlp_api.Template.Unique.{
  Unique, unique, too_many, or_unnamed_file, name_and_ext, suffixed, find_unique,
  get_unique_filename,
}

module _ (exists : Text → Bool) (limit : ℕ) where
  -- The suffixes from a number on.
  data Finds (parts : Text × Text) (counter : ℕ) (r : Unique) : Type 0 where
    finds :
        (k : ℕ)
        → counter ≤ k
        → k ≤ limit
        → ((j : ℕ) → counter ≤ j → j < k → exists (suffixed parts j) ≡ true)
        → exists (suffixed parts k) ≡ false
        → r ≡ unique (suffixed parts k)
        → Finds parts counter r
    finds_none :
        ((j : ℕ) → counter ≤ j → j ≤ limit → exists (suffixed parts j) ≡ true)
        → r ≡ too_many (suc limit)
        → Finds parts counter r

  earlier :
      (parts : Text × Text) (counter : ℕ) (P : ℕ → Type 0)
      → P counter
      → ((j : ℕ) → suc counter ≤ j → P j)
      → (j : ℕ) → counter ≤ j
      → P j
  earlier parts counter P h g j l = elim (le-cases j counter) [
    | inl e ↦ subst P (omega arith) h
    | inr e ↦ g j (omega arith)
  ]

  Finds-later :
      (parts : Text × Text) (counter : ℕ) (r : Unique)
      → exists (suffixed parts counter) ≡ true
      → Finds parts (suc counter) r
      → Finds parts counter r
  Finds-later parts counter r h (finds k a b g n q) =
      finds k (omega arith) b
        (λ j l m.
          earlier parts counter (λ i. i < k → exists (suffixed parts i) ≡ true) (λ _. h) g j l m)
        n q
  Finds-later parts counter r h (finds_none g q) =
      finds_none
        (λ j l m.
          earlier parts counter (λ i. i ≤ limit → exists (suffixed parts i) ≡ true) (λ _. h) g j l
            m)
        q

  find_unique-Finds :
      (parts : Text × Text) (fuel counter : ℕ)
      → fuel + counter ≡ suc limit
      → 0 < fuel
      → Finds parts counter (find_unique exists limit parts fuel counter)
  unfolding find_unique
  find_unique-Finds parts zero counter e p = absurd (omega arith)
  find_unique-Finds parts (suc fuel) counter e p =
      elim (Bool-cases (exists (suffixed parts counter))) [
        | inr n ↦
            rw (n)
              (finds counter (omega arith) (omega arith) (λ j a b. absurd (omega arith)) n refl)
        | inl h ↦ elim (le-cases (suc counter) limit) [
          | inl more ↦
              let go : ltb limit (suc counter) ≡ false = ground arith in
              rw (h, go)
                (Finds-later parts counter _ h
                  (find_unique-Finds parts fuel (suc counter) (omega arith) (omega arith)))
          | inr last ↦
              let stop : ltb limit (suc counter) ≡ true = ground arith in
              let same : counter ≡ limit = omega arith in
              rw (h, stop)
                (finds_none (λ j a b. subst (λ i. exists (suffixed parts i) ≡ true) (omega arith) h)
                  (ap too_many (omega arith)))
        ]
      ]

  -- How a call may end.
  pub data Uniques (filename : Text) (r : Unique) : Type 0 where
    free :
        exists (or_unnamed_file filename) ≡ false
        → r ≡ unique (or_unnamed_file filename)
        → Uniques filename r
    numbered :
        (k : ℕ)
        → exists (or_unnamed_file filename) ≡ true
        → 1 ≤ k
        → k ≤ limit
        → ((j : ℕ)
            → 1 ≤ j
            → j < k
            → exists (suffixed (name_and_ext (or_unnamed_file filename)) j) ≡ true)
        → exists (suffixed (name_and_ext (or_unnamed_file filename)) k) ≡ false
        → r ≡ unique (suffixed (name_and_ext (or_unnamed_file filename)) k)
        → Uniques filename r
    all_taken :
        exists (or_unnamed_file filename) ≡ true
        → ((j : ℕ)
            → 1 ≤ j
            → j ≤ limit
            → exists (suffixed (name_and_ext (or_unnamed_file filename)) j) ≡ true)
        → r ≡ too_many (suc limit)
        → Uniques filename r

  Finds-Uniques :
      (filename : Text) (r : Unique)
      → exists (or_unnamed_file filename) ≡ true
      → Finds (name_and_ext (or_unnamed_file filename)) 1 r
      → Uniques filename r
  Finds-Uniques filename r h (finds k a b g n q) = numbered k h a b g n q
  Finds-Uniques filename r h (finds_none g q) = all_taken h g q

  -- Where the limit is positive, as it is in the code, `get_unique_filename` ends: with the name
  -- itself ("unnamed" for an empty one) if it is free, with the least suffix from 1 to the limit
  -- that is free, or, if none of them is, with a ValueError.
  pub get_unique_filename_total :
      (filename : Text) → 0 < limit → Uniques filename (get_unique_filename exists limit filename)
  unfolding get_unique_filename
  get_unique_filename_total filename p = elim (Bool-cases (exists (or_unnamed_file filename))) [
    | inr n ↦ rw (n, get_unique_filename) (free n refl)
    | inl h ↦
        rw (h, get_unique_filename)
          (Finds-Uniques filename _ h
            (find_unique-Finds (name_and_ext (or_unnamed_file filename)) limit 1 (omega arith) p))
  ]
