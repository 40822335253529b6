-- ===== src/Template/Clean.antt =====
-- app/core/template.py: the characters of a sanitized name.
use yt_dlp_api.Prelude.{
  ℕ, zero, suc, ◌≤◌, Bool, false, Option, none, some, [], ◌∷◌, ◌++◌, map, ◌≡◌, ◌≢◌, subst, arith,
  inl, inr, Bool-cases, Option-cases, take, ◌==◌,
}
use yt_dlp_api.Prelude.Chars.{Text, drop_while, reverse, strip}
use yt_dlp_api.Template.{illegal_chars, replace_char, replace_all, is_dot, rsplit}

-- A printable character, and none of a list.
abbrev pub Avoids : Text → ℕ → Type 0
Avoids [] c = 32 ≤ c
Avoids (x ∷ xs) c = (c ≢ x) × Avoids xs c

-- No control character and none of the illegal characters.
abbrev pub IsClean : ℕ → Type 0
IsClean c = Avoids illegal_chars c

abbrev pub AllClean : Text → Type 0
AllClean [] = Unit
AllClean (c ∷ cs) = IsClean c × AllClean cs

pub AllClean-append : (s t : Text) → AllClean s → AllClean t → AllClean (s ++ t)
AllClean-append [] t h k = k
AllClean-append (c ∷ s) t h k = (h.0, AllClean-append s t h.1 k)

pub AllClean-take : (n : ℕ) (t : Text) → AllClean t → AllClean (take n t)
AllClean-take zero t h = tt
AllClean-take (suc n) [] h = tt
AllClean-take (suc n) (c ∷ t) h = (h.0, AllClean-take n t h.1)

AllClean-reverse : (t : Text) → AllClean t → AllClean (reverse t)
AllClean-reverse [] h = tt
AllClean-reverse (c ∷ t) h = AllClean-append (reverse t) (c ∷ []) (AllClean-reverse t h.1) (h.0, tt)

AllClean-drop_while : (p : ℕ → Bool) (t : Text) → AllClean t → AllClean (drop_while p t)
AllClean-drop_while p [] h = tt
AllClean-drop_while p (c ∷ t) h = elim (Bool-cases (p c)) [
  | inl e ↦ rw e (AllClean-drop_while p t h.1)
  | inr e ↦ rw e h
]

pub AllClean-strip : (p : ℕ → Bool) (t : Text) → AllClean t → AllClean (strip p t)
unfolding strip
AllClean-strip p t h = AllClean-reverse (drop_while p (reverse (drop_while p t))) (
    AllClean-drop_while p (reverse (drop_while p t))
      (AllClean-reverse (drop_while p t) (AllClean-drop_while p t h)))

-- The text before and after the last dot.
abbrev pub PartsClean : Option (Text × Text) → Type 0
PartsClean none = Unit
PartsClean (some (name, ext)) = AllClean name × AllClean ext

pub rsplit-PartsClean : (t : Text) → AllClean t → PartsClean (rsplit t)
unfolding rsplit
rsplit-PartsClean [] h = tt
rsplit-PartsClean (c ∷ t) h = elim (Option-cases (rsplit t)) [
  | inl n ↦ rw n (elim (Bool-cases (is_dot c)) [ inl e ↦ rw e (tt, h.1) | inr e ↦ rw e tt ])
  | inr ((x, y), g) ↦ let i = subst PartsClean g (rsplit-PartsClean t h.1) in rw g ((h.0, i.0), i.1)
]

-- All of a text avoid a list.
abbrev pub AllAvoid : Text → Text → Type 0
AllAvoid xs [] = Unit
AllAvoid xs (c ∷ cs) = Avoids xs c × AllAvoid xs cs

-- The characters replaced, added to those that were.
abbrev pub rev_onto : Text → Text → Text
rev_onto [] done = done
rev_onto (x ∷ xs) done = rev_onto xs (x ∷ done)

Avoids-back : (xs done : Text) (c : ℕ) → Avoids (rev_onto xs done) c → Avoids done c
Avoids-back [] done c h = h
Avoids-back (x ∷ xs) done c h = (Avoids-back xs (x ∷ done) c h).1

differs : (c x : ℕ) → (c == x) ≡ false → c ≢ x
differs c x e = ground arith

replaced-AllAvoid :
    (x : ℕ) (done t : Text)
    → Avoids (x ∷ done) 95
    → AllAvoid done t
    → AllAvoid (x ∷ done) (map (replace_char x) t)
replaced-AllAvoid x done [] u h = tt
replaced-AllAvoid x done (c ∷ t) u h = (
  elim (Bool-cases (c == x)) [ inl e ↦ rw e u | inr e ↦ rw e (differs c x e, h.0) ],
  replaced-AllAvoid x done t u h.1,
)

pub replace_all-AllAvoid :
    (xs done t : Text)
    → Avoids (rev_onto xs done) 95
    → AllAvoid done t
    → AllAvoid (rev_onto xs done) (replace_all xs t)
unfolding replace_all
replace_all-AllAvoid [] done t u h = h
replace_all-AllAvoid (x ∷ xs) done t u h =
    replace_all-AllAvoid xs (x ∷ done) (map (replace_char x) t) u
      (replaced-AllAvoid x done t (Avoids-back xs (x ∷ done) 95 u) h)
