-- ===== src/Prelude/Lists.antt =====
-- Lists measured and cut by native numbers, filtered by Boolean tests, and tested for membership.
use Prim.Native.Nat.{ℕ, zero, suc, ◌+◌, min}
use mathlib.Core.Path.{◌≡◌, refl}
use mathlib.Core.Bool.{Bool, true, false, ◌||◌}
use mathlib.Core.Option.{Option, none, some}
use mathlib.Core.List.{List, [], ◌∷◌, ◌++◌}
use native.Mathlib.Omega.{arith}
use Prim.Native.String.{String}
use text.Mathlib.Text.{◌==◌ as str_eq}
use text.Mathlib.TextEquality.{eq_iff}
use yt_dlp_api.Prelude.Tests.{if◌then◌else◌}

module _ {ℓ} {A : Type ℓ} where
  abbrev pub length : List A → ℕ
  length [] = 0
  length (x ∷ xs) = suc (length xs)

  abbrev pub take : ℕ → List A → List A
  take zero xs = []
  take (suc n) [] = []
  take (suc n) (x ∷ xs) = x ∷ take n xs

  abbrev pub get_elem? : List A → ℕ → Option A
  get_elem? [] i = none
  get_elem? (x ∷ xs) zero = some x
  get_elem? (x ∷ xs) (suc i) = get_elem? xs i

  -- `[x for x in xs if p(x)]`
  abbrev pub filter : (A → Bool) → List A → List A
  filter p [] = []
  filter p (x ∷ xs) = let rest = filter p xs in if p x then x ∷ rest else rest

  -- `sum(1 for x in xs if p(x))`
  abbrev pub count : (A → Bool) → List A → ℕ
  count p [] = 0
  count p (x ∷ xs) = if p x then suc (count p xs) else count p xs

  -- Every element meets the predicate.
  abbrev pub All {κ} : (A → Type κ) → List A → Type κ
  All P [] = Unit
  All P (x ∷ xs) = P x × All P xs

  pub length-append : (xs ys : List A) → length (xs ++ ys) ≡ length xs + length ys
  length-append [] ys = omega arith
  length-append (x ∷ xs) ys = omega (arith, length-append xs ys)

  pub length-take : (n : ℕ) (xs : List A) → length (take n xs) ≡ min n (length xs)
  length-take zero xs = omega arith
  length-take (suc n) [] = omega arith
  length-take (suc n) (x ∷ xs) = omega (arith, length-take n xs)

  pub length-filter : (p : A → Bool) (xs : List A) → length (filter p xs) ≡ count p xs
  length-filter p [] = refl
  length-filter p (x ∷ xs) = ground (arith, length-filter p xs)

  pub count-append : (p : A → Bool) (xs ys : List A) → count p (xs ++ ys) ≡ count p xs + count p ys
  count-append p [] ys = omega arith
  count-append p (x ∷ xs) ys = ground (arith, count-append p xs ys)

  pub filter-append :
      (p : A → Bool) (xs ys : List A) → filter p (xs ++ ys) ≡ filter p xs ++ filter p ys
  filter-append p [] ys = refl
  filter-append p (x ∷ xs) ys = ground (arith, filter-append p xs ys)

-- `s in xs` for texts.
abbrev pub member : String → List String → Bool
member s [] = false
member s (x ∷ xs) = str_eq x s || member s xs

-- `xs.remove(s)`, for a set as a list without repetition; every occurrence goes.
abbrev pub discard : String → List String → List String
discard s [] = []
discard s (x ∷ xs) = let rest = discard s xs in if str_eq x s then rest else x ∷ rest

-- `xs.add(s)` for a set.
abbrev pub add_member : String → List String → List String
add_member s xs = if member s xs then xs else s ∷ xs

-- No text twice.
abbrev pub Distinct : List String → Type 0
Distinct [] = Unit
Distinct (x ∷ xs) = (member x xs ≡ false) × Distinct xs

pub member-discard :
    (s t : String) (xs : List String)
    → member t (discard s xs) ≡ (if str_eq s t then false else member t xs)
member-discard s t [] = ground arith
member-discard s t (x ∷ xs) =
    ground (arith, eq_iff x s, eq_iff x t, eq_iff s t, member-discard s t xs)

pub member-add_member :
    (s t : String) (xs : List String) → member t (add_member s xs) ≡ (str_eq s t || member t xs)
member-add_member s t xs = ground (arith, eq_iff s t)

pub discard-Distinct : (s : String) (xs : List String) → Distinct xs → Distinct (discard s xs)
discard-Distinct s [] d = tt
discard-Distinct s (x ∷ xs) d = ground (arith, discard-Distinct s xs d.1, member-discard s x xs)

pub discard_absent : (s : String) (xs : List String) → member s xs ≡ false → discard s xs ≡ xs
discard_absent s [] h = refl
discard_absent s (x ∷ xs) h = ground (arith, discard_absent s xs)

pub length-discard :
    (s : String) (xs : List String)
    → Distinct xs
    → member s xs ≡ true
    → suc (length (discard s xs)) ≡ length xs
length-discard s [] d h = ground arith
length-discard s (x ∷ xs) d h =
    ground (arith, eq_iff x s, length-discard s xs d.1, discard_absent s xs)

pub add_member-Distinct : (s : String) (xs : List String) → Distinct xs → Distinct (add_member s xs)
add_member-Distinct s xs d = ground arith
