-- ===== src/Prelude/Int.antt =====
-- Signed integers over the native numbers: what the source takes as `int`, and exact multiples
-- of a float's unit. `omega` works with sums through their two parts.
use Prim.Native.Nat.{ℕ, suc, ◌+◌, ◌-◌, ◌*◌, ◌≤◌, min}
use mathlib.Core.Path.{◌≡◌, refl}
use mathlib.Core.Bool.{Bool}
use native.Mathlib.Omega.{arith}
use yt_dlp_api.Prelude.Tests.{leb, if◌then◌else◌}

-- `negsuc n` is -(n + 1).
pub data ℤ : Type 0 where
  pos : ℕ → ℤ
  negsuc : ℕ → ℤ

abbrev pub pos_part : ℤ → ℕ
pos_part (pos n) = n
pos_part (negsuc n) = 0

abbrev pub neg_part : ℤ → ℕ
neg_part (pos n) = 0
neg_part (negsuc n) = suc n

-- a - b, as an integer.
abbrev pub sub_ℕ : ℕ → ℕ → ℤ
sub_ℕ a b = if leb b a then pos (a - b) else negsuc (b - a - 1)

infixl 65 ◌+ℤ◌
infix 50 ◌≤ℤ◌
unfoldable pub ◌+ℤ◌ : ℤ → ℤ → ℤ
a +ℤ b = sub_ℕ (pos_part a + pos_part b) (neg_part a + neg_part b)

abbrev pub ◌≤ℤ◌ : ℤ → ℤ → Type 0
a ≤ℤ b = pos_part a + neg_part b ≤ pos_part b + neg_part a

-- `a <= b`
abbrev pub leb_ℤ : ℤ → ℤ → Bool
leb_ℤ a b = leb (pos_part a + neg_part b) (pos_part b + neg_part a)

abbrev pub min_ℤ : ℤ → ℤ → ℤ
min_ℤ a b = if leb_ℤ a b then a else b

abbrev pub max_ℤ : ℤ → ℤ → ℤ
max_ℤ a b = if leb_ℤ a b then b else a

pub +ℤ_parts :
    (a b : ℤ)
    → pos_part (a +ℤ b) + neg_part a + neg_part b ≡ neg_part (a +ℤ b) + pos_part a + pos_part b
unfolding ◌+ℤ◌
+ℤ_parts a b = ground arith

-- `a * n`
unfoldable pub times_ℤ : ℤ → ℕ → ℤ
times_ℤ (pos a) n = pos (a * n)
times_ℤ (negsuc a) n = sub_ℕ 0 (suc a * n)

pub sub_ℕ_le : (a b : ℕ) → b ≤ a → sub_ℕ a b ≡ pos (a - b)
sub_ℕ_le a b h = ground arith

pub times_sub_ℕ_le : (a b n : ℕ) → b ≤ a → times_ℤ (sub_ℕ a b) n ≡ pos ((a - b) * n)
unfolding times_ℤ
times_sub_ℕ_le a b n h = rw (sub_ℕ_le a b h) refl

-- A sum cut at a bound, where no part is negative.
pub min_ℤ_sum :
    (c d : ℕ) (a : ℤ) → neg_part a ≡ 0 → min_ℤ (pos c) (a +ℤ pos d) ≡ pos (min c (pos_part a + d))
unfolding ◌+ℤ◌
min_ℤ_sum c d (pos n) h = ground arith
min_ℤ_sum c d (negsuc n) h = ground arith

-- A token taken from what has no negative part.
pub add_neg :
    (a : ℤ) (n : ℕ) → neg_part a ≡ 0 → n ≤ pos_part a → a +ℤ sub_ℕ 0 n ≡ pos (pos_part a - n)
unfolding ◌+ℤ◌
add_neg (pos m) n h l = ground arith
add_neg (negsuc m) n h l = ground arith
