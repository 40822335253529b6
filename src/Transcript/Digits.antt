-- ===== src/Transcript/Digits.antt =====
-- The digits that app/utils/transcript.py writes in its timestamps: their number, the value that
-- they have, and the parts between separators.
use yt_dlp_api.Prelude.{
  ℕ, zero, suc, ◌+◌, ◌-◌, ◌*◌, ◌/◌, ◌%◌, ◌≤◌, ◌<◌, Bool, true, false, not, ◌&&◌, [], ◌∷◌, ◌++◌, ◌≡◌,
  refl, ap, ◌∙◌, inl, inr, arith, length, ltb, leb, ◌==◌, Bool-cases,
}
use yt_dlp_api.Prelude.Chars.{Text, split, all_chars, digits, digits_fuel}
use yt_dlp_api.Transcript.{zeros, padded}

-- The number that digits write.
abbrev pub int_from : ℕ → Text → ℕ
int_from n [] = n
int_from n (c ∷ cs) = int_from (n * 10 + (c - b'0')) cs

abbrev pub is_digit : ℕ → Bool
is_digit c = leb b'0' c && leb c b'9'

int_from-digits_fuel :
    (f n : ℕ) (rest : Text) → n < f → int_from 0 (digits_fuel f n rest) ≡ int_from n rest
unfolding digits_fuel
int_from-digits_fuel zero n rest h = absurd (omega arith)
int_from-digits_fuel (suc f) n rest h = elim (Bool-cases (ltb n 10)) [
  | inl e ↦ rw e (ap (λ m. int_from m rest) (omega arith))
  | inr e ↦
      let big : 10 ≤ n = ground arith in
      rw e (
        int_from-digits_fuel f (n / 10) ((b'0' + n % 10) ∷ rest) (omega arith)
        ∙ ap (λ m. int_from m rest) (omega arith))
]

int_from-zeros : (k : ℕ) (t : Text) → int_from 0 (zeros k ++ t) ≡ int_from 0 t
int_from-zeros zero t = refl
int_from-zeros (suc k) t = int_from-zeros k t

pub int_from-padded : (w n : ℕ) → int_from 0 (padded w n) ≡ n
unfolding padded digits
int_from-padded w n =
    int_from-zeros (w - length (digits n)) (digits n)
    ∙ int_from-digits_fuel (suc n) n [] (omega arith)

digits_fuel_all :
    (f n : ℕ) (rest : Text)
    → all_chars is_digit rest ≡ true
    → all_chars is_digit (digits_fuel f n rest) ≡ true
unfolding digits_fuel
digits_fuel_all zero n rest h = h
digits_fuel_all (suc f) n rest h = elim (Bool-cases (ltb n 10)) [
  | inl e ↦ rw e (ground arith)
  | inr e ↦ rw e (digits_fuel_all f (n / 10) ((b'0' + n % 10) ∷ rest) (ground arith))
]

zeros_all :
    (k : ℕ) (t : Text) → all_chars is_digit t ≡ true → all_chars is_digit (zeros k ++ t) ≡ true
zeros_all zero t h = h
zeros_all (suc k) t h = ground (arith, zeros_all k t h)

pub padded_all : (w n : ℕ) → all_chars is_digit (padded w n) ≡ true
unfolding padded digits
padded_all w n = zeros_all (w - length (digits n)) (digits n) (digits_fuel_all (suc n) n [] refl)

-- Digits before a separator are one part.
pub split-append :
    (sep : ℕ) (t rest : Text)
    → is_digit sep ≡ false
    → all_chars is_digit t ≡ true
    → split sep (t ++ sep ∷ rest) ≡ t ∷ split sep rest
unfolding split
split-append sep [] rest n h = ground arith
split-append sep (c ∷ t) rest n h = ground (arith, split-append sep t rest n)

abbrev pub free_of : ℕ → Text → Bool
free_of sep t = all_chars (λ c. not (c == sep)) t

pub split-free_of : (sep : ℕ) (t : Text) → free_of sep t ≡ true → split sep t ≡ t ∷ []
unfolding split
split-free_of sep [] h = refl
split-free_of sep (c ∷ t) h = ground (arith, split-free_of sep t)

pub digits-free_of :
    (sep : ℕ) (t : Text) → is_digit sep ≡ false → all_chars is_digit t ≡ true → free_of sep t ≡ true
digits-free_of sep [] n h = refl
digits-free_of sep (c ∷ t) n h = ground (arith, digits-free_of sep t n)

pub append-free_of :
    (sep : ℕ) (s t : Text)
    → free_of sep s ≡ true
    → free_of sep t ≡ true
    → free_of sep (s ++ t) ≡ true
append-free_of sep [] t h k = k
append-free_of sep (c ∷ s) t h k = ground (arith, append-free_of sep s t)

length-zeros : (k : ℕ) (t : Text) → length (zeros k ++ t) ≡ k + length t
length-zeros zero t = omega arith
length-zeros (suc k) t = omega (arith, length-zeros k t)

-- The digits of a small number.
length-digits_one :
    (f n : ℕ) (rest : Text) → n < f → n < 10 → length (digits_fuel f n rest) ≤ 1 + length rest
unfolding digits_fuel
length-digits_one zero n rest g h = absurd (omega arith)
length-digits_one (suc f) n rest g h =
    let small : ltb n 10 ≡ true = ground arith in rw small (omega arith)

length-digits_two :
    (f n : ℕ) (rest : Text) → n < f → n < 100 → length (digits_fuel f n rest) ≤ 2 + length rest
unfolding digits_fuel
length-digits_two zero n rest g h = absurd (omega arith)
length-digits_two (suc f) n rest g h = elim (Bool-cases (ltb n 10)) [
  | inl e ↦ rw e (omega arith)
  | inr e ↦
      let big : 10 ≤ n = ground arith in
      let t = (b'0' + n % 10) ∷ rest in
      rw e (omega (arith, length-digits_one f (n / 10) t (omega arith) (omega arith)))
]

length-digits_three :
    (f n : ℕ) (rest : Text) → n < f → n < 1000 → length (digits_fuel f n rest) ≤ 3 + length rest
unfolding digits_fuel
length-digits_three zero n rest g h = absurd (omega arith)
length-digits_three (suc f) n rest g h = elim (Bool-cases (ltb n 10)) [
  | inl e ↦ rw e (omega arith)
  | inr e ↦
      let big : 10 ≤ n = ground arith in
      let t = (b'0' + n % 10) ∷ rest in
      rw e (omega (arith, length-digits_two f (n / 10) t (omega arith) (omega arith)))
]

length-padded : (w n : ℕ) → length (digits n) ≤ w → length (padded w n) ≡ w
unfolding padded
length-padded w n h = omega (arith, length-zeros (w - length (digits n)) (digits n))

pub le-length-padded : (w n : ℕ) → w ≤ length (padded w n)
unfolding padded
le-length-padded w n = omega (arith, length-zeros (w - length (digits n)) (digits n))

pub length-padded_two : (n : ℕ) → n < 100 → length (padded 2 n) ≡ 2
unfolding digits
length-padded_two n h =
    length-padded 2 n (omega (arith, length-digits_two (suc n) n [] (omega arith) h))

pub length-padded_three : (n : ℕ) → n < 1000 → length (padded 3 n) ≡ 3
unfolding digits
length-padded_three n h =
    length-padded 3 n (omega (arith, length-digits_three (suc n) n [] (omega arith) h))
