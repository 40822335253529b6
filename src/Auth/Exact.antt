-- ===== src/Auth/Exact.antt =====
-- app/middleware/auth.py: the requests that pass.
use yt_dlp_api.Prelude.{
  String, Bool, true, false, Option, none, some, List, [], ◌∷◌, ◌≡◌, ◌⊎◌, inl, inr, refl, ap, ◌∙◌,
  subst, arith, length, ◌==◌, str_eq, eq_iff, member, All, Bool-cases, Option-cases,
}
use yt_dlp_api.Prelude.Chars.{Text}
use yt_dlp_api.Prelude.Text.{truthy}
use yt_dlp_api.Auth.{
  ApiKeyAuth, allow_all, normalize_path, is_path_excluded, is_ascii, compare_digest, any_digest,
  validate_api_key, Authentication, authenticated, unauthorized, type_error, concluded,
  authenticate,
}
use yt_dlp_api.Auth.Paths.{IsCovered, is_path_excluded_exact}

abbrev pub AllAscii : List String → Type 0
AllAscii ks = All (λ k. is_ascii k ≡ true) ks

any_digest-member :
    (k : String) (ks : List String)
    → is_ascii k ≡ true
    → AllAscii ks
    → any_digest k ks ≡ some (member k ks)
unfolding any_digest compare_digest
any_digest-member k [] a h = refl
any_digest-member k (x ∷ xs) a h = elim (Bool-cases (str_eq x k)) [
  | inl e ↦ rw (a, h.0, e, any_digest, compare_digest) refl
  | inr e ↦ rw (a, h.0, e, any_digest, compare_digest) (any_digest-member k xs a h.1)
]

any_digest_raises :
    (k x : String) (xs : List String) → is_ascii k ≡ false → any_digest k (x ∷ xs) ≡ none
unfolding any_digest compare_digest
any_digest_raises k x xs a = rw (a, any_digest, compare_digest) refl

member_ascii :
    (k : String) (ks : List String) → AllAscii ks → member k ks ≡ true → is_ascii k ≡ true
member_ascii k [] h m = absurd cc
member_ascii k (x ∷ xs) h m = elim (Bool-cases (str_eq x k)) [
  | inl e ↦ subst (λ s. is_ascii s ≡ true) ((eq_iff x k).0 e) h.0
  | inr e ↦ member_ascii k xs h.1 (rw e at m)
]

list_cases : (ks : List String) → (ks ≡ []) ⊎ ((x : String) × (xs : List String) × (ks ≡ x ∷ xs))
list_cases [] = inl refl
list_cases (x ∷ xs) = inr (x, xs, refl)

-- How a request that is not excluded ends, with keys configured.
pub data Judges (ks : List String) : Option String → Authentication → Type 0 where
  no_key : (key : Option String) → truthy key ≡ none → Judges ks key unauthorized
  odd_key :
      (key : Option String) (k : String)
      → truthy key ≡ some k
      → is_ascii k ≡ false
      → Judges ks key type_error
  known_key :
      (key : Option String) (k : String)
      → truthy key ≡ some k
      → member k ks ≡ true
      → Judges ks key authenticated
  wrong_key :
      (key : Option String) (k : String)
      → truthy key ≡ some k
      → is_ascii k ≡ true
      → member k ks ≡ false
      → Judges ks key unauthorized

-- How any request ends.
pub data Authenticates (a : ApiKeyAuth) (path : Text) (key : Option String) (r : Authentication)
    : Type 0 where
  excluded :
      IsCovered (normalize_path path) a.excluded_paths
      → r ≡ authenticated
      → Authenticates a path key r
  unprotected : a.api_keys ≡ [] → r ≡ authenticated → Authenticates a path key r
  judged :
      (IsCovered (normalize_path path) a.excluded_paths → ⊥)
      → Judges a.api_keys key r
      → Authenticates a path key r

key_judged :
    (ks : List String) (x : String) (xs : List String) (key : Option String)
    → ks ≡ x ∷ xs
    → AllAscii ks
    → Judges ks key (
        concluded (elim (truthy key) as (λ t. Option Bool) [
          | none ↦ some false
          | some k ↦ any_digest k ks
        ]))
key_judged ks x xs key q h = elim (Option-cases (truthy key)) [
  | inl n ↦ rw n (no_key key n)
  | inr (k, t) ↦ elim (Bool-cases (is_ascii k)) [
    | inr o ↦ rw (t, q, any_digest_raises k x xs o) (odd_key key k t o)
    | inl o ↦ elim (Bool-cases (member k ks)) [
      | inl m ↦ rw (t, any_digest-member k ks o h, m) (known_key key k t m)
      | inr m ↦ rw (t, any_digest-member k ks o h, m) (wrong_key key k t o m)
    ]
  ]
]

-- Where all the keys are ASCII, `authenticate` ends in one of three ways. A path that is excluded,
-- or below an excluded one, passes, and so does every path where no keys are configured. On any
-- other path a request passes exactly with one of the keys; without a key, or with an empty one, or
-- another one in ASCII, it is refused with 401; and a key that is not ASCII ends in a TypeError.
pub authenticate-Authenticates :
    (a : ApiKeyAuth) (path : Text) (key : Option String)
    → AllAscii a.api_keys
    → Authenticates a path key (authenticate a path key)
unfolding authenticate validate_api_key
authenticate-Authenticates a path key h = elim (Bool-cases (is_path_excluded a path)) [
  | inl e ↦ excluded ((is_path_excluded_exact a path).0 e) (rw (e, authenticate) refl)
  | inr e ↦ elim (list_cases a.api_keys) [
    | inl n ↦ unprotected n (rw (e, n, authenticate, validate_api_key) refl)
    | inr (x, xs, q) ↦
        let some_keys : allow_all a ≡ false = ap (λ ks. length ks == 0) q ∙ ground arith in
        rw (e, authenticate)
          (judged (λ c. let k = (is_path_excluded_exact a path).1 c in absurd cc)
            (rw (some_keys, validate_api_key) (key_judged a.api_keys x xs key q h)))
  ]
]
