-- ===== src/Auth/Paths.antt =====
-- app/middleware/auth.py: the paths that need no key.
use yt_dlp_api.Prelude.{
  Bool, true, false, ◌||◌, List, [], ◌∷◌, ◌++◌, ◌≡◌, ◌⊎◌, ◌↔◌, inl, inr, refl, arith,
}
use yt_dlp_api.Prelude.Chars.{Text, text_eq, text_eq_sound, starts_with}
use yt_dlp_api.Auth.{ApiKeyAuth, normalize_path, matches_any, is_path_excluded}

-- The path `e`, or one below it.
abbrev pub IsUnder : Text → Text → Type 0
IsUnder e path = (path ≡ e) ⊎ ((rest : Text) × (path ≡ e ++ b'/' ∷ rest))

-- Some path of a list covers it.
pub data IsCovered (path : Text) : List Text → Type 0 where
  here : (e : Text) (es : List Text) → IsUnder e path → IsCovered path (e ∷ es)
  there : (e : Text) (es : List Text) → IsCovered path es → IsCovered path (e ∷ es)

text_eq_same : (t : Text) → text_eq t t ≡ true
text_eq_same [] = refl
text_eq_same (c ∷ cs) = ground (arith, text_eq_same cs)

starts_with_rest :
    (p t : Text) → starts_with (p ++ b'/' ∷ []) t ≡ true → (rest : Text) × (t ≡ p ++ b'/' ∷ rest)
starts_with_rest [] [] h = absurd cc
starts_with_rest [] (c ∷ t) h = (t, ground arith)
starts_with_rest (p ∷ ps) [] h = absurd cc
starts_with_rest (p ∷ ps) (c ∷ t) h =
    let ih = starts_with_rest ps t (ground arith) in (ih.0, ground (arith, ih.1))

starts_with_append : (p rest : Text) → starts_with (p ++ b'/' ∷ []) (p ++ b'/' ∷ rest) ≡ true
starts_with_append [] rest = ground arith
starts_with_append (p ∷ ps) rest = ground (arith, starts_with_append ps rest)

or_true : (a b : Bool) → a || b ≡ true → (a ≡ true) ⊎ (b ≡ true)
or_true true b h = inl refl
or_true false b h = inr h

matches_any-IsCovered :
    (path : Text) (es : List Text) → matches_any path es ≡ true → IsCovered path es
matches_any-IsCovered path [] h = absurd cc
matches_any-IsCovered path (e ∷ es) h = elim (or_true _ (matches_any path es) h) [
  | inr later ↦ there e es (matches_any-IsCovered path es later)
  | inl now ↦ elim (or_true (text_eq path e) _ now) [
    | inl same ↦ here e es (inl (text_eq_sound path e same))
    | inr below ↦ here e es (inr (starts_with_rest e path below))
  ]
]

under_matches :
    (path e : Text) → IsUnder e path → (text_eq path e || starts_with (e ++ b'/' ∷ []) path) ≡ true
under_matches path e (inl q) = rw (q, text_eq_same e) refl
under_matches path e (inr (rest, q)) = rw (q, starts_with_append e rest) (ground arith)

IsCovered-matches_any :
    (path : Text) (es : List Text) → IsCovered path es → matches_any path es ≡ true
IsCovered-matches_any path _ (here e es u) = rw (under_matches path e u) refl
IsCovered-matches_any path _ (there e es c) = rw (IsCovered-matches_any path es c) (ground arith)

-- A path is excluded exactly if, slashes at its end left out, it is an excluded path or one below:
-- a path that only begins like an excluded one is not.
pub is_path_excluded_exact :
    (a : ApiKeyAuth) (path : Text)
    → (is_path_excluded a path ≡ true) ↔ IsCovered (normalize_path path) a.excluded_paths
unfolding is_path_excluded
is_path_excluded_exact a path = (
  matches_any-IsCovered (normalize_path path) a.excluded_paths,
  IsCovered-matches_any (normalize_path path) a.excluded_paths,
)
