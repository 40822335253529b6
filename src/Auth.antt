-- ===== src/Auth.antt =====
-- app/middleware/auth.py: who passes the check of API keys. Paths are lists of code points.
pub mod Paths
pub mod Exact
mod Tests
use yt_dlp_api.Prelude.{
  ℕ, String, Bool, true, false, ◌&&◌, ◌||◌, Option, none, some, List, [], ◌∷◌, ◌++◌, length, ltb,
  ◌==◌, if◌then◌else◌, str_eq,
}
use yt_dlp_api.Prelude.Chars.{Text, codes, text_eq, drop_while, reverse, all_chars, starts_with}
use yt_dlp_api.Prelude.Text.{truthy}

-- The set of keys is a list without repetition, in any order.
pub record ApiKeyAuth : Type 0 where
  pub api_keys : List String
  pub excluded_paths : List Text

unfoldable pub default_excluded_paths : List Text
default_excluded_paths =
    codes "/health"
    ∷ codes "/liveness"
    ∷ codes "/readiness"
    ∷ codes "/docs"
    ∷ codes "/redoc"
    ∷ codes "/openapi.json"
    ∷ codes "/metrics"
    ∷ []

-- `APIKeyAuth(api_keys, excluded_paths)`
unfoldable pub new_auth : Option (List String) → Option (List Text) → ApiKeyAuth
unfolding default_excluded_paths
new_auth api_keys excluded_paths = record {
  api_keys = elim api_keys [ none ↦ [] | some ks ↦ ks ];
  excluded_paths = elim excluded_paths [ none ↦ default_excluded_paths | some ps ↦ ps ];
}

abbrev pub allow_all : ApiKeyAuth → Bool
allow_all a = length a.api_keys == 0

-- `path.rstrip("/")`, or "/" if nothing is left
unfoldable pub normalize_path : Text → Text
normalize_path path = elim (reverse (drop_while (λ c. c == b'/') (reverse path))) [
  | [] ↦ b'/' ∷ []
  | c ∷ cs ↦ c ∷ cs
]

abbrev pub matches_any : Text → List Text → Bool
matches_any path [] = false
matches_any path (e ∷ es) =
    (text_eq path e || starts_with (e ++ b'/' ∷ []) path) || matches_any path es

unfoldable pub is_path_excluded : ApiKeyAuth → Text → Bool
unfolding normalize_path
is_path_excluded a path = matches_any (normalize_path path) a.excluded_paths

unfoldable pub is_ascii : String → Bool
is_ascii s = all_chars (λ c. ltb c 128) (codes s)

-- `hmac.compare_digest` of texts; none: the TypeError for a text that is not ASCII.
unfoldable pub compare_digest : String → String → Option Bool
unfolding is_ascii
compare_digest api_key valid_key =
    if is_ascii api_key && is_ascii valid_key then some (str_eq valid_key api_key) else none

-- `any(…)` over the keys
unfoldable pub any_digest : String → List String → Option Bool
unfolding compare_digest
any_digest api_key [] = some false
any_digest api_key (k ∷ ks) =
    let rest = any_digest api_key ks in
    elim (compare_digest api_key k) [ none ↦ none | some b ↦ if b then some true else rest ]

-- none: the TypeError.
unfoldable pub validate_api_key : ApiKeyAuth → Option String → Option Bool
unfolding any_digest
validate_api_key a api_key =
    if allow_all a
    then some true
    else elim (truthy api_key) [ none ↦ some false | some k ↦ any_digest k a.api_keys ]

-- The end of `authenticate`: True, the HTTPException 401, or the TypeError.
pub data Authentication : Type 0 where
  authenticated unauthorized type_error : Authentication

-- What is made of the check of the key.
abbrev pub concluded : Option Bool → Authentication
concluded none = type_error
concluded (some b) = if b then authenticated else unauthorized

unfoldable pub authenticate : ApiKeyAuth → Text → Option String → Authentication
unfolding is_path_excluded validate_api_key
authenticate a path api_key =
    if is_path_excluded a path then authenticated else concluded (validate_api_key a api_key)

-- The end of a route with `require_api_key`: the key, or an error.
unfoldable pub require_api_key : ApiKeyAuth → Text → Option String → Authentication × Option String
unfolding authenticate
require_api_key a path api_key = elim (authenticate a path api_key) [
  | authenticated ↦ elim api_key [ none ↦ (unauthorized, none) | some k ↦ (authenticated, some k) ]
  | unauthorized ↦ (unauthorized, none)
  | type_error ↦ (type_error, none)
]
