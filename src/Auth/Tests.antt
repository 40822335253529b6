-- ===== src/Auth/Tests.antt =====
-- Runs of app/middleware/auth.py on small inputs, and the theorem at such an input.
use yt_dlp_api.Prelude.{◌≡◌, refl, true, false, none, some, [], ◌∷◌}
use yt_dlp_api.Prelude.Chars.{codes}
use yt_dlp_api.Auth.{
  ApiKeyAuth, new_auth, default_excluded_paths, normalize_path, is_path_excluded, is_ascii,
  compare_digest, any_digest, validate_api_key, authenticated, type_error, authenticate,
}
use yt_dlp_api.Auth.Exact.{Authenticates, AllAscii, authenticate-Authenticates}

abbrev one_key : ApiKeyAuth
one_key = new_auth (some ("secret" ∷ [])) none

below_docs : is_path_excluded one_key (codes "/docs/oauth2-redirect/") ≡ true
unfolding is_path_excluded normalize_path new_auth default_excluded_paths
below_docs = refl

beside_docs : is_path_excluded one_key (codes "/docs-private") ≡ false
unfolding is_path_excluded normalize_path new_auth default_excluded_paths
beside_docs = refl

with_key : authenticate one_key (codes "/api/v1/jobs") (some "secret") ≡ authenticated
unfolding authenticate is_path_excluded normalize_path new_auth default_excluded_paths
    validate_api_key any_digest compare_digest is_ascii
with_key = refl

odd_key_raises : authenticate one_key (codes "/api/v1/jobs") (some "é") ≡ type_error
unfolding authenticate is_path_excluded normalize_path new_auth default_excluded_paths
    validate_api_key any_digest compare_digest is_ascii
odd_key_raises = refl

one_key_ascii : AllAscii one_key.api_keys
unfolding new_auth is_ascii
one_key_ascii = (refl, tt)

authenticate-Authenticates_example :
    Authenticates one_key
      (codes "/api/v1/jobs")
      (some "secre")
      (authenticate one_key (codes "/api/v1/jobs") (some "secre"))
authenticate-Authenticates_example =
    authenticate-Authenticates one_key (codes "/api/v1/jobs") (some "secre") one_key_ascii
