-- ===== src/RateLimiter/Middleware.antt =====
-- app/middleware/rate_limit.py over app/core/rate_limiter.py: which requests are limited, and how.
-- Paths are lists of code points.
pub mod Limited
use yt_dlp_api.Prelude.{
  ℕ, String, Bool, true, false, ◌||◌, Option, none, some, List, [], ◌∷◌, ◌++◌, ◌==◌, if◌then◌else◌,
}
use yt_dlp_api.Prelude.Chars.{Text, codes, text_eq, drop_while, reverse, starts_with}
use yt_dlp_api.Prelude.Dict.{Dict}
use yt_dlp_api.Prelude.Text.{or_else}
use yt_dlp_api.Auth.{normalize_path, matches_any}
use yt_dlp_api.RateLimiter.{RateLimiter, check_rate_limit}
use yt_dlp_api.RateLimiter.Bucket.{Wait, retry_after_header}

-- `self.endpoint_categories[path]`
abbrev pub direct_match : Text → Dict String → Option String
direct_match path [] = none
direct_match path ((endpoint, category) ∷ d) =
    if text_eq path (codes endpoint) then some category else direct_match path d

-- The loop over the endpoints.
abbrev pub prefix_match : Text → Dict String → Option String
prefix_match path [] = none
prefix_match path ((endpoint, category) ∷ d) =
    if starts_with (codes endpoint ++ b'?' ∷ []) path
      || starts_with (codes endpoint ++ b'/' ∷ []) path
    then some category
    else prefix_match path d

unfoldable pub get_endpoint_category : Dict String → Text → Option String
get_endpoint_category categories path =
    let p = reverse (drop_while (λ c. c == b'/') (reverse path)) in
    elim (direct_match p categories) [ some c ↦ some c | none ↦ prefix_match p categories ]

-- A request, with its X-API-Key header.
pub record HttpRequest : Type 0 where
  pub time : ℕ
  pub path : Text
  pub api_key : Option String

-- The request goes on to its handler, is answered 429 with a Retry-After header, or meets the
-- KeyError of a category without limits.
pub data Response : Type 0 where
  passed : Response
  too_many_requests : ℕ → Response
  server_error : Response

abbrev pub response_of : Option (Bool × Wait) → Response
response_of none = server_error
response_of (some (allowed, wait)) =
    if allowed then passed else too_many_requests (retry_after_header wait)

-- The category in which a request is limited, if it is.
unfoldable pub limited_in : List Text → Dict String → Text → Option String
unfolding get_endpoint_category
limited_in excluded_paths categories path =
    if matches_any (normalize_path path) excluded_paths
    then none
    else get_endpoint_category categories path

unfoldable pub dispatch : List Text → RateLimiter → HttpRequest → RateLimiter × Response
unfolding limited_in
dispatch excluded_paths s r = elim (limited_in excluded_paths s.endpoint_categories r.path) [
  | none ↦ (s, passed)
  | some category ↦
      let (s', a) = check_rate_limit s r.time (or_else r.api_key "anonymous") category in
      (s', response_of a)
]
