-- ===== src/RateLimiter/Tests.antt =====
-- app/core/rate_limiter.py: concrete runs, and the theorems at concrete inputs.
use yt_dlp_api.Prelude.{◌+◌, ◌-◌, ◌*◌, ◌≤◌, none, some, List, [], ◌∷◌, ◌≡◌, refl, arith}
use yt_dlp_api.Prelude.Int.{pos}
use yt_dlp_api.RateLimiter.{
  RateLimiter, new_limiter, default_categories, config_of, bucket_at, put_bucket,
}
use yt_dlp_api.RateLimiter.Bucket.{TokenBucket, token}
use yt_dlp_api.RateLimiter.Bound.{Request, allowed_count, last_time, IsSound}
use yt_dlp_api.RateLimiter.Window.{rate_bound}
use yt_dlp_api.RateLimiter.Settings.{ArePositive}
use yt_dlp_api.Prelude.Chars.{codes}
use yt_dlp_api.Auth.{normalize_path}
use yt_dlp_api.RateLimiter.Middleware.{HttpRequest, get_endpoint_category, limited_in}
use yt_dlp_api.RateLimiter.Middleware.Limited.{limited, passed_count, middleware_bound}

abbrev limiter : RateLimiter
limiter = new_limiter none none none

-- A bucket of the downloads that has just given its last token.
abbrev empty_bucket : TokenBucket
empty_bucket = record { capacity = 20; refill_rate = 10; tokens = pos 0; last_refill = 5 }

abbrev one_key : RateLimiter
one_key = put_bucket limiter "k" "download" empty_bucket

abbrev three_requests : List Request
three_requests =
    record { time = 10; api_key = "k"; category = "download" }
    ∷ record { time = 10; api_key = "other"; category = "download" }
    ∷ record { time = 6000010; api_key = "k"; category = "download" }
    ∷ []

limiter-IsSound : IsSound "k" "download" 20 10 5 limiter
unfolding new_limiter config_of bucket_at
limiter-IsSound = record { sound_dict = tt; sound_limits = refl; sound_bucket = tt }

rate_bound_example :
    allowed_count "k" "download" limiter three_requests * token ≤ 20 * token + (6000010 - 5) * 10
rate_bound_example =
    rate_bound "k" "download" 20 10 5 limiter three_requests (omega arith) limiter-IsSound
      (omega arith, (omega arith, (omega arith, tt)))

limiter-ArePositive : ArePositive limiter
unfolding new_limiter
limiter-ArePositive = ((omega arith, omega arith), ((omega arith, omega arith), tt))

one_key_bucket : bucket_at one_key "k" "download" ≡ some empty_bucket
unfolding bucket_at new_limiter
one_key_bucket = refl

-- Two downloads of a key, which the middleware sees, and a request for the documentation.
abbrev three_http : List HttpRequest
three_http =
    record { time = 10; path = codes "/api/v1/download"; api_key = some "k" }
    ∷ record { time = 10; path = codes "/docs/"; api_key = none }
    ∷ record { time = 6000010; path = codes "/api/v1/download/x"; api_key = some "k" }
    ∷ []

one_excluded :
    limited (codes "/docs" ∷ []) default_categories three_http
    ≡ record { time = 10; api_key = "k"; category = "download" }
      ∷ record { time = 6000010; api_key = "k"; category = "download" }
      ∷ []
unfolding limited_in get_endpoint_category normalize_path
one_excluded = refl

middleware_bound_example :
    passed_count (codes "/docs" ∷ []) default_categories "k" "download" limiter three_http * token
    ≤ 20 * token
      + (last_time 5 (limited (codes "/docs" ∷ []) default_categories three_http) - 5) * 10
unfolding new_limiter
middleware_bound_example =
    middleware_bound (codes "/docs" ∷ []) "k" "download" 20 10 5 limiter three_http (omega arith)
      limiter-IsSound (omega arith, (omega arith, (omega arith, tt)))
