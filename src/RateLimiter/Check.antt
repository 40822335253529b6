-- ===== src/RateLimiter/Check.antt =====
-- app/core/rate_limiter.py: the three ways in which `check_rate_limit` ends.
use yt_dlp_api.Prelude.{ℕ, String, Bool, Option, none, some, ◌≡◌, inl, inr, Option-cases}
use yt_dlp_api.Prelude.Dict.{insert}
use yt_dlp_api.RateLimiter.{
  bucket_at, RateLimiter, RateLimitConfig, categories_of, put_bucket, make_room, get_bucket,
  config_of, check_rate_limit,
}
use yt_dlp_api.RateLimiter.Bucket.{TokenBucket, Wait, new_bucket}
use yt_dlp_api.RateLimiter.Refill.{request}

-- The limiter after a request that found or made the bucket `b`.
abbrev pub served : RateLimiter → ℕ → String → String → TokenBucket → RateLimiter
served s now j d b = put_bucket (put_bucket s j d b) j d (request now b).0

abbrev pub answer : ℕ → TokenBucket → Option (Bool × Wait)
answer now b = some ((request now b).1, (request now b).2)

-- The limiter where no limits serve the category: `defaultdict` has made an empty entry.
abbrev pub touched : RateLimiter → String → RateLimiter
touched s j = record s { buckets = insert j (categories_of s j) s.buckets }

pub data Checks (s : RateLimiter) (now : ℕ) (j d : String)
    : RateLimiter → Option (Bool × Wait) → Type 0 where
  known :
      (b : TokenBucket)
      → bucket_at (make_room s now j) j d ≡ some b
      → Checks s now j d (served (make_room s now j) now j d b) (answer now b)
  fresh :
      (config : RateLimitConfig)
      → bucket_at (make_room s now j) j d ≡ none
      → config_of (make_room s now j) d ≡ some config
      → Checks s now j d
          (served (make_room s now j) now j d (new_bucket config.burst_capacity config.rpm now))
          (answer now (new_bucket config.burst_capacity config.rpm now))
  no_limits :
      bucket_at (make_room s now j) j d ≡ none
      → config_of (make_room s now j) d ≡ none
      → Checks s now j d (touched (make_room s now j) j) none

-- After making room, `check_rate_limit` ends in one of three ways: a request of the bucket that
-- is there, a request of a new full bucket with the limits of the category (or of "metadata"),
-- or the KeyError where there are no limits; each with the table it leaves.
pub check_rate_limit_total :
    (s : RateLimiter) (now : ℕ) (j d : String)
    → Checks s now j d (check_rate_limit s now j d).0 (check_rate_limit s now j d).1
unfolding check_rate_limit get_bucket
check_rate_limit_total s now j d = elim (Option-cases (bucket_at (make_room s now j) j d)) [
  | inr (b, e) ↦ rw (e, check_rate_limit, get_bucket) (known b e)
  | inl n ↦ elim (Option-cases (config_of (make_room s now j) d)) [
    | inr (config, e) ↦ rw (n, e, check_rate_limit, get_bucket) (fresh config n e)
    | inl e ↦ rw (n, e, check_rate_limit, get_bucket) (no_limits n e)
  ]
]
