-- ===== src/RateLimiter/Reset.antt =====
-- app/core/rate_limiter.py: `reset_bucket`, `clear_all_buckets` and `get_bucket_status`, which
-- refills the bucket that it reports.
use yt_dlp_api.Prelude.{
  ℕ, ◌*◌, ◌≤◌, String, Bool, true, ◌&&◌, ◌||◌, Option, none, some, [], ◌≡◌, refl, sym, arith,
  if◌then◌else◌, str_eq, eq_iff, inl, inr, Option-cases, Bool-cases,
}
use yt_dlp_api.Prelude.Dict.{lookup, contains, insert, erase, lookup-insert, lookup-erase}
use yt_dlp_api.Prelude.Int.{ℤ, pos}
use yt_dlp_api.RateLimiter.{RateLimiter, RateLimitConfig, bucket_at, put_bucket, categories_of}
use yt_dlp_api.RateLimiter.Bucket.{TokenBucket, token, refill_bucket}
use yt_dlp_api.RateLimiter.Refill.{IsFilled, level, level_later, refill_exact}
use yt_dlp_api.RateLimiter.Buckets.{bucket_at-put_bucket, same_key}

unfoldable pub reset_bucket : RateLimiter → String → Option String → RateLimiter
reset_bucket s api_key none = record s { buckets = erase api_key s.buckets }
reset_bucket s api_key (some category) =
    if contains api_key s.buckets
    then (if str_eq category "" then record s { buckets = erase api_key s.buckets } else record s {
      buckets = insert api_key (erase category (categories_of s api_key)) s.buckets;
    })
    else s

unfoldable pub clear_all_buckets : RateLimiter → RateLimiter
clear_all_buckets s = record s { buckets = [] }

-- `tokens` in units, `refill_rate` in units a microsecond.
pub record BucketStatus : Type 0 where
  pub tokens : ℤ
  pub capacity : ℕ
  pub refill_rate : ℕ
  pub rpm : ℕ

abbrev pub full_status : RateLimitConfig → BucketStatus
full_status x = record {
  tokens = pos (x.burst_capacity * token);
  capacity = x.burst_capacity;
  refill_rate = x.rpm;
  rpm = x.rpm;
}

abbrev pub status_of : TokenBucket → BucketStatus
status_of b = record {
  tokens = b.tokens;
  capacity = b.capacity;
  refill_rate = b.refill_rate;
  rpm = b.refill_rate;
}

-- `self.limits.get(category, self.limits["metadata"])`: the default is read first, and none is
-- its KeyError.
unfoldable pub default_status : RateLimiter → String → Option BucketStatus
default_status s category = elim (lookup "metadata" s.limits) [
  | none ↦ none
  | some x ↦ elim (lookup category s.limits) [
    | none ↦ some (full_status x)
    | some y ↦ some (full_status y)
  ]
]

unfoldable pub get_bucket_status :
    RateLimiter → ℕ → String → String → RateLimiter × Option BucketStatus
unfolding default_status
get_bucket_status s now api_key category = elim (bucket_at s api_key category) [
  | none ↦ (s, default_status s category)
  | some bucket ↦
      let b = refill_bucket now bucket in (put_bucket s api_key category b, some (status_of b))
]

-- Which buckets a reset names: all of the key, if the category is none or empty.
abbrev pub names : Option String → String → Bool
names none c = true
names (some category) c = str_eq category "" || str_eq category c

-- `reset_bucket` removes exactly the buckets of its key that it names, all of them without a
-- category or with an empty one, and keeps every other bucket.
bucket_at-reset_bucket :
    (s : RateLimiter) (api_key : String) (category : Option String) (k c : String)
    → bucket_at (reset_bucket s api_key category) k c
      ≡ (if str_eq api_key k && names category c then none else bucket_at s k c)
unfolding reset_bucket bucket_at
bucket_at-reset_bucket s j none k c = ground (arith, lookup-erase j k s.buckets, eq_iff j k)
bucket_at-reset_bucket s j (some d) k c = ground (
  arith,
  eq_iff j k,
  lookup-erase j k s.buckets,
  lookup-erase d c (categories_of s j),
  lookup-insert j k (erase d (categories_of s j)) s.buckets,
)

refill_level :
    (now later : ℕ) (b : TokenBucket)
    → IsFilled b
    → b.last_refill ≤ now
    → now ≤ later
    → level later (refill_bucket now b) ≡ level later b
refill_level now later b f h l = rw (refill_exact now b f h) (sym (level_later now later b h l))

status_found :
    (s : RateLimiter) (now : ℕ) (j d : String) (x : TokenBucket)
    → bucket_at s j d ≡ some x
    → get_bucket_status s now j d
      ≡ (put_bucket s j d (refill_bucket now x), some (status_of (refill_bucket now x)))
unfolding get_bucket_status
status_found s now j d x g = rw (g, get_bucket_status) refl

-- Asking at `now` for a status, of any bucket, does not change what a bucket holds at any later
-- time, for a bucket that holds from none to all of its tokens and was last filled by `now`.
status_level :
    (s : RateLimiter) (now later : ℕ) (j d k c : String) (b : TokenBucket)
    → bucket_at s k c ≡ some b
    → IsFilled b
    → b.last_refill ≤ now
    → now ≤ later
    → (b' : TokenBucket) × (bucket_at (get_bucket_status s now j d).0 k c ≡ some b')
      × (level later b' ≡ level later b)
unfolding get_bucket_status
status_level s now later j d k c b e f h l = elim (Option-cases (bucket_at s j d)) [
  | inl n ↦ (b, rw (n, get_bucket_status) e, refl)
  | inr (x, g) ↦ elim (Bool-cases (str_eq j k && str_eq d c)) [
    | inl own ↦
        let (p, q) = same_key j d k c own in
        let same : x ≡ b = cc in
        (
          refill_bucket now b,
          rw
              (
                status_found s now j d x g,
                bucket_at-put_bucket s j d k c (refill_bucket now x),
                own,
                same,
              )
              refl,
          refill_level now later b f h l,
        )
    | inr other ↦ (
      b,
      rw (status_found s now j d x g, bucket_at-put_bucket s j d k c (refill_bucket now x), other)
          e,
      refl,
    )
  ]
]
