-- ===== src/RateLimiter.antt =====
-- app/core/rate_limiter.py: a token bucket for each API key and category of endpoint. A method
-- reads the clock once, `now`. RateLimiter/Bucket.antt has the units.
pub mod Bucket
pub mod Refill
pub mod Buckets
pub mod Check
pub mod Bound
pub mod Window
pub mod Settings
pub mod Reset
pub mod Middleware
mod Tests
use Bucket.{TokenBucket, Wait, new_bucket, refill_bucket, take_token, no_wait}
use yt_dlp_api.Prelude.{
  ℕ, ◌+◌, String, Bool, true, false, ◌&&◌, ◌||◌, not, Option, none, some, List, [], ◌∷◌, ltb, leb,
  if◌then◌else◌, length,
}
use yt_dlp_api.Prelude.Dict.{Dict, lookup, contains, insert, erase, values}
use yt_dlp_api.Prelude.Int.{ℤ, pos, pos_part, leb_ℤ}
use yt_dlp_api.Prelude.Result.{Result, ok, err}
use yt_dlp_api.Prelude.Text.{concat}

-- Both are positive where `rate_limit_config` has made the record.
pub record RateLimitConfig : Type 0 where
  pub rpm : ℕ
  pub burst_capacity : ℕ

-- The ValueErrors of `RateLimitConfig`, and the KeyError of `self.limits[…]`.
pub data LimitError : Type 0 where
  rpm_not_positive burst_not_positive key_error : LimitError

-- `RateLimitConfig(rpm=…, burst_capacity=…)` with its `__post_init__`
unfoldable pub rate_limit_config : ℤ → ℤ → Result LimitError RateLimitConfig
rate_limit_config rpm burst_capacity =
    if leb_ℤ rpm (pos 0)
    then err rpm_not_positive
    else if leb_ℤ burst_capacity (pos 0)
    then err burst_not_positive
    else ok (record { rpm = pos_part rpm; burst_capacity = pos_part burst_capacity })

pub record RateLimiter : Type 0 where
  pub limits : Dict RateLimitConfig
  pub endpoint_categories : Dict String
  pub buckets : Dict (Dict TokenBucket)
  pub max_api_keys : ℕ

abbrev pub default_limits : Dict RateLimitConfig
default_limits =
    ("metadata", record { rpm = 100; burst_capacity = 20 })
    ∷ ("download", record { rpm = 10; burst_capacity = 20 })
    ∷ []

abbrev pub default_categories : Dict String
default_categories =
    ("/api/v1/info", "metadata")
    ∷ ("/api/v1/formats", "metadata")
    ∷ ("/api/v1/transcript", "metadata")
    ∷ ("/api/v1/download", "download")
    ∷ []

-- `x or y` for a collection
abbrev pub or_default {ℓ} : {V : Type ℓ} → Option (List V) → List V → List V
or_default none d = d
or_default (some []) d = d
or_default (some (x ∷ xs)) d = x ∷ xs

-- `max_api_keys or self.MAX_API_KEYS`
abbrev pub or_max_keys : Option ℕ → ℕ
or_max_keys none = 10000
or_max_keys (some n) = if ltb 0 n then n else 10000

unfoldable pub new_limiter :
    Option (Dict RateLimitConfig) → Option (Dict String) → Option ℕ → RateLimiter
new_limiter limits endpoint_categories max_api_keys = record {
  limits = or_default limits default_limits;
  endpoint_categories = or_default endpoint_categories default_categories;
  buckets = [];
  max_api_keys = or_max_keys max_api_keys;
}

-- `all(bucket.last_refill < threshold for bucket in categories.values())`, with the threshold
-- 300 seconds back
unfoldable pub all_inactive : ℕ → List TokenBucket → Bool
all_inactive now [] = true
all_inactive now (b ∷ bs) = ltb (b.last_refill + 300000000) now && all_inactive now bs

unfoldable pub keys_to_remove : ℕ → Dict (Dict TokenBucket) → List String
unfolding all_inactive
keys_to_remove now [] = []
keys_to_remove now ((api_key, categories) ∷ d) =
    let rest = keys_to_remove now d in
    if all_inactive now (values categories) then api_key ∷ rest else rest

-- `for key in keys_to_remove: del self._buckets[key]`
abbrev pub erase_all {ℓ} : {V : Type ℓ} → List String → Dict V → Dict V
erase_all [] d = d
erase_all (k ∷ ks) d = erase_all ks (erase k d)

unfoldable pub cleanup_inactive_buckets : RateLimiter → ℕ → RateLimiter × ℕ
unfolding keys_to_remove
cleanup_inactive_buckets s now =
    let ks = keys_to_remove now s.buckets in
    (record s { buckets = erase_all ks s.buckets }, length ks)

-- `self._buckets[api_key]`, of a `defaultdict(dict)`
abbrev pub categories_of : RateLimiter → String → Dict TokenBucket
categories_of s api_key = elim (lookup api_key s.buckets) [ none ↦ [] | some d ↦ d ]

-- `self._buckets[api_key][category]`, where it is there
unfoldable pub bucket_at : RateLimiter → String → String → Option TokenBucket
bucket_at s api_key category = lookup category (categories_of s api_key)

-- `self._buckets[api_key][category] = bucket`
abbrev pub put_bucket : RateLimiter → String → String → TokenBucket → RateLimiter
put_bucket s api_key category b = record s {
  buckets = insert api_key (insert category b (categories_of s api_key)) s.buckets;
}

-- `self.limits.get(category)`, or the limits of "metadata" (none: a KeyError)
unfoldable pub config_of : RateLimiter → String → Option RateLimitConfig
config_of s category = elim (lookup category s.limits) [
  | some config ↦ some config
  | none ↦ lookup "metadata" s.limits
]

-- The cleanup that makes room for a new key. A table still full is only logged.
unfoldable pub make_room : RateLimiter → ℕ → String → RateLimiter
unfolding cleanup_inactive_buckets
make_room s now api_key =
    if not (contains api_key s.buckets) && leb s.max_api_keys (length s.buckets)
    then (cleanup_inactive_buckets s now).0
    else s

-- The bucket, which the limiter holds too; none: a KeyError, after the empty entry was made.
unfoldable pub get_bucket : RateLimiter → ℕ → String → String → RateLimiter × Option TokenBucket
unfolding make_room config_of bucket_at
get_bucket s now api_key category =
    let s1 = make_room s now api_key in
    elim (bucket_at s1 api_key category) [
      | some b ↦ (put_bucket s1 api_key category b, some b)
      | none ↦ elim (config_of s1 category) [
        | none ↦
            (record s1 { buckets = insert api_key (categories_of s1 api_key) s1.buckets }, none)
        | some config ↦
            let b = new_bucket config.burst_capacity config.rpm now in
            (put_bucket s1 api_key category b, some b)
      ]
    ]

-- The rest of `check_rate_limit`, once `_get_bucket` has returned or raised.
abbrev pub check_bucket :
    ℕ → String → String → RateLimiter × Option TokenBucket → RateLimiter × Option (Bool × Wait)
check_bucket now api_key category (s, none) = (s, none)
check_bucket now api_key category (s, some bucket) =
    let (b, allowed, wait) = take_token (refill_bucket now bucket) in
    (put_bucket s api_key category b, some (allowed, wait))

-- Allowed or not, and how long to wait; none: the KeyError of `get_bucket`.
unfoldable pub check_rate_limit :
    RateLimiter → ℕ → String → String → RateLimiter × Option (Bool × Wait)
unfolding get_bucket
check_rate_limit s now api_key category =
    check_bucket now api_key category (get_bucket s now api_key category)
