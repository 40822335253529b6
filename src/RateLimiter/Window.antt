-- ===== src/RateLimiter/Window.antt =====
-- app/core/rate_limiter.py: the requests that a key may make in a category in any stretch of time.
use yt_dlp_api.Prelude.{
  ℕ, ◌+◌, ◌-◌, ◌*◌, ◌≤◌, String, Bool, true, false, ◌&&◌, Option, none, some, List, [], ◌∷◌, ◌≡◌,
  refl, sym, ◌∙◌, subst, arith, if◌then◌else◌, str_eq, eq_iff,
}
use yt_dlp_api.Prelude.Dict.{insert-IsDict, lookup-insert}
use yt_dlp_api.RateLimiter.{
  RateLimiter, RateLimitConfig, bucket_at, put_bucket, make_room, config_of, check_rate_limit,
  categories_of,
}
use yt_dlp_api.RateLimiter.Bucket.{TokenBucket, Wait, token, new_bucket}
use yt_dlp_api.RateLimiter.Refill.{
  level, request, Meets, grown_later, new_bucket-Meets, level-new_bucket,
}
use yt_dlp_api.RateLimiter.Buckets.{same_key, make_room-IsDict, limits-make_room}
use yt_dlp_api.RateLimiter.Check.{
  Checks, known, fresh, no_limits, served, touched, check_rate_limit_total,
}
use yt_dlp_api.RateLimiter.Bound.{
  Request, InOrder, last_time, is_allowed, allowed_count, stock, Fits, IsSound, served-stock,
  room_stock, stock_later, stock_le,
}

config_of-make_room :
    (s : RateLimiter) (now : ℕ) (j d : String) → config_of (make_room s now j) d ≡ config_of s d
unfolding config_of
config_of-make_room s now j d = ground (arith, limits-make_room s now j)

bucket_at-touched :
    (s : RateLimiter) (j k c : String) → bucket_at (touched s j) k c ≡ bucket_at s k c
unfolding bucket_at
bucket_at-touched s j k c =
    ground (arith, eq_iff j k, lookup-insert j k (categories_of s j) s.buckets)

last_time_le : (now : ℕ) (rs : List Request) → InOrder now rs → now ≤ last_time now rs
last_time_le now [] o = omega arith
last_time_le now (r ∷ rs) (l, o) = omega (arith, l, last_time_le r.time rs o)

counted_tokens :
    (counted : Bool) → (if counted then 1 else 0) * token ≡ (if counted then token else 0)
counted_tokens true = refl
counted_tokens false = refl

module _ (k c : String) (burst rpm : ℕ) where
  abbrev config : RateLimitConfig
  config = record { rpm = rpm; burst_capacity = burst }

  -- What a request does to the stock at its time, and to the state.
  abbrev Balanced : ℕ → Bool → RateLimiter → RateLimiter → Type 0
  Balanced now counted s s' =
      ((if counted then token else 0) + stock k c burst rpm now (bucket_at s' k c)
        ≡ stock k c burst rpm now (bucket_at s k c))
      × IsSound k c burst rpm now s'

  -- The bucket that serves the key observed, from what is known of the table.
  own_bucket :
      (s : RateLimiter) (now : ℕ) (j d : String) (b : TokenBucket)
      → Fits k c burst rpm now (bucket_at s k c)
      → bucket_at s j d ≡ some b
      → (str_eq j k && str_eq d c) ≡ true
      → Meets burst rpm now b × (stock k c burst rpm now (bucket_at s k c) ≡ level now b)
  own_bucket s now j d b f e own =
      let (p, q) = same_key j d k c own in
      let here : bucket_at s k c ≡ some b = cc in
      rw here (subst (Fits k c burst rpm now) here f, refl)

  own_fresh :
      (s : RateLimiter) (now : ℕ) (j d : String) (x : RateLimitConfig)
      → bucket_at s j d ≡ none
      → config_of s d ≡ some x
      → config_of s c ≡ some config
      → (str_eq j k && str_eq d c) ≡ true
      → Meets burst rpm now (new_bucket x.burst_capacity x.rpm now)
        × (stock k c burst rpm now (bucket_at s k c)
            ≡ level now (new_bucket x.burst_capacity x.rpm now))
  own_fresh s now j d x n e g own =
      let (p, q) = same_key j d k c own in
      let here : bucket_at s k c ≡ none = cc in
      let same : x ≡ config = cc in
      rw (here, same) (new_bucket-Meets burst rpm now, sym (level-new_bucket burst rpm now))

  room_IsSound :
      (s : RateLimiter) (now later : ℕ) (j : String)
      → burst ≤ 5 * rpm
      → IsSound k c burst rpm now s
      → now ≤ later
      → IsSound k c burst rpm later (make_room s later j)
  room_IsSound s now later j q i l = record {
    sound_dict = make_room-IsDict s later j i.sound_dict;
    sound_limits = config_of-make_room s later j c ∙ i.sound_limits;
    sound_bucket = (room_stock k c burst rpm s now later j q i l).1;
  }

  served-Balanced :
      (s : RateLimiter) (now : ℕ) (j d : String) (b : TokenBucket)
      → IsSound k c burst rpm now s
      → ((str_eq j k && str_eq d c) ≡ true
          → Meets burst rpm now b × (stock k c burst rpm now (bucket_at s k c) ≡ level now b))
      → Balanced now (str_eq j k && str_eq d c && (request now b).1) s (served s now j d b)
  unfolding config_of
  served-Balanced s now j d b i own =
      let (left, fits) = served-stock k c burst rpm s now j d b i.sound_bucket own in
      (
        left,
        record {
          sound_dict =
              insert-IsDict j _ (put_bucket s j d b).buckets
                (insert-IsDict j _ s.buckets i.sound_dict);
          sound_limits = i.sound_limits;
          sound_bucket = fits;
        },
      )

  touched-Balanced :
      (s : RateLimiter) (now : ℕ) (j d : String)
      → IsSound k c burst rpm now s
      → Balanced now (str_eq j k && str_eq d c && false) s (touched s j)
  unfolding config_of
  touched-Balanced s now j d i = rw (bucket_at-touched s j k c) (
    ground arith,
    record {
      sound_dict = insert-IsDict j _ s.buckets i.sound_dict;
      sound_limits = i.sound_limits;
      sound_bucket = rw (bucket_at-touched s j k c) i.sound_bucket;
    },
  )

  -- Every way in which a request ends is balanced.
  checked-Balanced :
      (s : RateLimiter) (now : ℕ) (j d : String) (s' : RateLimiter) (a : Option (Bool × Wait))
      → IsSound k c burst rpm now (make_room s now j)
      → Checks s now j d s' a
      → Balanced now (str_eq j k && str_eq d c && is_allowed a) (make_room s now j) s'
  checked-Balanced s now j d s' a i (known b e) =
      served-Balanced (make_room s now j) now j d b i
        (own_bucket (make_room s now j) now j d b i.sound_bucket e)
  checked-Balanced s now j d s' a i (fresh x n e) =
      served-Balanced (make_room s now j) now j d (new_bucket x.burst_capacity x.rpm now) i
        (own_fresh (make_room s now j) now j d x n e i.sound_limits)
  checked-Balanced s now j d s' a i (no_limits n e) = touched-Balanced (make_room s now j) now j d i

  -- What the requests are allowed and what is left at the end come from what was there and what
  -- was refilled since.
  pub requests_balance :
      (now : ℕ) (s : RateLimiter) (rs : List Request)
      → burst ≤ 5 * rpm
      → IsSound k c burst rpm now s
      → InOrder now rs
      → allowed_count k c s rs * token
        ≤ stock k c burst rpm now (bucket_at s k c) + (last_time now rs - now) * rpm
  unfolding allowed_count
  requests_balance now s [] q i o = omega arith
  requests_balance now s (r ∷ rs) q i (l, o) =
      let (s', a) = check_rate_limit s r.time r.api_key r.category in
      let counted = str_eq r.api_key k && str_eq r.category c && is_allowed a in
      let (here, sound) =
        checked-Balanced s r.time r.api_key r.category s' a
          (room_IsSound s now r.time r.api_key q i l)
          (check_rate_limit_total s r.time r.api_key r.category) in
      omega (
        arith,
        requests_balance r.time s' rs q sound o,
        here,
        (room_stock k c burst rpm s now r.time r.api_key q i l).0,
        stock_later k c burst rpm now r.time (bucket_at s k c) i.sound_bucket l,
        grown_later now r.time (last_time r.time rs) rpm l (last_time_le r.time rs o),
        counted_tokens counted,
      )

  -- Take a limiter whose limits for the category are `rpm` and `burst`, with a burst of at most
  -- five minutes of the rate; its bucket for the key and the category, if there is one, has
  -- these limits, holds from none to all of its tokens and was last filled by the start. Take
  -- any requests of any keys in the order of a clock that does not go back. Then the requests
  -- allowed to the key in the category number at most the burst and the rate times the time from
  -- the start to the last request, buckets that are cleaned up and made again included.
  pub rate_bound :
      (now : ℕ) (s : RateLimiter) (rs : List Request)
      → burst ≤ 5 * rpm
      → IsSound k c burst rpm now s
      → InOrder now rs
      → allowed_count k c s rs * token ≤ burst * token + (last_time now rs - now) * rpm
  rate_bound now s rs q i o = omega (
    arith,
    requests_balance now s rs q i o,
    stock_le k c burst rpm now (bucket_at s k c) i.sound_bucket,
  )
