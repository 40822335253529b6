-- ===== src/RateLimiter/Bound.antt =====
-- app/core/rate_limiter.py: how many requests a key may make in a category.
use yt_dlp_api.Prelude.{
  ℕ, ◌+◌, ◌-◌, ◌*◌, ◌≤◌, ◌<◌, String, Bool, true, false, ◌&&◌, Option, none, some, List, [], ◌∷◌,
  ◌≡◌, refl, sym, ap, ◌∙◌, inl, inr, arith, Bool-cases, if◌then◌else◌, str_eq,
}
use yt_dlp_api.Prelude.Dict.{IsDict}
use yt_dlp_api.RateLimiter.{
  RateLimiter, bucket_at, put_bucket, make_room, config_of, check_rate_limit,
}
use yt_dlp_api.RateLimiter.Bucket.{TokenBucket, Wait, token}
use yt_dlp_api.RateLimiter.Refill.{
  level, request, request_balance, Meets, request-Meets, level_later,
}
use yt_dlp_api.RateLimiter.Buckets.{bucket_at-put_bucket, make_room_at}
use yt_dlp_api.RateLimiter.Check.{served}

times_le : (a b n : ℕ) → a ≤ b → a * n ≤ b * n
times_le a b n h = grind arith

bucket_at-served :
    (s : RateLimiter) (now : ℕ) (j d k c : String) (b : TokenBucket)
    → bucket_at (served s now j d b) k c
      ≡ (if str_eq j k && str_eq d c then some (request now b).0 else bucket_at s k c)
bucket_at-served s now j d k c b =
    bucket_at-put_bucket (put_bucket s j d b) j d k c (request now b).0
    ∙ ground (arith, bucket_at-put_bucket s j d k c b)

pub record Request : Type 0 where
  pub time : ℕ
  pub api_key : String
  pub category : String

-- The clock does not go back.
abbrev pub InOrder : ℕ → List Request → Type 0
InOrder now [] = Unit
InOrder now (r ∷ rs) = (now ≤ r.time) × InOrder r.time rs

abbrev pub last_time : ℕ → List Request → ℕ
last_time now [] = now
last_time now (r ∷ rs) = last_time r.time rs

abbrev pub is_allowed : Option (Bool × Wait) → Bool
is_allowed none = false
is_allowed (some (allowed, wait)) = allowed

-- How many requests of a key in a category are allowed.
unfoldable pub allowed_count : String → String → RateLimiter → List Request → ℕ
allowed_count k c s [] = 0
allowed_count k c s (r ∷ rs) =
    let (s', a) = check_rate_limit s r.time r.api_key r.category in
    (if str_eq r.api_key k && str_eq r.category c && is_allowed a then 1 else 0)
    + allowed_count k c s' rs

module _ (k c : String) (burst rpm : ℕ) where
  -- The units that the bucket holds, or that a new bucket would hold.
  abbrev pub stock : ℕ → Option TokenBucket → ℕ
  stock now none = burst * token
  stock now (some b) = level now b

  abbrev pub Fits : ℕ → Option TokenBucket → Type 0
  Fits now none = Unit
  Fits now (some b) = Meets burst rpm now b

  -- The state between requests.
  pub record IsSound (now : ℕ) (s : RateLimiter) : Type 0 where
    pub sound_dict : IsDict s.buckets
    pub sound_limits : config_of s c ≡ some (record { rpm = rpm; burst_capacity = burst })
    pub sound_bucket : Fits now (bucket_at s k c)

  pub stock_later :
      (now later : ℕ) (o : Option TokenBucket)
      → Fits now o
      → now ≤ later
      → stock later o ≤ stock now o + (later - now) * rpm
  stock_later now later none f l = omega arith
  stock_later now later (some b) (f, e, r, h) l =
      omega (arith, level_later now later b h l, ap (λ x. (later - now) * x) r)

  pub stock_le : (now : ℕ) (o : Option TokenBucket) → Fits now o → stock now o ≤ burst * token
  stock_le now none f = omega arith
  stock_le now (some b) (f, e, r, h) = omega (arith, e)

  Fits-later : (now later : ℕ) (o : Option TokenBucket) → Fits now o → now ≤ later → Fits later o
  Fits-later now later none f l = tt
  Fits-later now later (some b) (f, e, r, h) l = (f, e, r, omega (arith, h, l))

  -- A bucket idle for 300 seconds is full again, if these bring that many tokens.
  refilled :
      (now later : ℕ) (b : TokenBucket)
      → burst ≤ 5 * rpm
      → Meets burst rpm now b
      → b.last_refill + 300000000 < later
      → level later b ≡ burst * token
  refilled now later b q (f, e, r, h) idle = omega (
    arith,
    e,
    q,
    r,
    times_le 300000000 (later - b.last_refill) b.refill_rate (omega (arith, idle)),
  )

  idle_stock :
      (now later : ℕ) (o : Option TokenBucket)
      → burst ≤ 5 * rpm
      → Fits now o
      → ((b : TokenBucket) → o ≡ some b → b.last_refill + 300000000 < later)
      → burst * token ≡ stock later o
  idle_stock now later none q f idle = refl
  idle_stock now later (some b) q f idle = sym (refilled now later b q f (idle b refl))

  -- Making room leaves the stock as it is: a bucket that goes was full again.
  pub room_stock :
      (s : RateLimiter) (now later : ℕ) (j : String)
      → burst ≤ 5 * rpm
      → IsSound now s
      → now ≤ later
      → (stock later (bucket_at (make_room s later j) k c) ≡ stock later (bucket_at s k c))
        × Fits later (bucket_at (make_room s later j) k c)
  room_stock s now later j q i l = elim (make_room_at s later j k c i.sound_dict) [
    | inl same ↦ rw same (refl, Fits-later now later (bucket_at s k c) i.sound_bucket l)
    | inr (gone, idle) ↦ rw gone (idle_stock now later (bucket_at s k c) q i.sound_bucket idle, tt)
  ]

  own_stock :
      (now : ℕ) (b : TokenBucket)
      → Meets burst rpm now b
      → (if (request now b).1 then token else 0) + level now (request now b).0 ≡ level now b
  own_stock now b (f, e, r, h) = request_balance now b f h

  -- The bucket served is the one that is counted, or another.
  pub served-stock :
      (s : RateLimiter) (now : ℕ) (j d : String) (b : TokenBucket)
      → Fits now (bucket_at s k c)
      → (str_eq j k && str_eq d c ≡ true
          → Meets burst rpm now b × (stock now (bucket_at s k c) ≡ level now b))
      → ((if str_eq j k && str_eq d c && (request now b).1 then token else 0)
            + stock now (bucket_at (served s now j d b) k c)
          ≡ stock now (bucket_at s k c))
        × Fits now (bucket_at (served s now j d b) k c)
  served-stock s now j d b f own = elim (Bool-cases (str_eq j k && str_eq d c)) [
    | inl e ↦
        rw (bucket_at-served s now j d k c b, e)
          (
            own_stock now b (own e).0 ∙ sym (own e).1,
            request-Meets burst rpm now now b (own e).0 (omega arith),
          )
    | inr e ↦ rw (bucket_at-served s now j d k c b, e) (omega arith, f)
  ]
