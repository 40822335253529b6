-- ===== src/RateLimiter/Refill.antt =====
-- app/core/rate_limiter.py: what a refill and a request make of a bucket.
use yt_dlp_api.Prelude.{
  ℕ, ◌+◌, ◌-◌, ◌*◌, ◌≤◌, ◌<◌, min, Bool, true, false, ◌≡◌, refl, inl, inr, arith, if◌then◌else◌,
  ltb, le-cases,
}
use yt_dlp_api.Prelude.Int.{pos, pos_part, neg_part, times_sub_ℕ_le, min_ℤ_sum, add_neg}
use yt_dlp_api.RateLimiter.Bucket.{
  TokenBucket, Wait, token, refill_bucket, take_token, new_bucket, no_wait,
}

-- The tokens of a bucket are from none to all, which holds while the clock does not go back.
abbrev pub IsFilled : TokenBucket → Type 0
IsFilled b = (neg_part b.tokens ≡ 0) × (pos_part b.tokens ≤ b.capacity * token)

-- What the bucket holds at a time, where its last refill is not later.
abbrev pub level : ℕ → TokenBucket → ℕ
level now b = min (b.capacity * token) (pos_part b.tokens + (now - b.last_refill) * b.refill_rate)

pub refill_exact :
    (now : ℕ) (b : TokenBucket)
    → IsFilled b
    → b.last_refill ≤ now
    → refill_bucket now b ≡ record b { tokens = pos (level now b); last_refill = now }
unfolding refill_bucket
refill_exact now b f h =
    rw
      (
        times_sub_ℕ_le now b.last_refill b.refill_rate h,
        min_ℤ_sum (b.capacity * token) ((now - b.last_refill) * b.refill_rate) b.tokens f.0,
      )
      refl

pub new_bucket-IsFilled : (c r now : ℕ) → IsFilled (new_bucket c r now)
unfolding new_bucket
new_bucket-IsFilled c r now = (refl, omega arith)

-- How long to wait with `n` units left.
abbrev pub wait_for : ℕ → TokenBucket → Wait
wait_for n b =
    if ltb 0 b.refill_rate
    then record { amount = token - n; rate = b.refill_rate }
    else record { amount = 3600000000; rate = 1 }

-- A bucket of `n` units gives a token, if it has one.
take_allowed :
    (b : TokenBucket) (n : ℕ)
    → token ≤ n
    → take_token (record b { tokens = pos n })
      ≡ (record b { tokens = pos (n - token) }, true, no_wait)
unfolding take_token
take_allowed b n l = rw (add_neg (pos n) token refl l) (ground arith)

take_refused :
    (b : TokenBucket) (n : ℕ)
    → n < token
    → take_token (record b { tokens = pos n }) ≡ (record b { tokens = pos n }, false, wait_for n b)
unfolding take_token
take_refused b n l = ground arith

-- Before a request the bucket is refilled.
abbrev pub request : ℕ → TokenBucket → TokenBucket × Bool × Wait
request now b = take_token (refill_bucket now b)

pub request_allowed :
    (now : ℕ) (b : TokenBucket)
    → IsFilled b
    → b.last_refill ≤ now
    → token ≤ level now b
    → request now b
      ≡ (record b { tokens = pos (level now b - token); last_refill = now }, true, no_wait)
request_allowed now b f h l =
    rw (refill_exact now b f h) (take_allowed (record b { last_refill = now }) (level now b) l)

pub request_refused :
    (now : ℕ) (b : TokenBucket)
    → IsFilled b
    → b.last_refill ≤ now
    → level now b < token
    → request now b ≡ (
      record b { tokens = pos (level now b); last_refill = now },
      false,
      wait_for (level now b) b,
    )
request_refused now b f h l =
    rw (refill_exact now b f h) (take_refused (record b { last_refill = now }) (level now b) l)

pub grown_later :
    (last now later r : ℕ)
    → last ≤ now
    → now ≤ later
    → (later - last) * r ≡ (now - last) * r + (later - now) * r
grown_later last now later r h l = grind arith

-- The level later, from the level now.
pub level_later :
    (now later : ℕ) (b : TokenBucket)
    → b.last_refill ≤ now
    → now ≤ later
    → level later b ≡ min (b.capacity * token) (level now b + (later - now) * b.refill_rate)
level_later now later b h l = omega (arith, grown_later b.last_refill now later b.refill_rate h l)

none_grown : (n r : ℕ) → (n - n) * r ≡ 0
none_grown n r = grind arith

-- A request takes what it is allowed, and nothing else, from what the bucket holds.
pub request_balance :
    (now : ℕ) (b : TokenBucket)
    → IsFilled b
    → b.last_refill ≤ now
    → (if (request now b).1 then token else 0) + level now (request now b).0 ≡ level now b
request_balance now b f h = elim (le-cases token (level now b)) [
  | inl enough ↦
      rw (request_allowed now b f h enough) (omega (arith, enough, none_grown now b.refill_rate))
  | inr few ↦ rw (request_refused now b f h few) (omega (arith, none_grown now b.refill_rate))
]

-- A bucket of the limits given, last filled by a time.
abbrev pub Meets : ℕ → ℕ → ℕ → TokenBucket → Type 0
Meets burst rpm now b =
    IsFilled b × (b.capacity ≡ burst) × (b.refill_rate ≡ rpm) × (b.last_refill ≤ now)

pub request-Meets :
    (burst rpm earlier now : ℕ) (b : TokenBucket)
    → Meets burst rpm earlier b
    → earlier ≤ now
    → Meets burst rpm now (request now b).0
request-Meets burst rpm earlier now b (f, c, r, h) l = elim (le-cases token (level now b)) [
  | inl enough ↦
      rw (request_allowed now b f (omega (arith, h, l)) enough)
        ((refl, omega arith), c, r, omega arith)
  | inr few ↦
      rw (request_refused now b f (omega (arith, h, l)) few)
        ((refl, omega arith), c, r, omega arith)
]

pub new_bucket-Meets : (burst rpm now : ℕ) → Meets burst rpm now (new_bucket burst rpm now)
unfolding new_bucket
new_bucket-Meets burst rpm now = (new_bucket-IsFilled burst rpm now, refl, refl, omega arith)

pub level-new_bucket : (burst rpm now : ℕ) → level now (new_bucket burst rpm now) ≡ burst * token
unfolding new_bucket
level-new_bucket burst rpm now = omega (arith, none_grown now rpm)
