-- ===== src/RateLimiter/Bucket.antt =====
-- app/core/rate_limiter.py: one token bucket. Time is in microseconds and a token is 60000000
-- units, so that a rate of n requests a minute is n units a microsecond and no operation rounds:
-- the rounding of the code's floats is left out.
use yt_dlp_api.Prelude.{ℕ, ◌+◌, ◌-◌, ◌*◌, ◌/◌, Bool, true, false, if◌then◌else◌, ltb}
use yt_dlp_api.Prelude.Int.{ℤ, pos, pos_part, neg_part, sub_ℕ, ◌+ℤ◌, leb_ℤ, min_ℤ, times_ℤ}

-- One token, in units.
abbrev pub token : ℕ
token = 60000000

-- `refill_rate` is in units a microsecond, `tokens` in units.
pub record TokenBucket : Type 0 where
  pub capacity : ℕ
  pub refill_rate : ℕ
  pub tokens : ℤ
  pub last_refill : ℕ

-- `TokenBucket(capacity=…, refill_rate=…)`: full, and filled now.
unfoldable pub new_bucket : ℕ → ℕ → ℕ → TokenBucket
new_bucket capacity refill_rate now = record {
  capacity = capacity;
  refill_rate = refill_rate;
  tokens = pos (capacity * token);
  last_refill = now;
}

-- The clock may go back, so the time elapsed and the tokens to add have a sign.
unfoldable pub refill_bucket : ℕ → TokenBucket → TokenBucket
refill_bucket now b =
    let elapsed = sub_ℕ now b.last_refill in
    let tokens_to_add = times_ℤ elapsed b.refill_rate in
    record b {
      tokens = min_ℤ (pos (b.capacity * token)) (b.tokens +ℤ tokens_to_add);
      last_refill = now;
    }

-- A time to wait, of `amount / rate` microseconds.
pub record Wait : Type 0 where
  pub amount : ℕ
  pub rate : ℕ

abbrev pub no_wait : Wait
no_wait = record { amount = 0; rate = 1 }

-- `tokens_needed / refill_rate`, or an hour
abbrev pub retry_after : TokenBucket → Wait
retry_after b =
    if ltb 0 b.refill_rate
    then record { amount = token + neg_part b.tokens - pos_part b.tokens; rate = b.refill_rate }
    else record { amount = 3600000000; rate = 1 }

-- The part of `check_rate_limit` after the refill.
unfoldable pub take_token : TokenBucket → TokenBucket × Bool × Wait
take_token b =
    if leb_ℤ (pos token) b.tokens
    then (record b { tokens = b.tokens +ℤ sub_ℕ 0 token }, true, no_wait)
    else (b, false, retry_after b)

-- `str(int(retry_after) + 1)` of the middleware: whole seconds, and one more.
unfoldable pub retry_after_header : Wait → ℕ
retry_after_header w = w.amount / (w.rate * 1000000) + 1
