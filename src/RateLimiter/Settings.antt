-- ===== src/RateLimiter/Settings.antt =====
-- app/core/rate_limiter.py: `configure_limits`, and the operations that reset buckets. A method
-- that raises keeps what it has written before.
use yt_dlp_api.Prelude.{
  ◌≤◌, String, ◌&&◌, Option, none, some, List, [], ◌∷◌, ◌≡◌, inl, inr, arith, if◌then◌else◌,
}
use yt_dlp_api.Prelude.Dict.{lookup, insert, keys, AllEntries, AllEntries-insert}
use yt_dlp_api.Prelude.Int.{ℤ, pos, leb_ℤ}
use yt_dlp_api.Prelude.Result.{Result, ok, err, ◌>>=◌, Result-cases}
use yt_dlp_api.RateLimiter.{RateLimiter, RateLimitConfig, LimitError, key_error, rate_limit_config}

-- `self.limits[category]`
abbrev pub limit_of : RateLimiter → String → Result LimitError RateLimitConfig
limit_of s category = elim (lookup category s.limits) [ none ↦ err key_error | some x ↦ ok x ]

-- `self.limits[category].burst_capacity`
abbrev pub old_burst : RateLimiter → String → Result LimitError ℤ
old_burst s category = do x ← limit_of s category; ok (pos x.burst_capacity)

-- `burst_capacity or self.limits[category].burst_capacity`
unfoldable burst_or : RateLimiter → String → Option ℤ → Result LimitError ℤ
burst_or s category burst_capacity = elim burst_capacity [
  | some b ↦ if leb_ℤ b (pos 0) && leb_ℤ (pos 0) b then old_burst s category else ok b
  | none ↦ old_burst s category
]

-- `if rpm is not None: self.limits[category] = RateLimitConfig(…)`
unfoldable set_rpm : RateLimiter → String → Option ℤ → Option ℤ → Result LimitError RateLimiter
unfolding burst_or
set_rpm s category none burst_capacity = ok s
set_rpm s category (some rpm) burst_capacity = do
  b ← burst_or s category burst_capacity
  config ← rate_limit_config rpm b
  ok (record s { limits = insert category config s.limits })

-- One turn of the loop `for category in self.limits`.
unfoldable set_burst : RateLimiter → String → ℤ → Result LimitError RateLimiter
set_burst s category burst_capacity = do
  old ← limit_of s category
  config ← rate_limit_config (pos old.rpm) burst_capacity
  ok (record s { limits = insert category config s.limits })

-- The limiter after a part of the method, and the exception that ended it.
abbrev pub Configured : Type 0
Configured = RateLimiter × Option LimitError

abbrev pub ended : RateLimiter → Result LimitError RateLimiter → Configured
ended s (ok s') = (s', none)
ended s (err e) = (s, some e)

-- The next part, unless an exception has ended the method.
abbrev pub and_then : Configured → (RateLimiter → Configured) → Configured
and_then (s, none) next = next s
and_then (s, some e) next = (s, some e)

unfoldable set_bursts : RateLimiter → List String → ℤ → Configured
unfolding set_burst
set_bursts s [] burst_capacity = (s, none)
set_bursts s (category ∷ rest) burst_capacity =
    and_then (ended s (set_burst s category burst_capacity))
      (λ s'. set_bursts s' rest burst_capacity)

unfoldable pub configure_limits : RateLimiter → Option ℤ → Option ℤ → Option ℤ → Configured
unfolding set_rpm set_bursts
configure_limits s metadata_rpm download_rpm burst_capacity =
    and_then (ended s (set_rpm s "metadata" metadata_rpm burst_capacity)) (λ s1.
      and_then (ended s1 (set_rpm s1 "download" download_rpm burst_capacity)) (λ s2.
        elim burst_capacity [ none ↦ (s2, none) | some b ↦ set_bursts s2 (keys s2.limits) b ]))

-- Limits that a `RateLimitConfig` can hold.
abbrev pub IsPositive : RateLimitConfig → Type 0
IsPositive x = (1 ≤ x.rpm) × (1 ≤ x.burst_capacity)

abbrev pub ArePositive : RateLimiter → Type 0
ArePositive s = AllEntries (λ category x. IsPositive x) s.limits

rate_limit_config-IsPositive :
    (rpm b : ℤ) (x : RateLimitConfig) → rate_limit_config rpm b ≡ ok x → IsPositive x
unfolding rate_limit_config
rate_limit_config-IsPositive rpm b x e = ground arith

-- What `RateLimitConfig(…)` lets through is stored.
stored-ArePositive :
    (s : RateLimiter) (category : String) (rpm b : ℤ)
    → ArePositive s
    → ArePositive
        (ended s (
          rate_limit_config rpm b >>= λ x. ok (record s { limits = insert category x s.limits }))).0
stored-ArePositive s category rpm b h = elim (Result-cases (rate_limit_config rpm b)) [
  | inl (x, e) ↦ rw e (
      AllEntries-insert (λ k y. IsPositive y) category x s.limits
        (rate_limit_config-IsPositive rpm b x e) h)
  | inr (z, e) ↦ rw e h
]

set_rpm-ArePositive :
    (s : RateLimiter) (category : String) (rpm b : Option ℤ)
    → ArePositive s
    → ArePositive (ended s (set_rpm s category rpm b)).0
unfolding set_rpm
set_rpm-ArePositive s category none b h = h
set_rpm-ArePositive s category (some rpm) b h = elim (Result-cases (burst_or s category b)) [
  | inl (x, e) ↦ rw e (stored-ArePositive s category rpm x h)
  | inr (z, e) ↦ rw e h
]

set_burst-ArePositive :
    (s : RateLimiter) (category : String) (b : ℤ)
    → ArePositive s
    → ArePositive (ended s (set_burst s category b)).0
unfolding set_burst
set_burst-ArePositive s category b h = elim (Result-cases (limit_of s category)) [
  | inl (x, e) ↦ rw e (stored-ArePositive s category (pos x.rpm) b h)
  | inr (z, e) ↦ rw e h
]

and_then-ArePositive :
    (m : Configured) (next : RateLimiter → Configured)
    → ((s : RateLimiter) → ArePositive s → ArePositive (next s).0)
    → ArePositive m.0
    → ArePositive (and_then m next).0
and_then-ArePositive (s, none) next k h = k s h
and_then-ArePositive (s, some e) next k h = h

set_bursts-ArePositive :
    (s : RateLimiter) (categories : List String) (b : ℤ)
    → ArePositive s
    → ArePositive (set_bursts s categories b).0
unfolding set_bursts
set_bursts-ArePositive s [] b h = h
set_bursts-ArePositive s (category ∷ rest) b h =
    and_then-ArePositive (ended s (set_burst s category b)) _
      (λ s' h'. set_bursts-ArePositive s' rest b h') (set_burst-ArePositive s category b h)

-- Where all limits are positive they stay so, whatever `configure_limits` is given and even
-- where it raises half way.
configure_limits-ArePositive :
    (s : RateLimiter) (metadata_rpm download_rpm burst_capacity : Option ℤ)
    → ArePositive s
    → ArePositive (configure_limits s metadata_rpm download_rpm burst_capacity).0
unfolding configure_limits
configure_limits-ArePositive s m d b h =
    and_then-ArePositive (ended s (set_rpm s "metadata" m b)) _
      (λ s1 h1.
        and_then-ArePositive (ended s1 (set_rpm s1 "download" d b)) _
          (λ s2 h2.
            elim b
              as (λ o.
                ArePositive
                  (elim o as (λ x. Configured) [
                    | none ↦ (s2, none)
                    | some n ↦ set_bursts s2 (keys s2.limits) n
                  ]).0) [ none ↦ h2 | some n ↦ set_bursts-ArePositive s2 (keys s2.limits) n h2 ])
          (set_rpm-ArePositive s1 "download" d b h1))
      (set_rpm-ArePositive s "metadata" m b h)
