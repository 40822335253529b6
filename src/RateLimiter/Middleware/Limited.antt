-- ===== src/RateLimiter/Middleware/Limited.antt =====
-- app/middleware/rate_limit.py: how many requests get through.
use mathlib.Core.Option.{some-injective}
use yt_dlp_api.Prelude.{
  ℕ, ◌+◌, ◌-◌, ◌*◌, ◌≤◌, String, Bool, true, false, ◌&&◌, Option, none, some, List, [], ◌∷◌, ◌≡◌,
  refl, sym, ap, ◌∙◌, subst, inl, inr, arith, if◌then◌else◌, str_eq, Option-cases,
}
use yt_dlp_api.Prelude.Chars.{Text}
use yt_dlp_api.Prelude.Dict.{Dict}
use yt_dlp_api.Prelude.Text.{or_else}
use yt_dlp_api.RateLimiter.{
  RateLimiter, check_rate_limit, get_bucket, make_room, cleanup_inactive_buckets,
}
use yt_dlp_api.RateLimiter.Bucket.{Wait, token}
use yt_dlp_api.RateLimiter.Bound.{Request, InOrder, last_time, is_allowed, allowed_count, IsSound}
use yt_dlp_api.RateLimiter.Window.{rate_bound}
use yt_dlp_api.RateLimiter.Middleware.{
  HttpRequest, Response, passed, too_many_requests, server_error, response_of, limited_in, dispatch,
}

abbrev pub is_passed : Response → Bool
is_passed passed = true
is_passed (too_many_requests n) = false
is_passed server_error = false

passed_allowed : (a : Option (Bool × Wait)) → is_passed (response_of a) ≡ is_allowed a
passed_allowed none = refl
passed_allowed (some (true, w)) = refl
passed_allowed (some (false, w)) = refl

make_room_categories :
    (s : RateLimiter) (now : ℕ) (j : String)
    → (make_room s now j).endpoint_categories ≡ s.endpoint_categories
unfolding make_room cleanup_inactive_buckets
make_room_categories s now j = ground arith

check_keeps_categories :
    (s : RateLimiter) (now : ℕ) (j d : String)
    → (check_rate_limit s now j d).0.endpoint_categories ≡ s.endpoint_categories
unfolding check_rate_limit get_bucket
check_keeps_categories s now j d = ground (arith, make_room_categories s now j)

-- The clock does not go back.
abbrev pub AreInOrder : ℕ → List HttpRequest → Type 0
AreInOrder now [] = Unit
AreInOrder now (r ∷ rs) = (now ≤ r.time) × AreInOrder r.time rs

abbrev pub as_request : HttpRequest → Option String → Option Request
as_request r none = none
as_request r (some c) =
    some (record { time = r.time; api_key = or_else r.api_key "anonymous"; category = c })

as_request_time :
    (r : HttpRequest) (o : Option String) (q : Request) → as_request r o ≡ some q → q.time ≡ r.time
as_request_time r none q e = absurd cc
as_request_time r (some c) q e = sym (ap (λ (x : Request). x.time) (some-injective _ _ e))

module _ (excluded_paths : List Text) (categories : Dict String) where
  -- The request as the limiter sees it, if it does.
  abbrev pub seen : HttpRequest → Option Request
  seen r = as_request r (limited_in excluded_paths categories r.path)

  abbrev pub cons_seen : Option Request → List Request → List Request
  cons_seen none rs = rs
  cons_seen (some r) rs = r ∷ rs

  -- The requests that are limited.
  abbrev pub limited : List HttpRequest → List Request
  limited [] = []
  limited (r ∷ rs) = cons_seen (seen r) (limited rs)

  abbrev pub concerns : String → String → Option Request → Bool
  concerns k c none = false
  concerns k c (some r) = str_eq r.api_key k && str_eq r.category c

  -- How many limited requests of a key in a category reach their handlers.
  unfoldable pub passed_count : String → String → RateLimiter → List HttpRequest → ℕ
  passed_count k c s [] = 0
  passed_count k c s (r ∷ rs) =
      let (s', response) = dispatch excluded_paths s r in
      (if concerns k c (seen r) && is_passed response then 1 else 0) + passed_count k c s' rs

  InOrder-earlier : (a b : ℕ) (rs : List Request) → a ≤ b → InOrder b rs → InOrder a rs
  InOrder-earlier a b [] l o = tt
  InOrder-earlier a b (r ∷ rs) l (h, o) = (omega arith, o)

  later-InOrder :
      (o : Option Request) (now then_ : ℕ) (rs : List Request)
      → ((r : Request) → o ≡ some r → r.time ≡ then_)
      → now ≤ then_
      → InOrder then_ rs
      → InOrder now (cons_seen o rs)
  later-InOrder none now then_ rs h l o = InOrder-earlier now then_ rs l o
  later-InOrder (some r) now then_ rs h l o =
      let same = h r refl in (omega arith, subst (λ t. InOrder t rs) (sym same) o)

  limited-InOrder : (now : ℕ) (rs : List HttpRequest) → AreInOrder now rs → InOrder now (limited rs)
  limited-InOrder now [] o = tt
  limited-InOrder now (r ∷ rs) (l, o) =
      later-InOrder (seen r) now r.time (limited rs)
        (as_request_time r (limited_in excluded_paths categories r.path)) l
        (limited-InOrder r.time rs o)

  -- A request that is not limited, and one that is.
  dispatch_free :
      (s : RateLimiter) (r : HttpRequest)
      → s.endpoint_categories ≡ categories
      → limited_in excluded_paths categories r.path ≡ none
      → dispatch excluded_paths s r ≡ (s, passed)
  unfolding dispatch
  dispatch_free s r e n =
      let n' = ap (λ d. limited_in excluded_paths d r.path) e ∙ n in rw (n', dispatch) refl

  dispatch_limited :
      (s : RateLimiter) (r : HttpRequest) (d : String)
      → s.endpoint_categories ≡ categories
      → limited_in excluded_paths categories r.path ≡ some d
      → dispatch excluded_paths s r ≡ (
        (check_rate_limit s r.time (or_else r.api_key "anonymous") d).0,
        response_of (check_rate_limit s r.time (or_else r.api_key "anonymous") d).1,
      )
  unfolding dispatch
  dispatch_limited s r d e f =
      let f' = ap (λ x. limited_in excluded_paths x r.path) e ∙ f in rw (f', dispatch) refl

  passed_count-limited :
      (k c : String) (s : RateLimiter) (rs : List HttpRequest)
      → s.endpoint_categories ≡ categories
      → passed_count k c s rs ≡ allowed_count k c s (limited rs)
  unfolding passed_count allowed_count
  passed_count-limited k c s [] e = refl
  passed_count-limited k c s (r ∷ rs) e =
      elim (Option-cases (limited_in excluded_paths categories r.path)) [
        | inl n ↦
            let ih = passed_count-limited k c s rs e in
            rw (dispatch_free s r e n) (rw (n, concerns, cons_seen) (omega (arith, ih)))
        | inr (d, f) ↦
            let key = or_else r.api_key "anonymous" in
            let kept = check_keeps_categories s r.time key d ∙ e in
            rw (dispatch_limited s r d e f) (
              rw (f, concerns, cons_seen, passed_allowed (check_rate_limit s r.time key d).1)
                (ap
                  (λ n.
                    (if str_eq key k && str_eq d c && is_allowed (check_rate_limit s r.time key d).1
                      then 1
                      else 0)
                    + n)
                  (passed_count-limited k c (check_rate_limit s r.time key d).0 rs kept)))
      ]

-- Take a limiter and a key and a category as in `rate_bound`, with a burst of at most five minutes
-- of the rate, and any requests, limited or not and of any keys, in the order of a clock that does
-- not go back. Then of the key's limited requests in the category, those that reach their
-- handlers number at most the burst and the rate times the time from the start to the last limited
-- request; requests without a key count for the key "anonymous".
pub middleware_bound :
    (excluded_paths : List Text) (k c : String) (burst rpm now : ℕ) (s : RateLimiter)
    (rs : List HttpRequest)
    → burst ≤ 5 * rpm
    → IsSound k c burst rpm now s
    → AreInOrder now rs
    → passed_count excluded_paths s.endpoint_categories k c s rs * token
      ≤ burst * token
        + (last_time now (limited excluded_paths s.endpoint_categories rs) - now) * rpm
middleware_bound excluded_paths k c burst rpm now s rs q i o =
    rw (passed_count-limited excluded_paths s.endpoint_categories k c s rs refl) (
      rate_bound k c burst rpm now s (limited excluded_paths s.endpoint_categories rs) q i
        (limited-InOrder excluded_paths s.endpoint_categories now rs o))
