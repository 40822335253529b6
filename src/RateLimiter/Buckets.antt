-- ===== src/RateLimiter/Buckets.antt =====
-- app/core/rate_limiter.py: which bucket of the table each step reads, writes and removes.
use yt_dlp_api.Prelude.{
  ℕ, ◌+◌, ◌<◌, String, true, false, ◌&&◌, none, some, List, [], ◌∷◌, ◌≡◌, refl, sym, ◌∙◌, ◌⊎◌, inl,
  inr, arith, Bool-cases, Option-cases, if◌then◌else◌, member, str_eq, not, leb, length, eq_iff,
}
use yt_dlp_api.Prelude.Dict.{
  Dict, lookup, insert, erase, values, contains, IsDict, lookup-insert, lookup-erase, erase-IsDict,
  member-keys,
}
use yt_dlp_api.RateLimiter.{
  bucket_at, RateLimiter, categories_of, put_bucket, make_room, keys_to_remove, all_inactive,
  erase_all, cleanup_inactive_buckets,
}
use yt_dlp_api.RateLimiter.Bucket.{TokenBucket}

pub bucket_at-put_bucket :
    (s : RateLimiter) (j d k c : String) (b : TokenBucket)
    → bucket_at (put_bucket s j d b) k c
      ≡ (if str_eq j k && str_eq d c then some b else bucket_at s k c)
unfolding bucket_at
bucket_at-put_bucket s j d k c b = ground (
  arith,
  eq_iff j k,
  lookup-insert j k (insert d b (categories_of s j)) s.buckets,
  lookup-insert d c b (categories_of s j),
)

pub lookup-erase_all {ℓ} :
    {V : Type ℓ} (k : String) (ks : List String) (d : Dict V)
    → lookup k (erase_all ks d) ≡ (if member k ks then none else lookup k d)
lookup-erase_all k [] d = refl
lookup-erase_all k (j ∷ ks) d =
    lookup-erase_all k ks (erase j d) ∙ ground (arith, lookup-erase j k d)

pub erase_all-IsDict {ℓ} :
    {V : Type ℓ} (ks : List String) (d : Dict V) → IsDict d → IsDict (erase_all ks d)
erase_all-IsDict [] d h = h
erase_all-IsDict (k ∷ ks) d h = erase_all-IsDict ks (erase k d) (erase-IsDict k d h)

-- A key is removed exactly if it is there and all its buckets are inactive.
pub member-keys_to_remove :
    (now : ℕ) (k : String) (d : Dict (Dict TokenBucket))
    → IsDict d
    → member k (keys_to_remove now d)
      ≡ (elim (lookup k d) [ none ↦ false | some cs ↦ all_inactive now (values cs) ])
unfolding keys_to_remove
member-keys_to_remove now k [] h = refl
member-keys_to_remove now k ((j, cs) ∷ d) h =
    ground (arith, eq_iff j k, member-keys_to_remove now k d h.1, member-keys k d)

-- Every bucket of an inactive key was last filled more than 300 seconds ago.
pub inactive_bucket :
    (now : ℕ) (c : String) (cs : Dict TokenBucket) (b : TokenBucket)
    → all_inactive now (values cs) ≡ true
    → lookup c cs ≡ some b
    → b.last_refill + 300000000 < now
unfolding all_inactive
inactive_bucket now c [] b a e = absurd cc
inactive_bucket now c ((j, x) ∷ cs) b a e = ground (arith, inactive_bucket now c cs b)

bucket_at_found :
    (s : RateLimiter) (k c : String) (cs : Dict TokenBucket)
    → lookup k s.buckets ≡ some cs
    → bucket_at s k c ≡ lookup c cs
unfolding bucket_at
bucket_at_found s k c cs e = ground (arith, e)

-- What making room does to a bucket: nothing, or it is removed, and was inactive.
pub make_room_at :
    (s : RateLimiter) (now : ℕ) (j k c : String)
    → IsDict s.buckets
    → (bucket_at (make_room s now j) k c ≡ bucket_at s k c)
      ⊎ ((bucket_at (make_room s now j) k c ≡ none)
          × ((b : TokenBucket) → bucket_at s k c ≡ some b → b.last_refill + 300000000 < now))
unfolding bucket_at make_room cleanup_inactive_buckets
make_room_at s now j k c h = elim (Option-cases (lookup k s.buckets)) [
  | inl e ↦ inl (ground (arith, e, lookup-erase_all k (keys_to_remove now s.buckets) s.buckets))
  | inr (cs, e) ↦ elim (Bool-cases (all_inactive now (values cs))) [
    | inl a ↦
        elim (Bool-cases (not (contains j s.buckets) && leb s.max_api_keys (length s.buckets))) [
          | inl g ↦ inr (
            ground (
              arith,
              e,
              a,
              g,
              member-keys_to_remove now k s.buckets h,
              lookup-erase_all k (keys_to_remove now s.buckets) s.buckets,
            ),
            λ b f. inactive_bucket now c cs b a (sym (bucket_at_found s k c cs e) ∙ f),
          )
          | inr g ↦ inl (rw g refl)
        ]
    | inr a ↦ inl (
        ground (
          arith,
          e,
          a,
          member-keys_to_remove now k s.buckets h,
          lookup-erase_all k (keys_to_remove now s.buckets) s.buckets,
        ))
  ]
]

pub make_room-IsDict :
    (s : RateLimiter) (now : ℕ) (j : String) → IsDict s.buckets → IsDict (make_room s now j).buckets
unfolding make_room cleanup_inactive_buckets
make_room-IsDict s now j h =
    ground (arith, erase_all-IsDict (keys_to_remove now s.buckets) s.buckets h)

pub limits-make_room :
    (s : RateLimiter) (now : ℕ) (j : String) → (make_room s now j).limits ≡ s.limits
unfolding make_room cleanup_inactive_buckets
limits-make_room s now j = ground arith

pub same_key : (j d k c : String) → (str_eq j k && str_eq d c) ≡ true → (j ≡ k) × (d ≡ c)
same_key j d k c h = ground (arith, eq_iff j k, eq_iff d c)
