-- ===== src/Cookie/Timed.antt =====
-- A dictionary of values with the times at which they expire meets the contract of TTLCache.
use yt_dlp_api.Prelude.{
  ℕ, ◌+◌, ◌≤◌, String, Bool, false, Option, none, some, [], ◌≡◌, refl, ltb, if◌then◌else◌, str_eq,
  arith, inl, inr, eq_refl, Bool-cases,
}
use yt_dlp_api.Prelude.Dict.{Dict, lookup, insert, erase, lookup-insert, lookup-erase}
use yt_dlp_api.Cookie.Cache.{TtlCache}

abbrev pub live : ℕ → Option (Bool × ℕ) → Option Bool
live t none = none
live t (some (v, expires)) = if ltb t expires then some v else none

abbrev pub get : Dict (Bool × ℕ) → ℕ → String → Option Bool
get d t k = live t (lookup k d)

pub set-same :
    (ttl : ℕ) (d : Dict (Bool × ℕ)) (now t : ℕ) (k : String) (v : Bool)
    → get (insert k (v, now + ttl) d) t k ≡ (if ltb t (now + ttl) then some v else none)
set-same ttl d now t k v = rw (lookup-insert k k (v, now + ttl) d, eq_refl k) refl

pub set-other :
    (ttl : ℕ) (d : Dict (Bool × ℕ)) (now t : ℕ) (k j : String) (v : Bool)
    → str_eq k j ≡ false
    → get (insert k (v, now + ttl) d) t j ≡ get d t j
set-other ttl d now t k j v h = rw (lookup-insert k j (v, now + ttl) d, h) refl

pub delete-lem :
    (d : Dict (Bool × ℕ)) (t : ℕ) (k j : String)
    → get (erase k d) t j ≡ (if str_eq k j then none else get d t j)
delete-lem d t k j = elim (Bool-cases (str_eq k j)) [
  | inl e ↦ rw (lookup-erase k j d, e) refl
  | inr e ↦ rw (lookup-erase k j d, e) refl
]

pub live-earlier :
    (o : Option (Bool × ℕ)) (now t : ℕ) (b : Bool)
    → now ≤ t
    → live t o ≡ some b
    → live now o ≡ some b
live-earlier none now t b l h = absurd cc
live-earlier (some (v, expires)) now t b l h = ground arith

abbrev pub timed_dict : (ttl : ℕ) → TtlCache (Dict (Bool × ℕ)) ttl
timed_dict ttl = record {
  empty = [];
  get = get;
  set = λ d now k v. insert k (v, now + ttl) d;
  delete = λ d k. erase k d;
  get-empty = λ t k. refl;
  get-set = λ c now t k v h. set-same ttl c now t k v;
  get-set-other = λ c now t k j v b e h. rw (set-other ttl c now t k j v e) at h;
  get-delete = delete-lem;
  get-earlier = λ c now t k b l h. live-earlier (lookup k c) now t b l h;
}
