-- ===== src/Cookie/Cache.antt =====
-- What app/services/cookie_service.py uses of cachetools' TTLCache, with the behaviour that its
-- documentation promises: an item is there until its time to live is over or the cache, being full,
-- drops it for another. `Timed.antt` has an instance.
use yt_dlp_api.Prelude.{
  ℕ, ◌+◌, ◌≤◌, String, Bool, false, Option, none, some, ◌≡◌, ltb, if◌then◌else◌, str_eq,
}

-- `get c t k` is `c.get(k)` at the time `t`, `set c t k v` is `c[k] = v`, and `delete c k` is
-- `del c[k]`, of a key that is there.
pub record TtlCache (C : Type 0) (ttl : ℕ) : Type 0 where
  pub empty : C
  pub get : C → ℕ → String → Option Bool
  pub set : C → ℕ → String → Bool → C
  pub delete : C → String → C
  pub get-empty : (t : ℕ) (k : String) → get empty t k ≡ none
  pub get-set :
      (c : C) (now t : ℕ) (k : String) (v : Bool)
      → now ≤ t
      → get (set c now k v) t k ≡ (if ltb t (now + ttl) then some v else none)
  pub get-set-other :
      (c : C) (now t : ℕ) (k j : String) (v b : Bool)
      → str_eq k j ≡ false
      → get (set c now k v) t j ≡ some b
      → get c t j ≡ some b
  pub get-delete :
      (c : C) (t : ℕ) (k j : String)
      → get (delete c k) t j ≡ (if str_eq k j then none else get c t j)
  pub get-earlier :
      (c : C) (now t : ℕ) (k : String) (b : Bool)
      → now ≤ t
      → get c t k ≡ some b
      → get c now k ≡ some b
