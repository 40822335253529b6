-- ===== src/Webhook/Total.antt =====
-- `deliver` of app/services/webhook_service.py: the posts, the sleeps and the answer of a call.
use mathlib.Core.List.{append-nil, append_assoc}
use yt_dlp_api.Prelude.{
  ℕ, zero, suc, ◌+◌, ◌-◌, ◌^◌, ◌≤◌, ◌<◌, min, String, true, false, List, [], ◌∷◌, ◌++◌, ◌≡◌, refl,
  sym, ap, ◌∙◌, subst, inl, inr, arith, ltb, if◌then◌else◌, Bool-cases,
}
use yt_dlp_api.Webhook.{
  WebhookService, Post, post_of, Answer, responded, http_error, raises, Trace, Delivery, returned,
  send, pause, deliver,
}
use yt_dlp_api.Webhook.Delivered.{
  is_retried, delivery_of, counted_by, copies, doubling, total, after_rounds, settled, Ends,
  settles, gives_up, deliver_from-Ends,
}

module _ (s : WebhookService) (event : String) (post : Post) (answer : ℕ → Answer) where
  pause_log :
      (i : ℕ) (l : Trace)
      → ((pause s event post answer (suc i) l).posts ≡ l.posts)
        × ((pause s event post answer (suc i) l).recorded ≡ l.recorded)
        × ((pause s event post answer (suc i) l).slept
            ≡ (if ltb (suc i) s.max_retries then l.slept ++ 2 ^ i ∷ [] else l.slept))
  pause_log i l = elim (Bool-cases (ltb (suc i) s.max_retries)) [
    | inl e ↦ rw e (refl, refl, ap (λ n. l.slept ++ 2 ^ n ∷ []) (omega arith))
    | inr e ↦ rw e (refl, refl, refl)
  ]

  -- The sleeps are those between attempts: there is none after the last one allowed.
  slept_step :
      (i k : ℕ) (ns : List ℕ)
      → (if ltb (suc i) s.max_retries then ns ++ 2 ^ i ∷ [] else ns)
          ++ doubling (suc i) (min k (s.max_retries - suc (suc i)))
        ≡ ns ++ doubling i (min (suc k) (s.max_retries - suc i))
  slept_step i k ns = elim (Bool-cases (ltb (suc i) s.max_retries)) [
    | inl e ↦
        let more : min (suc k) (s.max_retries - suc i) ≡ suc (min k (s.max_retries - suc (suc i))) =
          ground arith in
        rw (e, more)
          (append_assoc ns (2 ^ i ∷ []) (doubling (suc i) (min k (s.max_retries - suc (suc i)))))
    | inr e ↦
        let none_left : min (suc k) (s.max_retries - suc i) ≡ 0 = ground arith in
        let none_later : min k (s.max_retries - suc (suc i)) ≡ 0 = ground arith in
        rw (e, none_left, none_later) refl
  ]

  after_rounds_log :
      (i k : ℕ) (l : Trace)
      → ((after_rounds s event post answer i k l).posts ≡ l.posts ++ copies k post)
        × ((after_rounds s event post answer i k l).recorded ≡ l.recorded)
        × ((after_rounds s event post answer i k l).slept
            ≡ l.slept ++ doubling i (min k (s.max_retries - suc i)))
  after_rounds_log i zero l =
      let none_left : min 0 (s.max_retries - suc i) ≡ 0 = omega arith in
      (sym (append-nil l.posts), refl, rw none_left (sym (append-nil l.slept)))
  after_rounds_log i (suc k) l =
      let paused = pause_log i (send post l) in
      let ih = after_rounds_log (suc i) k (pause s event post answer (suc i) (send post l)) in
      (
        ih.0
            ∙ ap (λ ps. ps ++ copies k post) paused.0
            ∙ append_assoc l.posts (post ∷ []) (copies k post),
        ih.1 ∙ paused.1,
        ih.2
            ∙ ap (λ ns. ns ++ doubling (suc i) (min k (s.max_retries - suc (suc i)))) paused.2
            ∙ slept_step i k l.slept,
      )

  copies_more : (k : ℕ) → copies k post ++ post ∷ [] ≡ copies (suc k) post
  copies_more zero = refl
  copies_more (suc k) = ap (λ ps. post ∷ ps) (copies_more k)

  -- How a delivery may end.
  pub data Delivers (r : Trace × Delivery) : Type 0 where
    decided :
        (k : ℕ)
        → k < s.max_retries
        → ((j : ℕ) → j < k → is_retried (answer (suc j)) ≡ true)
        → is_retried (answer (suc k)) ≡ false
        → r.1 ≡ delivery_of (answer (suc k))
        → r.0.recorded ≡ counted_by event (answer (suc k))
        → r.0.posts ≡ copies (suc k) post
        → r.0.slept ≡ doubling 0 k
        → Delivers r
    given_up :
        ((j : ℕ) → j < s.max_retries → is_retried (answer (suc j)) ≡ true)
        → r.1 ≡ returned false
        → r.0.recorded ≡ (event, "failed") ∷ []
        → r.0.posts ≡ copies s.max_retries post
        → r.0.slept ≡ doubling 0 (s.max_retries - 1)
        → Delivers r

  abbrev empty_trace : Trace
  empty_trace = record { posts = []; slept = []; recorded = [] }

  settled_log :
      (a : Answer) (l : Trace)
      → ((settled s event post answer a l).1 ≡ delivery_of a)
        × ((settled s event post answer a l).0.recorded ≡ l.recorded ++ counted_by event a)
        × ((settled s event post answer a l).0.posts ≡ l.posts ++ post ∷ [])
        × ((settled s event post answer a l).0.slept ≡ l.slept)
  settled_log (responded code) l = (refl, refl, refl, refl)
  settled_log http_error l = (refl, refl, refl, refl)
  settled_log (raises e) l = (refl, sym (append-nil l.recorded), refl, refl)

  Ends-Delivers :
      (r : Trace × Delivery) → Ends s event post answer 0 s.max_retries empty_trace r → Delivers r
  Ends-Delivers r (settles k lt g n q) =
      let logged = after_rounds_log 0 k empty_trace in
      let last : suc (0 + k) ≡ suc k = omega arith in
      let l = after_rounds s event post answer 0 k empty_trace in
      let ends = settled_log (answer (suc (0 + k))) l in
      let passed : min k (s.max_retries - 1) ≡ k = omega arith in
      decided k lt (λ j h. subst (λ m. is_retried (answer (suc m)) ≡ true) (omega arith) (g j h))
        (subst (λ m. is_retried (answer m) ≡ false) last n)
        (ap (λ (x : Trace × Delivery). x.1) q ∙ ends.0 ∙ ap (λ m. delivery_of (answer m)) last)
        (ap (λ (x : Trace × Delivery). x.0.recorded) q
          ∙ ends.1
          ∙ ap (λ rs. rs ++ counted_by event (answer (suc (0 + k)))) logged.1
          ∙ ap (λ m. counted_by event (answer m)) last)
        (ap (λ (x : Trace × Delivery). x.0.posts) q
          ∙ ends.2
          ∙ ap (λ ps. ps ++ post ∷ []) logged.0
          ∙ copies_more k)
        (ap (λ (x : Trace × Delivery). x.0.slept) q ∙ ends.3 ∙ logged.2 ∙ ap (doubling 0) passed)
  Ends-Delivers r (gives_up g q) =
      let logged = after_rounds_log 0 s.max_retries empty_trace in
      let passed : min s.max_retries (s.max_retries - 1) ≡ s.max_retries - 1 = omega arith in
      given_up (λ j h. subst (λ m. is_retried (answer (suc m)) ≡ true) (omega arith) (g j h))
        (ap (λ (x : Trace × Delivery). x.1) q)
        (ap (λ (x : Trace × Delivery). x.0.recorded) q
          ∙ ap (λ rs. rs ++ (event, "failed") ∷ []) logged.1)
        (ap (λ (x : Trace × Delivery). x.0.posts) q ∙ logged.0)
        (ap (λ (x : Trace × Delivery). x.0.slept) q ∙ logged.2 ∙ ap (doubling 0) passed)

total-doubling : (i k : ℕ) → total (doubling i k) + 2 ^ i ≡ 2 ^ (i + k)
total-doubling i zero =
    let same : 2 ^ i ≡ 2 ^ (i + 0) = ap (λ n. 2 ^ n) (omega arith) in omega arith
total-doubling i (suc k) =
    let shift : 2 ^ (suc i + k) ≡ 2 ^ (i + suc k) = ap (λ n. 2 ^ n) (omega arith) in
    omega (arith, total-doubling (suc i) k, shift)

pow_grows : (a d : ℕ) → 2 ^ a ≤ 2 ^ (a + d)
pow_grows a zero = let same : 2 ^ a ≡ 2 ^ (a + 0) = ap (λ n. 2 ^ n) (omega arith) in omega arith
pow_grows a (suc d) =
    let shift : 2 ^ suc (a + d) ≡ 2 ^ (a + suc d) = ap (λ n. 2 ^ n) (omega arith) in
    omega (arith, pow_grows a d, shift)

pow_le : (a b : ℕ) → a ≤ b → 2 ^ a ≤ 2 ^ b
pow_le a b h =
    let same : 2 ^ (a + (b - a)) ≡ 2 ^ b = ap (λ n. 2 ^ n) (omega arith) in
    omega (arith, pow_grows a (b - a), same)

-- `deliver` always ends, whatever the posts are answered. The first post that gets a status of 2xx
-- or raises something else than an httpx.HTTPError decides, if it is one of the `max_retries`
-- allowed: True is returned, or the exception passes on. Otherwise all of them fail, and False is
-- returned. One post is made for each attempt, all alike; the sleep after the first is a second
-- and doubles from one attempt to the next, with none after the last. A success and a failure of
-- all attempts are counted once.
pub deliver-Delivers :
    (hmac_hex : String → String → String) (s : WebhookService) (url event delivery body : String)
    (answer : ℕ → Answer)
    → Delivers s event
        (post_of hmac_hex s url event delivery body)
        answer
        (deliver hmac_hex s url event delivery body answer)
unfolding deliver
deliver-Delivers hmac_hex s url event delivery body answer =
    let post = post_of hmac_hex s url event delivery body in
    Ends-Delivers s event post answer _ (
      deliver_from-Ends s event post answer s.max_retries 0
        (record { posts = []; slept = []; recorded = [] }))

Delivers-short :
    (s : WebhookService) (event : String) (post : Post) (answer : ℕ → Answer) (r : Trace × Delivery)
    → 0 < s.max_retries
    → Delivers s event post answer r
    → total r.0.slept < 2 ^ (s.max_retries - 1)
Delivers-short s event post answer r p (decided k lt g n a c q t) =
    let longest = pow_le k (s.max_retries - 1) (omega arith) in
    let spent = ap total t in
    let sum = total-doubling 0 k in
    let same : 2 ^ (0 + k) ≡ 2 ^ k = ap (λ m. 2 ^ m) (omega arith) in omega arith
Delivers-short s event post answer r p (given_up g a c q t) =
    let spent = ap total t in
    let sum = total-doubling 0 (s.max_retries - 1) in
    let same : 2 ^ (0 + (s.max_retries - 1)) ≡ 2 ^ (s.max_retries - 1) =
      ap (λ m. 2 ^ m) (omega arith) in
    omega arith

-- Where an attempt is allowed, a delivery sleeps for less than 2 ^ (max_retries - 1) seconds in all.
deliver_sleeps :
    (hmac_hex : String → String → String) (s : WebhookService) (url event delivery body : String)
    (answer : ℕ → Answer)
    → 0 < s.max_retries
    → total (deliver hmac_hex s url event delivery body answer).0.slept < 2 ^ (s.max_retries - 1)
deliver_sleeps hmac_hex s url event delivery body answer p =
    Delivers-short s event (post_of hmac_hex s url event delivery body) answer _ p
      (deliver-Delivers hmac_hex s url event delivery body answer)
