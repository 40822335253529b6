-- ===== src/Webhook/Delivered.antt =====
-- `deliver` of app/services/webhook_service.py: the whole loop, whatever the posts are answered.
use yt_dlp_api.Prelude.{
  ℕ, zero, suc, ◌+◌, ◌^◌, ◌<◌, String, Bool, true, false, not, List, [], ◌∷◌, ◌≡◌, refl, sym, ap,
  ◌∙◌, subst, inl, inr, arith, if◌then◌else◌, Bool-cases,
}
use yt_dlp_api.Webhook.{
  WebhookService, Post, Answer, responded, http_error, raises, Trace, Delivery, returned, raised,
  is_success, send, count_delivery, pause, deliver_from,
}

-- The answers after which the loop goes on.
abbrev pub is_retried : Answer → Bool
is_retried (responded code) = not (is_success code)
is_retried http_error = true
is_retried (raises e) = false

-- What the others make of the call, and of the count of deliveries.
abbrev pub delivery_of : Answer → Delivery
delivery_of (raises e) = raised e
delivery_of other = returned true

abbrev pub counted_by : String → Answer → List (String × String)
counted_by event (raises e) = []
counted_by event other = (event, "success") ∷ []

abbrev pub copies : ℕ → Post → List Post
copies zero p = []
copies (suc n) p = p ∷ copies n p

-- 2 ^ i, 2 ^ (i + 1), and so on.
abbrev pub doubling : ℕ → ℕ → List ℕ
doubling i zero = []
doubling i (suc k) = 2 ^ i ∷ doubling (suc i) k

abbrev pub total : List ℕ → ℕ
total [] = 0
total (n ∷ ns) = n + total ns

module _ (s : WebhookService) (event : String) (post : Post) (answer : ℕ → Answer) where
  -- The trace after `k` attempts that go on, from the one after the `i`th.
  abbrev pub after_rounds : ℕ → ℕ → Trace → Trace
  after_rounds i zero l = l
  after_rounds i (suc k) l =
      after_rounds (suc i) k (pause s event post answer (suc i) (send post l))

  -- The end of the attempts.
  abbrev pub settled : Answer → Trace → Trace × Delivery
  settled (raises e) l = (send post l, raised e)
  settled other l = (count_delivery event "success" (send post l), returned true)

  pub data Ends (i rounds : ℕ) (l : Trace) (r : Trace × Delivery) : Type 0 where
    settles :
        (k : ℕ)
        → k < rounds
        → ((j : ℕ) → j < k → is_retried (answer (suc (i + j))) ≡ true)
        → is_retried (answer (suc (i + k))) ≡ false
        → r ≡ settled (answer (suc (i + k))) (after_rounds i k l)
        → Ends i rounds l r
    gives_up :
        ((j : ℕ) → j < rounds → is_retried (answer (suc (i + j))) ≡ true)
        → r ≡ (count_delivery event "failed" (after_rounds i rounds l), returned false)
        → Ends i rounds l r

  earlier :
      (i k : ℕ)
      → is_retried (answer (suc i)) ≡ true
      → ((j : ℕ) → j < k → is_retried (answer (suc (suc i + j))) ≡ true)
      → (j : ℕ) → j < suc k
      → is_retried (answer (suc (i + j))) ≡ true
  earlier i k h g zero l = subst (λ n. is_retried (answer (suc n)) ≡ true) (omega arith) h
  earlier i k h g (suc j) l =
      subst (λ n. is_retried (answer n) ≡ true) (omega arith) (g j (omega arith))

  Ends-later :
      (i rounds : ℕ) (l : Trace) (r : Trace × Delivery)
      → is_retried (answer (suc i)) ≡ true
      → Ends (suc i) rounds (pause s event post answer (suc i) (send post l)) r
      → Ends i (suc rounds) l r
  Ends-later i rounds l r h (settles k lt g n q) =
      let shift : suc (suc i + k) ≡ suc (i + suc k) = omega arith in
      settles (suc k) (omega arith) (earlier i k h g)
        (subst (λ m. is_retried (answer m) ≡ false) shift n)
        (q ∙ ap (λ m. settled (answer m) (after_rounds i (suc k) l)) shift)
  Ends-later i rounds l r h (gives_up g q) = gives_up (earlier i rounds h g) q

  -- One attempt.
  deliver_stops :
      (a : Answer) (rest : Trace × Delivery) (l : Trace)
      → is_retried a ≡ false
      → (elim a as (λ x. Trace × Delivery) [
        | http_error ↦ rest
        | raises e ↦ (send post l, raised e)
        | responded code ↦
            if is_success code
            then (count_delivery event "success" (send post l), returned true)
            else rest
      ])
        ≡ settled a l
  deliver_stops (responded code) rest l h = elim (Bool-cases (is_success code)) [
    | inl e ↦ rw e refl
    | inr e ↦ absurd (let k = rw e at h in cc)
  ]
  deliver_stops http_error rest l h = absurd cc
  deliver_stops (raises e) rest l h = refl

  deliver_goes :
      (a : Answer) (rest : Trace × Delivery) (l : Trace)
      → is_retried a ≡ true
      → (elim a as (λ x. Trace × Delivery) [
        | http_error ↦ rest
        | raises e ↦ (send post l, raised e)
        | responded code ↦
            if is_success code
            then (count_delivery event "success" (send post l), returned true)
            else rest
      ])
        ≡ rest
  deliver_goes (responded code) rest l h = elim (Bool-cases (is_success code)) [
    | inr e ↦ rw e refl
    | inl e ↦ absurd (let k = rw e at h in cc)
  ]
  deliver_goes http_error rest l h = refl
  deliver_goes (raises e) rest l h = absurd cc

  pub deliver_from-Ends :
      (rounds i : ℕ) (l : Trace)
      → Ends i rounds l (deliver_from s event post answer rounds (suc i) l)
  unfolding deliver_from
  deliver_from-Ends zero i l = gives_up (λ j h. absurd (omega arith)) refl
  deliver_from-Ends (suc n) i l = elim (Bool-cases (is_retried (answer (suc i)))) [
    | inl e ↦ Ends-later i n l _ e (
        subst (Ends (suc i) n (pause s event post answer (suc i) (send post l)))
          (sym (deliver_goes (answer (suc i)) _ l e))
          (deliver_from-Ends n (suc i) (pause s event post answer (suc i) (send post l))))
    | inr e ↦
        let same : suc i ≡ suc (i + 0) = omega arith in
        settles 0 (omega arith) (λ j h. absurd (omega arith))
          (subst (λ m. is_retried (answer m) ≡ false) same e)
          (deliver_stops (answer (suc i)) _ l e ∙ ap (λ m. settled (answer m) l) same)
  ]
