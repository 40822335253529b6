-- ===== src/Youtube/Attempts/Total.antt =====
-- `_execute_attempts` of app/providers/youtube.py: the whole loop, for every behaviour of yt-dlp.
use yt_dlp_api.Prelude.{
  ℕ, zero, suc, ◌+◌, ◌<◌, String, true, Option, none, some, List, [], ◌∷◌, ◌≡◌, is_some,
}
use yt_dlp_api.Youtube.Attempts.{
  Attempt, Executed, raises_download_error, RetryConfig, Log, wait_time, failed_message, start,
  sleep,
}
use yt_dlp_api.Youtube.Attempts.Ends.{goes_on, verdict, exhausted, tidy}

module _ (c : RetryConfig) (outcome : ℕ → Attempt) where
  -- The seconds slept after an attempt.
  abbrev pub wait_at : ℕ → ℕ
  wait_at i = elim (wait_time c i) [ none ↦ 0 | some w ↦ w ]

  -- The log after `k` attempts from the `i`th on that go on.
  abbrev pub after_rounds : ℕ → ℕ → Log → Log
  after_rounds i zero l = l
  after_rounds i (suc k) l =
      after_rounds (suc i) k (sleep (wait_at i) (tidy c (outcome i) (start l)))

  abbrev pub outcome_at : ℕ → ℕ → Attempt
  outcome_at i zero = outcome i
  outcome_at i (suc k) = outcome_at (suc i) k

  -- The `k` attempts from the `i`th on go on.
  abbrev pub Pass : ℕ → ℕ → Type 0
  Pass i zero = Unit
  Pass i (suc k) = (is_some (goes_on c (outcome i)) ≡ true) × Pass (suc i) k

  pub data Ends (i rounds : ℕ) (last : Option String) (l : Log) (r : Log × Executed) : Type 0 where
    decided :
        (k : ℕ)
        → k < rounds
        → Pass i k
        → goes_on c (outcome_at i k) ≡ none
        → r ≡ (start (after_rounds i k l), verdict c (outcome_at i k))
        → Ends i rounds last l r
    exhausts :
        (k : ℕ)
        → rounds ≡ suc k
        → Pass i (suc k)
        → r ≡ (tidy c (outcome_at i k) (start (after_rounds i k l)), exhausted c (outcome_at i k))
        → Ends i rounds last l r
    no_attempt :
        rounds ≡ 0 → r ≡ (l, raises_download_error (failed_message c last)) → Ends i rounds last l r

  -- The seconds slept after the first `k` attempts from the `i`th on.
  abbrev pub waits : ℕ → ℕ → List ℕ
  waits i zero = []
  waits i (suc k) = wait_at i ∷ waits (suc i) k

  -- How a call may end.
  pub data Executes (r : Log × Executed) : Type 0 where
    decided_at :
        (k : ℕ)
        → k < c.retry_attempts
        → ((j : ℕ) → j < k → is_some (goes_on c (outcome j)) ≡ true)
        → goes_on c (outcome k) ≡ none
        → r.1 ≡ verdict c (outcome k)
        → r.0.started ≡ k + 1
        → r.0.slept ≡ waits 0 k
        → Executes r
    used_up :
        (k : ℕ)
        → c.retry_attempts ≡ k + 1
        → ((j : ℕ) → j < k + 1 → is_some (goes_on c (outcome j)) ≡ true)
        → r.1 ≡ exhausted c (outcome k)
        → r.0.started ≡ k + 1
        → r.0.slept ≡ waits 0 k
        → Executes r
    none_allowed :
        c.retry_attempts ≡ 0
        → r.1 ≡ raises_download_error (failed_message c none)
        → r.0.started ≡ 0
        → r.0.slept ≡ []
        → Executes r

  abbrev empty_log : Log
  empty_log = record { started = 0; slept = []; cleanups = 0 }
