-- ===== src/Youtube/Attempts/Ends.antt =====
-- `_execute_attempts` of app/providers/youtube.py: how the retry loop ends.
use yt_dlp_api.Prelude.{
  ℕ, zero, suc, ◌+◌, ◌-◌, ◌<◌, String, true, Option, none, some, List, [], ◌∷◌, ◌≡◌, refl, arith,
  ◌==◌, if◌then◌else◌, is_some, length, min, get_elem?,
}
use yt_dlp_api.Prelude.Text.{concat}
use yt_dlp_api.Youtube.Attempts.{
  Attempt, exited, timed_out, not_found, unexpected, Executed, completed_process,
  raises_download_error, raises_index_error, RetryConfig, Log, is_retriable_error, error_text,
  wait_time, timeout_message, failed_message, missing_message, clean_up, sleep, turn, handle_exit,
  handle_timeout, handle_unexpected,
}

get_elem-in_range : (ws : List ℕ) (i : ℕ) → i < length ws → is_some (get_elem? ws i) ≡ true
get_elem-in_range [] i h = absurd (omega arith)
get_elem-in_range (w ∷ ws) zero h = refl
get_elem-in_range (w ∷ ws) (suc i) h = get_elem-in_range ws i (omega arith)

module _ (c : RetryConfig) where
  -- The error with which the loop goes on after an attempt, if it does.
  abbrev pub goes_on : Attempt → Option String
  goes_on (exited code stdout stderr) =
      if code == 0
      then none
      else if is_retriable_error (error_text stderr)
      then some (error_text stderr)
      else none
  goes_on timed_out = some (timeout_message c)
  goes_on not_found = none
  goes_on (unexpected e) = some e

  -- What an attempt that ends the loop makes of the call.
  abbrev pub verdict : Attempt → Executed
  verdict (exited code stdout stderr) =
      if code == 0
      then completed_process stdout stderr
      else raises_download_error (error_text stderr)
  verdict not_found = raises_download_error missing_message
  verdict other = raises_index_error

  -- What the last attempt makes of the call, where it would go on.
  abbrev pub exhausted : Attempt → Executed
  exhausted (unexpected e) = raises_download_error (concat "Unexpected error: " e)
  exhausted a = raises_download_error (failed_message c (goes_on a))

  -- A process that may still run is cleaned up.
  abbrev pub tidy : Attempt → Log → Log
  tidy timed_out l = clean_up l
  tidy (unexpected e) l = clean_up l
  tidy a l = l

  pub wait_time_found : (i : ℕ) → 0 < length c.retry_backoff → is_some (wait_time c i) ≡ true
  unfolding wait_time
  wait_time_found i h =
      get_elem-in_range c.retry_backoff (min i (length c.retry_backoff - 1)) (omega arith)

  pub turn_decided :
      (a : Attempt) (i : ℕ) (l : Log) (next : Option String → Log → Log × Executed)
      → goes_on a ≡ none
      → turn c a i l next ≡ (l, verdict a)
  unfolding turn handle_exit
  turn_decided (exited code stdout stderr) i l next h = ground arith
  turn_decided timed_out i l next h = absurd cc
  turn_decided not_found i l next h = refl
  turn_decided (unexpected e) i l next h = absurd cc

  pub turn_continues :
      (a : Attempt) (i w : ℕ) (e : String) (l : Log) (next : Option String → Log → Log × Executed)
      → goes_on a ≡ some e
      → i + 1 < c.retry_attempts
      → wait_time c i ≡ some w
      → turn c a i l next ≡ next (some e) (sleep w (tidy a l))
  unfolding turn handle_exit handle_timeout handle_unexpected
  turn_continues (exited code stdout stderr) i w e l next h k g = ground arith
  turn_continues timed_out i w e l next h k g = ground arith
  turn_continues not_found i w e l next h k g = absurd cc
  turn_continues (unexpected f) i w e l next h k g = ground arith

  pub turn_last :
      (a : Attempt) (i : ℕ) (e : String) (l : Log) (next : Option String → Log → Log × Executed)
      → goes_on a ≡ some e
      → i + 1 ≡ c.retry_attempts
      → ((f : String) (l' : Log)
          → next (some f) l' ≡ (l', raises_download_error (failed_message c (some f))))
      → turn c a i l next ≡ (tidy a l, exhausted a)
  unfolding turn handle_exit handle_timeout handle_unexpected
  turn_last (exited code stdout stderr) i e l next h k g = ground (arith, g (error_text stderr) l)
  turn_last timed_out i e l next h k g = ground (arith, g (timeout_message c) (clean_up l))
  turn_last not_found i e l next h k g = absurd cc
  turn_last (unexpected f) i e l next h k g = ground arith
