-- ===== src/Youtube/Attempts.antt =====
-- `_execute_attempts` of app/providers/youtube.py: the retry loop around a yt-dlp process. What the
-- processes do is a parameter, `outcome`, by the number of the attempt.
pub mod Ends
pub mod Total
use text.Mathlib.Text.{find?}
use yt_dlp_api.Prelude.{
  ℕ, zero, suc, ◌+◌, ◌-◌, String, Bool, true, false, ◌||◌, Option, none, some, List, [], ◌∷◌, ◌++◌,
  ltb, ◌==◌, if◌then◌else◌, is_some, length, min, get_elem?,
}
use yt_dlp_api.Prelude.Text.{concat, decimal}

-- What one turn of the loop meets: the process ends with a return code, its output and its error
-- output (none if empty); the time is up; yt-dlp is missing; or any other exception, as `str(e)`.
pub data Attempt : Type 0 where
  exited : ℕ → String → Option String → Attempt
  timed_out not_found : Attempt
  unexpected : String → Attempt

-- A CompletedProcess, a DownloadError, or the IndexError of an empty list of waits.
pub data Executed : Type 0 where
  completed_process : String → Option String → Executed
  raises_download_error : String → Executed
  raises_index_error : Executed

-- `timeout` is `str(timeout)`.
pub record RetryConfig : Type 0 where
  pub retry_attempts : ℕ
  pub retry_backoff : List ℕ
  pub timeout : String

-- The processes started, the seconds slept, in order, and the calls of `_cleanup_process`.
pub record Log : Type 0 where
  pub started : ℕ
  pub slept : List ℕ
  pub cleanups : ℕ

abbrev pub retriable_patterns : List String
retriable_patterns =
    "HTTP Error 5" ∷ "Connection reset" ∷ "Timeout" ∷ "Too Many Requests" ∷ "HTTP Error 429"
    ∷ "Unable to connect" ∷ []

-- `any(pattern in error_msg for pattern in patterns)`
abbrev pub any_in : List String → String → Bool
any_in [] error_msg = false
any_in (p ∷ ps) error_msg = is_some (find? error_msg p) || any_in ps error_msg

unfoldable pub is_retriable_error : String → Bool
is_retriable_error error_msg = any_in retriable_patterns error_msg

-- `stderr.decode() if stderr else "Unknown error"`
abbrev pub error_text : Option String → String
error_text none = "Unknown error"
error_text (some stderr) = stderr

-- `self.retry_backoff[min(attempt, len(self.retry_backoff) - 1)]`; none: an IndexError, of an empty
-- list alone.
unfoldable pub wait_time : RetryConfig → ℕ → Option ℕ
wait_time c attempt = get_elem? c.retry_backoff (min attempt (length c.retry_backoff - 1))

abbrev pub timeout_message : RetryConfig → String
timeout_message c = concat (concat "Timeout after " c.timeout) "s"

abbrev pub last_error_text : Option String → String
last_error_text none = "None"
last_error_text (some e) = e

unfoldable pub failed_message : RetryConfig → Option String → String
failed_message c last_error =
    concat (concat (concat "Failed after " (decimal c.retry_attempts)) " attempts: ")
      (last_error_text last_error)

abbrev pub missing_message : String
missing_message = "yt-dlp is not installed or not in PATH"

abbrev pub start : Log → Log
start l = record l { started = suc l.started }

abbrev pub clean_up : Log → Log
clean_up l = record l { cleanups = suc l.cleanups }

abbrev pub sleep : ℕ → Log → Log
sleep w l = record l { slept = l.slept ++ w ∷ [] }

module _ (c : RetryConfig) where
  -- A wait before the next turn, in a handler: an IndexError there leaves the loop.
  abbrev pub wait_then : ℕ → Log → (Log → Log × Executed) → Log × Executed
  wait_then attempt l next = elim (wait_time c attempt) [
    | none ↦ (l, raises_index_error)
    | some w ↦ next (sleep w l)
  ]

  -- `except Exception as e`
  unfoldable pub handle_unexpected :
      ℕ → String → Log → (Option String → Log → Log × Executed) → Log × Executed
  handle_unexpected attempt e l next =
      if attempt + 1 == c.retry_attempts
      then (clean_up l, raises_download_error (concat "Unexpected error: " e))
      else wait_then attempt (clean_up l) (next (some e))

  -- A return code that is not 0. The IndexError of an empty list is raised in the `try` block, so
  -- the last handler takes it first.
  unfoldable pub handle_exit :
      ℕ → String → Log → (Option String → Log → Log × Executed) → Log × Executed
  unfolding handle_unexpected is_retriable_error
  handle_exit attempt error_msg l next =
      if is_retriable_error error_msg
      then (if ltb attempt (c.retry_attempts - 1)
          then (elim (wait_time c attempt) [
            | none ↦ handle_unexpected attempt "list index out of range" l next
            | some w ↦ next (some error_msg) (sleep w l)
          ])
          else next (some error_msg) l)
      else (l, raises_download_error error_msg)

  -- `except asyncio.TimeoutError`
  unfoldable pub handle_timeout : ℕ → Log → (Option String → Log → Log × Executed) → Log × Executed
  handle_timeout attempt l next =
      if ltb attempt (c.retry_attempts - 1)
      then wait_then attempt (clean_up l) (next (some (timeout_message c)))
      else next (some (timeout_message c)) (clean_up l)

  -- One turn of the loop, with the turns after it.
  unfoldable pub turn : Attempt → ℕ → Log → (Option String → Log → Log × Executed) → Log × Executed
  unfolding handle_exit handle_timeout handle_unexpected
  turn (exited code stdout stderr) attempt l next =
      if code == 0
      then (l, completed_process stdout stderr)
      else handle_exit attempt (error_text stderr) l next
  turn timed_out attempt l next = handle_timeout attempt l next
  turn not_found attempt l next = (l, raises_download_error missing_message)
  turn (unexpected e) attempt l next = handle_unexpected attempt e l next

  module _ (outcome : ℕ → Attempt) where
    -- `for attempt in range(self.retry_attempts)`, with `rounds` turns left.
    unfoldable pub attempts_from : ℕ → ℕ → Option String → Log → Log × Executed
    unfolding turn failed_message
    attempts_from zero attempt last_error l =
        (l, raises_download_error (failed_message c last_error))
    attempts_from (suc rounds) attempt last_error l =
        turn (outcome attempt) attempt (start l) (λ e l'. attempts_from rounds (suc attempt) e l')

    unfoldable pub execute_attempts : Log × Executed
    unfolding attempts_from
    execute_attempts =
        attempts_from c.retry_attempts 0 none (record { started = 0; slept = []; cleanups = 0 })
