-- ===== src/Job.antt =====
-- app/models/job.py: the status of a download job, the job record and its tests.
-- Times are microseconds since the earliest `datetime`, durations microseconds.
use yt_dlp_api.Prelude.{ℕ, String, Bool, true, false, Option, none, some, [], ◌∷◌, ltb}
use yt_dlp_api.Prelude.Dict.{Dict}

pub data JobStatus : Type 0 where
  pending processing retrying completed failed : JobStatus

abbrev pub status_eq : JobStatus → JobStatus → Bool
status_eq JobStatus.pending JobStatus.pending = true
status_eq JobStatus.processing JobStatus.processing = true
status_eq JobStatus.retrying JobStatus.retrying = true
status_eq JobStatus.completed JobStatus.completed = true
status_eq JobStatus.failed JobStatus.failed = true
status_eq _ _ = false

-- `status in (JobStatus.COMPLETED, JobStatus.FAILED)`
abbrev pub is_terminal_status : JobStatus → Bool
is_terminal_status JobStatus.completed = true
is_terminal_status JobStatus.failed = true
is_terminal_status _ = false

-- A value of `params`: the request's texts, flags and `None`.
pub data Value : Type 0 where
  text : String → Value
  flag : Bool → Value
  null : Value

pub record Job : Type 0 where
  pub job_id : String
  pub url : String
  pub status : JobStatus
  pub params : Dict Value
  pub progress : ℕ
  pub retry_count : ℕ
  pub max_retries : ℕ
  pub error_message : Option String
  pub file_path : Option String
  pub file_size : Option ℕ
  pub duration : Option ℕ
  pub created_at : ℕ
  pub started_at : Option ℕ
  pub completed_at : Option ℕ
  pub queue_position : Option ℕ

abbrev pub is_terminal : Job → Bool
is_terminal job = is_terminal_status job.status

unfoldable pub can_retry : Job → Bool
can_retry job = ltb job.retry_count job.max_retries

-- The status as its string.
abbrev pub status_value : JobStatus → String
status_value JobStatus.pending = "pending"
status_value JobStatus.processing = "processing"
status_value JobStatus.retrying = "retrying"
status_value JobStatus.completed = "completed"
status_value JobStatus.failed = "failed"

-- A value of the dictionary that `to_dict` gives.
pub data Shown : Type 0 where
  shown_text : String → Shown
  shown_number : ℕ → Shown
  shown_none : Shown

abbrev pub optional_text : Option String → Shown
optional_text none = shown_none
optional_text (some t) = shown_text t

abbrev pub optional_number : Option ℕ → Shown
optional_number none = shown_none
optional_number (some n) = shown_number n

-- `t.isoformat() if t else None`
abbrev pub optional_time : (ℕ → String) → Option ℕ → Shown
optional_time isoformat none = shown_none
optional_time isoformat (some t) = shown_text (isoformat t)

unfoldable pub to_dict : (ℕ → String) → Job → Dict Shown
to_dict isoformat job =
    ("job_id", shown_text job.job_id)
    ∷ ("status", shown_text (status_value job.status))
    ∷ ("url", shown_text job.url)
    ∷ ("progress", shown_number job.progress)
    ∷ ("retry_count", shown_number job.retry_count)
    ∷ ("error_message", optional_text job.error_message)
    ∷ ("file_path", optional_text job.file_path)
    ∷ ("file_size", optional_number job.file_size)
    ∷ ("duration", optional_number job.duration)
    ∷ ("created_at", shown_text (isoformat job.created_at))
    ∷ ("started_at", optional_time isoformat job.started_at)
    ∷ ("completed_at", optional_time isoformat job.completed_at)
    ∷ ("queue_position", optional_number job.queue_position)
    ∷ []
