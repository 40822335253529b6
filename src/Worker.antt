-- ===== src/Worker.antt =====
-- app/services/download_worker.py, with the job table, the queue and the storage that it drives,
-- and the two modes of `POST /download` (app/api/download.py). A task suspends only while the
-- provider downloads, so `_process_job` is two steps, `begin_job` and `finish_job`, with any
-- steps of others between. A step reads the clock once.
pub mod Steps
pub mod Slots
pub mod Finish
pub mod Adds
pub mod Sync
pub mod Reach
pub mod Sound
pub mod Notified
pub mod Hooks
mod Tests
use yt_dlp_api.Prelude.{
  ℕ, String, Bool, true, false, ◌&&◌, Option, none, some, List, [], ◌∷◌, ◌++◌, if◌then◌else◌,
  str_eq, not,
}
use yt_dlp_api.Prelude.Dict.{Dict, lookup}
use yt_dlp_api.Prelude.Result.{Result, ok, err}
use yt_dlp_api.Prelude.Text.{concat, decimal}
use yt_dlp_api.Job.{Job, JobStatus, Value, text, flag, null, can_retry}
use yt_dlp_api.JobService
use yt_dlp_api.JobService.{
  JobService, JobError, get_job, create_job, start_processing, start_retry, complete_job, fail_job,
}
use yt_dlp_api.DownloadQueue.Heap.{Heapq}
use yt_dlp_api.DownloadQueue.Job.{priority_download}
use yt_dlp_api.DownloadQueue.{
  DownloadQueue, QueueError, enqueue, dequeue, release_slot, acquire_slot_for_sync,
}
use yt_dlp_api.Storage.{StorageManager, register_active_job}

-- What the calls in the `try` block of `_process_job` end with: those of the provider manager and
-- of the provider. A message is `str(e)`.
pub data Outcome : Type 0 where
  downloaded : String → ℕ → ℕ → Outcome
  download_error provider_error unexpected_error : String → Outcome

-- A webhook delivery that is put on its way, with the fields of its payload that vary.
pub record Notification : Type 0 where
  pub webhook_url : String
  pub event : String
  pub job_id : String
  pub status : JobStatus
  pub file_path : Option String
  pub error_message : Option String

-- What `MetricsCollector.record_download` is told.
pub record Recorded : Type 0 where
  pub success : Bool
  pub size : ℕ

pub record System : Type 0 where
  pub jobs : JobService
  pub queue : DownloadQueue
  pub storage : StorageManager
  pub webhooks_enabled : Bool
  pub notifications : List Notification
  pub recorded : List Recorded

-- `(job.params or {}).get("webhook_url")`, if it is a text that is not empty
abbrev pub webhook_of : Option Value → Option String
webhook_of (some (text url)) = if str_eq url "" then none else some url
webhook_of other = none

abbrev pub notification : String → Job → String → Notification
notification webhook_url job event = record {
  webhook_url = webhook_url;
  event = event;
  job_id = job.job_id;
  status = job.status;
  file_path = job.file_path;
  error_message = job.error_message;
}

abbrev pub notify_job : System → Job → String → System
notify_job sys job event = elim (webhook_of (lookup "webhook_url" job.params)) [
  | none ↦ sys
  | some url ↦
      if sys.webhooks_enabled
      then record sys { notifications = notification url job event ∷ sys.notifications }
      else sys
]

unfoldable pub notify_webhook : System → String → String → System
notify_webhook sys job_id event = elim (get_job sys.jobs job_id) [
  | none ↦ sys
  | some job ↦ notify_job sys job event
]

-- `fail_job` and the webhook that follows it. Where the job is missing, JobNotFoundError leaves
-- the handler before the webhook.
unfoldable pub fail_and_notify : System → ℕ → String → String → System
unfolding notify_webhook
fail_and_notify sys now job_id message = elim (fail_job sys.jobs now job_id message) [
  | err e ↦ sys
  | ok (jobs, job) ↦ notify_webhook (record sys { jobs = jobs }) job_id "job.failed"
]

-- The `finally` block: the metrics, and the release of the slot.
unfoldable pub finally_block : System → String → Recorded → System
finally_block sys job_id r = record sys {
  recorded = r ∷ sys.recorded;
  queue = release_slot sys.queue job_id;
}

abbrev pub not_recorded : Recorded
not_recorded = record { success = false; size = 0 }

-- `str(e)` of the queue's ValueError
unfoldable pub full_message : DownloadQueue → String
full_message q =
    concat (concat "Queue is full (max " (decimal q.max_queue_size))
      " jobs). Please try again later."

-- How the synchronous mode answers.
pub data SyncAnswer : Type 0 where
  no_slots_available job_missing unexpected_status completed_answer failed_answer : SyncAnswer

abbrev pub answer_of : Option Job → SyncAnswer
answer_of none = job_missing
answer_of (some job) = elim job.status [
  | JobStatus.completed ↦ completed_answer
  | JobStatus.failed ↦ failed_answer
  | _ ↦ unexpected_status
]

module _ (h : Heapq) (resolve : String → String) where
  -- The start of `_process_job`, up to the download: true where the task goes on.
  unfoldable pub begin_job : System → ℕ → String → System × Bool
  unfolding finally_block
  begin_job sys now job_id = elim (get_job sys.jobs job_id) [
    | none ↦ (record sys { queue = release_slot sys.queue job_id }, false)
    | some job ↦ elim (start_processing sys.jobs now job_id) [
      | err e ↦ (finally_block sys job_id not_recorded, false)
      | ok (jobs, job') ↦ (record sys { jobs = jobs }, true)
    ]
  ]

  -- The success branch. A job that is gone raises in `complete_job`, which the last handler takes.
  unfoldable pub finish_success : System → ℕ → String → String → ℕ → ℕ → System
  unfolding notify_webhook fail_and_notify
  finish_success sys now job_id file_path file_size duration =
      let sys' : System = record sys {
        storage = register_active_job resolve sys.storage job_id file_path;
      } in
      elim (complete_job sys.jobs now job_id file_path file_size duration) [
        | err e ↦
            fail_and_notify sys' now job_id (concat "Unexpected error: Job not found: " job_id)
        | ok (jobs, job) ↦ notify_webhook (record sys' { jobs = jobs }) job_id "job.completed"
      ]

  -- The retry: counted, and the job queued again; a full queue fails the job.
  unfoldable pub retry_job : System → ℕ → String → String → System
  unfolding fail_and_notify
  retry_job sys now job_id message = elim (start_retry sys.jobs now job_id) [
    | err e ↦ sys
    | ok (jobs, job) ↦ elim (enqueue h sys.queue now job_id priority_download) [
      | ok (queue, position) ↦ record sys { jobs = jobs; queue = queue }
      | err e ↦
          fail_and_notify (record sys { jobs = jobs }) now job_id
            (concat "Retry failed: queue full. Original error: " message)
    ]
  ]

  unfoldable pub handle_download_error : System → ℕ → String → String → System
  unfolding retry_job fail_and_notify
  handle_download_error sys now job_id message = elim (get_job sys.jobs job_id) [
    | none ↦ sys
    | some job ↦
        if can_retry job
        then retry_job sys now job_id message
        else fail_and_notify sys now job_id (
            concat
              (concat (concat "Max retries (" (decimal job.max_retries)) ") exceeded. Last error: ")
              message)
  ]

  -- The handlers of `_process_job`, before the `finally` block.
  unfoldable pub handle_outcome : System → ℕ → String → Outcome → System
  unfolding finish_success handle_download_error
  handle_outcome sys now job_id (downloaded path size duration) =
      finish_success sys now job_id path size duration
  handle_outcome sys now job_id (download_error message) =
      handle_download_error sys now job_id message
  handle_outcome sys now job_id (provider_error message) = fail_and_notify sys now job_id message
  handle_outcome sys now job_id (unexpected_error message) =
      fail_and_notify sys now job_id (concat "Unexpected error: " message)

  abbrev pub record_of : Outcome → Recorded
  record_of (downloaded path size duration) = record { success = true; size = size }
  record_of other = not_recorded

  -- The rest of `_process_job` once the download has ended.
  unfoldable pub finish_job : System → ℕ → String → Outcome → System
  unfolding handle_outcome finally_block
  finish_job sys now job_id outcome =
      finally_block (handle_outcome sys now job_id outcome) job_id (record_of outcome)

  -- `_process_job` (and `process_single_job`) with nothing between its two steps.
  unfoldable pub process_job : System → ℕ → ℕ → String → Outcome → System
  unfolding begin_job finish_job
  process_job sys now later job_id outcome =
      let (sys', goes_on) = begin_job sys now job_id in
      if goes_on then finish_job sys' later job_id outcome else sys'

  -- One round of the worker loop `_run`: the job of the task that it spawns.
  unfoldable pub poll : System → System × Option String
  poll sys = let (queue, next) = dequeue h sys.queue in (record sys { queue = queue }, next)

  -- The asynchronous mode of `download_video`, with its new job: the position, or the 503 answer.
  unfoldable pub submit : System → ℕ → String → String → Dict Value → System × Option ℕ
  submit sys now job_id url params =
      let (jobs, job) = create_job sys.jobs job_id url params 3 now in
      elim (enqueue h sys.queue now job_id priority_download) [
        | ok (queue, position) ↦ (
          record sys {
            jobs =
                JobService.Invariant.after jobs
                  (JobService.set_queue_position jobs job_id position);
            queue = queue;
          },
          some position,
        )
        | err e ↦ (
          record sys {
            jobs =
                JobService.Invariant.after jobs (fail_job jobs now job_id (full_message sys.queue));
          },
          none,
        )
      ]

  -- The synchronous mode of `download_video`: a slot, the processing, and the `finally` block.
  unfoldable pub download_sync :
      System → ℕ → ℕ → String → String → Dict Value → Outcome → System × SyncAnswer
  unfolding process_job
  download_sync sys now later job_id url params outcome =
      let (jobs, job) = create_job sys.jobs job_id url params 3 now in
      let (queue, acquired) = acquire_slot_for_sync sys.queue job_id in
      if acquired
      then (let done =
            process_job (record sys { jobs = jobs; queue = queue }) now later job_id outcome in
          (
            record done { queue = release_slot done.queue job_id },
            answer_of (get_job done.jobs job_id),
          ))
      else (
        record sys {
          jobs =
              JobService.Invariant.after jobs
                (fail_job jobs now job_id "No download slots available");
          queue = queue;
        },
        no_slots_available,
      )
