-- ===== src/Worker/Slots.antt =====
-- Which steps of app/services/download_worker.py touch the slots of the queue: only its release.
use yt_dlp_api.Prelude.{ℕ, String, ◌≡◌, ap, List, arith, inl, inr}
use yt_dlp_api.Prelude.Result.{ok, Result-cases}
use yt_dlp_api.Prelude.Text.{concat}
use yt_dlp_api.DownloadQueue.Job.{priority_download}
use yt_dlp_api.DownloadQueue.Heap.{Heapq}
use yt_dlp_api.DownloadQueue.{DownloadQueue, enqueue}
use yt_dlp_api.Worker.{
  System, Outcome, downloaded, download_error, provider_error, unexpected_error, finish_success,
  retry_job, handle_download_error, handle_outcome,
}
use yt_dlp_api.Worker.Steps.{queue-fail_and_notify}

-- The limit, the free slots and the active jobs.
abbrev pub slots : DownloadQueue → ℕ × ℕ × List String
slots q = (q.max_concurrent, q.semaphore, q.active_jobs)

module _ (h : Heapq) where
  pub slots-enqueue :
      (q : DownloadQueue) (now : ℕ) (job_id : String) (priority : ℕ) {q' : DownloadQueue} {p : ℕ}
      → enqueue h q now job_id priority ≡ ok (q', p)
      → slots q' ≡ slots q
  unfolding enqueue
  slots-enqueue q now job_id priority e = ground arith

module _ (h : Heapq) (resolve : String → String) (sys : System) (now : ℕ) (job_id : String) where
  pub queue-finish_success :
      (path : String) (size duration : ℕ)
      → (finish_success h resolve sys now job_id path size duration).queue ≡ sys.queue
  unfolding finish_success
  queue-finish_success path size duration = ground arith

  slots-finish_success :
      (path : String) (size duration : ℕ)
      → slots (finish_success h resolve sys now job_id path size duration).queue ≡ slots sys.queue
  unfolding finish_success
  slots-finish_success path size duration = ground arith

  slots-retry_job :
      (message : String)
      → slots (retry_job h resolve sys now job_id message).queue ≡ slots sys.queue
  unfolding retry_job
  slots-retry_job message = elim (Result-cases (enqueue h sys.queue now job_id priority_download)) [
    | inl ((q', p), e) ↦ ground (arith, e, slots-enqueue h sys.queue now job_id priority_download e)
    | inr (x, e) ↦ ground (arith, e)
  ]

  slots-handle_download_error :
      (message : String)
      → slots (handle_download_error h resolve sys now job_id message).queue ≡ slots sys.queue
  unfolding handle_download_error
  slots-handle_download_error message =
      ground (arith, slots-retry_job message, queue-fail_and_notify sys now job_id)

  -- Up to the `finally` block no outcome takes or frees a slot.
  pub slots-handle_outcome :
      (outcome : Outcome)
      → slots (handle_outcome h resolve sys now job_id outcome).queue ≡ slots sys.queue
  unfolding handle_outcome
  slots-handle_outcome (downloaded path size duration) = slots-finish_success path size duration
  slots-handle_outcome (download_error message) = slots-handle_download_error message
  slots-handle_outcome (provider_error message) =
      ap slots (queue-fail_and_notify sys now job_id message)
  slots-handle_outcome (unexpected_error message) =
      ap slots (queue-fail_and_notify sys now job_id (concat "Unexpected error: " message))
