-- ===== src/Worker/Finish.antt =====
-- How a task of app/services/download_worker.py leaves its job, on every outcome.
use yt_dlp_api.Prelude.{ℕ, String, ◌≡◌, ap, ◌∙◌, ◌⊎◌, inl, inr, true, false, some, Bool-cases}
use yt_dlp_api.Prelude.Dict.{lookup}
use yt_dlp_api.Prelude.Result.{ok, err}
use yt_dlp_api.Prelude.Text.{concat, decimal}
use yt_dlp_api.Job.{Job, can_retry}
use yt_dlp_api.JobService.{store, get_job}
use yt_dlp_api.JobService.Update.{
  failed_job, completed_job, retried, complete_job_found, start_retry_found, lookup-store,
}
use yt_dlp_api.DownloadQueue.Heap.{Heapq}
use yt_dlp_api.DownloadQueue.Job.{priority_download}
use yt_dlp_api.DownloadQueue.{
  DownloadQueue, enqueue, release_slot, get_queue_position, is_full, queue_full,
}
use yt_dlp_api.DownloadQueue.Invariant.{IsValid}
use yt_dlp_api.DownloadQueue.Enqueue.{Enqueues, refuses, repeats, enters, enqueue_total}
use yt_dlp_api.Storage.{register_active_job, is_file_active}
use yt_dlp_api.Storage.Active.{registered_active}
use yt_dlp_api.Worker.{
  System, Outcome, downloaded, download_error, provider_error, unexpected_error, notify_webhook,
  fail_and_notify, finish_success, retry_job, handle_download_error, handle_outcome, finish_job,
}
use yt_dlp_api.Worker.Steps.{jobs-notify_webhook, storage-notify_webhook, jobs-fail_and_notify}

module _ (h : Heapq) (resolve : String → String) where
  module _ (sys : System) (now : ℕ) (job_id : String) (job : Job)
      (found : get_job sys.jobs job_id ≡ some job) where
    -- The job has failed at `now` with this message, and is otherwise `before`.
    abbrev FailedWith : System → Job → String → Type 0
    FailedWith after before message =
        get_job after.jobs job_id ≡ some (failed_job now message before)

    abbrev exceeded : String → String
    exceeded message =
        concat
          (concat (concat "Max retries (" (decimal job.max_retries)) ") exceeded. Last error: ")
          message

    -- What is promised of the system after an outcome.
    abbrev pub Settles : Outcome → System → Type 0
    Settles (downloaded path size duration) after =
        (get_job after.jobs job_id ≡ some (completed_job now path size duration job))
        × (is_file_active resolve after.storage path ≡ true)
    Settles (download_error message) after =
        ((can_retry job ≡ false) × FailedWith after job (exceeded message))
        ⊎ ((can_retry job ≡ true)
            × (is_full sys.queue ≡ true)
            × FailedWith after (retried job)
                (concat "Retry failed: queue full. Original error: " message))
        ⊎ ((can_retry job ≡ true)
            × (is_full sys.queue ≡ false)
            × (get_job after.jobs job_id ≡ some (retried job))
            × ((p : ℕ) × (get_queue_position after.queue job_id ≡ some p)))
    Settles (provider_error message) after = FailedWith after job message
    Settles (unexpected_error message) after =
        FailedWith after job (concat "Unexpected error: " message)

    fail_settles :
        (message : String) → FailedWith (fail_and_notify sys now job_id message) job message
    unfolding get_job
    fail_settles message =
        ap (λ s. lookup job_id s.jobs) (jobs-fail_and_notify sys now job_id message job found)
        ∙ lookup-store sys.jobs job_id (failed_job now message job)

    -- The system once the job is completed, before the webhook.
    abbrev done : String → ℕ → ℕ → System
    done path size duration = record sys {
      storage = register_active_job resolve sys.storage job_id path;
      jobs = store sys.jobs job_id (completed_job now path size duration job);
    }

    finish_success_found :
        (path : String) (size duration : ℕ)
        → finish_success h resolve sys now job_id path size duration
          ≡ notify_webhook (done path size duration) job_id "job.completed"
    unfolding get_job finish_success
    finish_success_found path size duration =
        rw (complete_job_found sys.jobs now job_id path size duration job found, finish_success)

    success-Settles :
        (path : String) (size duration : ℕ)
        → Settles
            (downloaded path size duration)
            (finish_success h resolve sys now job_id path size duration)
    unfolding get_job
    success-Settles path size duration = rw (finish_success_found path size duration) (
      ap (λ s. lookup job_id s.jobs)
            (jobs-notify_webhook (done path size duration) job_id "job.completed")
          ∙ lookup-store sys.jobs job_id (completed_job now path size duration job),
      rw (storage-notify_webhook (done path size duration) job_id "job.completed")
          (registered_active resolve sys.storage job_id path),
    )

    -- The system of a retry whose job was queued.
    retry_queued :
        (message : String) (queue : DownloadQueue) (p : ℕ)
        → enqueue h sys.queue now job_id priority_download ≡ ok (queue, p)
        → retry_job h resolve sys now job_id message
          ≡ record sys { jobs = store sys.jobs job_id (retried job); queue = queue }
    unfolding retry_job get_job
    retry_queued message queue p e =
        rw (start_retry_found sys.jobs now job_id job found, retry_job) (rw (e, retry_job))

    retry_refused :
        (message : String)
        → enqueue h sys.queue now job_id priority_download ≡ err queue_full
        → retry_job h resolve sys now job_id message
          ≡ fail_and_notify
              (record sys { jobs = store sys.jobs job_id (retried job) })
              now
              job_id
              (concat "Retry failed: queue full. Original error: " message)
    unfolding retry_job get_job
    retry_refused message e =
        rw (start_retry_found sys.jobs now job_id job found, retry_job) (rw (e, retry_job))

    retry-Settles :
        (message : String)
        → can_retry job ≡ true
        → Enqueues h sys.queue now job_id priority_download
        → Settles (download_error message) (retry_job h resolve sys now job_id message)
    unfolding get_job
    retry-Settles message c (refuses f e) = inr (
        inl (
          c,
          f,
          rw (retry_refused message e) (
              ap (λ s. lookup job_id s.jobs)
                (jobs-fail_and_notify (record sys { jobs = store sys.jobs job_id (retried job) })
                  now job_id (concat "Retry failed: queue full. Original error: " message)
                  (retried job) (lookup-store sys.jobs job_id (retried job)))
              ∙ lookup-store (store sys.jobs job_id (retried job)) job_id (
                  failed_job now (concat "Retry failed: queue full. Original error: " message)
                    (retried job))),
        ))
    retry-Settles message c (repeats p f q e) = inr (
        inr (
          c,
          f,
          rw (retry_queued message sys.queue p e) (lookup-store sys.jobs job_id (retried job)),
          rw (retry_queued message sys.queue p e) (p, q),
        ))
    retry-Settles message c (enters q' p f n e v q a b same l g act sem lim) = inr (
        inr (
          c,
          f,
          rw (retry_queued message q' p e) (lookup-store sys.jobs job_id (retried job)),
          rw (retry_queued message q' p e) (p, q),
        ))

    retries :
        (message : String)
        → can_retry job ≡ true
        → handle_download_error h resolve sys now job_id message
          ≡ retry_job h resolve sys now job_id message
    unfolding handle_download_error
    retries message c = rw (found, handle_download_error) (rw c)

    gives_up :
        (message : String)
        → can_retry job ≡ false
        → handle_download_error h resolve sys now job_id message
          ≡ fail_and_notify sys now job_id (exceeded message)
    unfolding handle_download_error
    gives_up message c = rw (found, handle_download_error) (rw c)

    download_error-Settles :
        (message : String)
        → IsValid h sys.queue
        → Settles (download_error message) (handle_download_error h resolve sys now job_id message)
    download_error-Settles message v = elim (Bool-cases (can_retry job)) [
      | inl c ↦
          rw (retries message c)
            (retry-Settles message c (enqueue_total h sys.queue now job_id priority_download v))
      | inr c ↦ rw (gives_up message c) (inl (c, fail_settles (exceeded message)))
    ]

    outcome-Settles :
        (outcome : Outcome)
        → IsValid h sys.queue
        → Settles outcome (handle_outcome h resolve sys now job_id outcome)
    unfolding handle_outcome
    outcome-Settles (downloaded path size duration) v = success-Settles path size duration
    outcome-Settles (download_error message) v = download_error-Settles message v
    outcome-Settles (provider_error message) v = fail_settles message
    outcome-Settles (unexpected_error message) v =
        fail_settles (concat "Unexpected error: " message)

    -- Whatever ends the download of a job that is in the table, the job is settled: completed with
    -- the result, and its file protected; or failed with the message of the error; or, for a
    -- download error with retries left, retrying with its count raised by one and queued again. Only
    -- if the queue is full does a retry fail the job, and only a job without retries left is failed
    -- as having exceeded them.
    pub finish_job-Settles :
        (outcome : Outcome)
        → IsValid h sys.queue
        → Settles outcome (finish_job h resolve sys now job_id outcome)
    unfolding finish_job release_slot get_queue_position
    finish_job-Settles (downloaded path size duration) v =
        outcome-Settles (downloaded path size duration) v
    finish_job-Settles (download_error message) v = outcome-Settles (download_error message) v
    finish_job-Settles (provider_error message) v = outcome-Settles (provider_error message) v
    finish_job-Settles (unexpected_error message) v = outcome-Settles (unexpected_error message) v
