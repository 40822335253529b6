-- ===== src/Worker/Steps.antt =====
-- What the parts of a step of the worker leave alone, and what they do to a job that is there.
use yt_dlp_api.Prelude.{ℕ, String, ◌≡◌, some, arith}
use yt_dlp_api.Prelude.Dict.{lookup}
use yt_dlp_api.Job.{Job}
use yt_dlp_api.JobService.{store}
use yt_dlp_api.JobService.Update.{failed_job, fail_job_found}
use yt_dlp_api.Worker.{System, notify_webhook, fail_and_notify}

module _ (sys : System) (job_id event : String) where
  pub jobs-notify_webhook : (notify_webhook sys job_id event).jobs ≡ sys.jobs
  unfolding notify_webhook
  jobs-notify_webhook = ground arith

  pub queue-notify_webhook : (notify_webhook sys job_id event).queue ≡ sys.queue
  unfolding notify_webhook
  queue-notify_webhook = ground arith

  pub storage-notify_webhook : (notify_webhook sys job_id event).storage ≡ sys.storage
  unfolding notify_webhook
  storage-notify_webhook = ground arith

module _ (sys : System) (now : ℕ) (job_id message : String) where
  pub queue-fail_and_notify : (fail_and_notify sys now job_id message).queue ≡ sys.queue
  unfolding fail_and_notify
  queue-fail_and_notify = ground arith

  pub storage-fail_and_notify : (fail_and_notify sys now job_id message).storage ≡ sys.storage
  unfolding fail_and_notify
  storage-fail_and_notify = ground arith

  -- A job that is there fails.
  pub jobs-fail_and_notify :
      (job : Job)
      → lookup job_id sys.jobs.jobs ≡ some job
      → (fail_and_notify sys now job_id message).jobs
        ≡ store sys.jobs job_id (failed_job now message job)
  unfolding fail_and_notify
  jobs-fail_and_notify job e =
      rw (fail_job_found sys.jobs now job_id message job e, fail_and_notify)
        (jobs-notify_webhook
          (record sys { jobs = store sys.jobs job_id (failed_job now message job) }) job_id
          "job.failed")
