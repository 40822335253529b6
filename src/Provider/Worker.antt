-- ===== src/Provider/Worker.antt =====
-- How a task of app/services/download_worker.py calls the providers: the part of `_process_job`
-- between `start_processing` and the handlers.
use yt_dlp_api.Prelude.{ℕ, String, none, some, ◌≡◌}
use yt_dlp_api.Prelude.Dict.{AllEntries}
use yt_dlp_api.Prelude.Result.{Result, ok, err, ◌>>=◌}
use yt_dlp_api.Prelude.Text.{concat}
use yt_dlp_api.Job.{Job}
use yt_dlp_api.JobService.{get_job}
use yt_dlp_api.JobService.Update.{failed_job}
use yt_dlp_api.DownloadQueue.Heap.{Heapq}
use yt_dlp_api.DownloadQueue.Invariant.{IsValid}
use yt_dlp_api.Worker
use yt_dlp_api.Worker.{System, Outcome, downloaded, unexpected_error, finish_job}
use yt_dlp_api.Worker.Finish.{finish_job-Settles}
use yt_dlp_api.Provider.{
  Exception, provider_error, invalid_url_error, video_unavailable_error, format_not_found_error,
  download_error, authentication_error, cookie_error, transcoding_error, transcript_not_found_error,
  other_exception, DownloadResult, VideoProvider, ProviderManager, get_provider_for_url,
  no_provider_message,
}
use yt_dlp_api.Provider.Select.{Declines, declined}

-- The handler that takes an exception.
unfoldable pub outcome_of : Result Exception DownloadResult → Outcome
outcome_of (ok r) = downloaded r.file_path r.file_size r.duration
outcome_of (err (download_error m)) = Worker.download_error m
outcome_of (err (other_exception m)) = unexpected_error m
outcome_of (err (provider_error m)) = Worker.provider_error m
outcome_of (err (invalid_url_error m)) = Worker.provider_error m
outcome_of (err (video_unavailable_error m)) = Worker.provider_error m
outcome_of (err (format_not_found_error m)) = Worker.provider_error m
outcome_of (err (authentication_error m)) = Worker.provider_error m
outcome_of (err (cookie_error m)) = Worker.provider_error m
outcome_of (err (transcoding_error m)) = Worker.provider_error m
outcome_of (err (transcript_not_found_error m)) = Worker.provider_error m

unfoldable pub execute_download : System → String → VideoProvider → Result Exception DownloadResult
execute_download sys job_id provider = elim (get_job sys.jobs job_id) [
  | none ↦ err (provider_error (concat "Job not found: " job_id))
  | some job ↦ provider.download job.url job.params
]

-- The provider for the job's url, and its download.
unfoldable pub provide : ProviderManager → System → Job → String → Result Exception DownloadResult
unfolding execute_download
provide m sys job job_id = do
  provider ← get_provider_for_url m job.url
  execute_download sys job_id provider

-- Where the queue is valid, a job of the table whose url no enabled provider accepts fails with the
-- message of the InvalidURLError, and is not retried, whatever its retry count.
pub declined_job_fails :
    (h : Heapq) (resolve : String → String) (m : ProviderManager) (sys : System) (now : ℕ)
    (job_id : String) (job : Job)
    → get_job sys.jobs job_id ≡ some job
    → AllEntries (Declines m job.url) m.providers
    → IsValid h sys.queue
    → get_job
        (finish_job h resolve sys now job_id (outcome_of (provide m sys job job_id))).jobs
        job_id
      ≡ some (failed_job now (no_provider_message job.url) job)
unfolding outcome_of provide
declined_job_fails h resolve m sys now job_id job found d v = rw (declined m job.url d) (
    finish_job-Settles h resolve sys now job_id job found
      (Worker.provider_error (no_provider_message job.url)) v)
