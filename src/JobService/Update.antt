-- ===== src/JobService/Update.antt =====
-- What the updates of app/services/job_service.py write: the entry of their job alone, and an
-- exception exactly where the job is missing.
use yt_dlp_api.Prelude.{
  [], ◌∷◌, ◌⊎◌, min, ℕ, ◌+◌, String, ◌≡◌, refl, ap, ◌∙◌, none, some, List, arith, if◌then◌else◌,
  str_eq, eq_refl, Option-cases, inl, inr,
}
use yt_dlp_api.Prelude.Dict.{lookup, lookup-insert, insert_twice}
use yt_dlp_api.Prelude.Int.{pos, negsuc}
use yt_dlp_api.Prelude.Result.{ok, err}
use yt_dlp_api.Job.{Job, JobStatus, processing, retrying, completed, failed}
use yt_dlp_api.JobService.{
  JobService, job_not_found, Change, store, get_job, get_job_or_raise, updated, update_status,
  clamp_progress, start_processing, start_retry, complete_job, fail_job, retry_count_to,
  error_message_to, file_path_to, file_size_to, duration_to, progress_to,
}

pub lookup-store :
    (s : JobService) (job_id : String) (job : Job)
    → lookup job_id (store s job_id job).jobs ≡ some job
lookup-store s job_id job = rw (lookup-insert job_id job_id) (rw eq_refl)

pub get_job_or_raise_found :
    (s : JobService) (job_id : String) (job : Job)
    → lookup job_id s.jobs ≡ some job
    → get_job_or_raise s job_id ≡ ok job
unfolding get_job_or_raise
get_job_or_raise_found s job_id job h = ground arith

pub get_job_or_raise_missing :
    (s : JobService) (job_id : String)
    → lookup job_id s.jobs ≡ none
    → get_job_or_raise s job_id ≡ err (job_not_found job_id)
unfolding get_job_or_raise
get_job_or_raise_missing s job_id h = ground arith

pub update_status_found :
    (s : JobService) (now : ℕ) (job_id : String) (status : JobStatus) (changes : List Change)
    (job : Job)
    → lookup job_id s.jobs ≡ some job
    → update_status s now job_id status changes
      ≡ ok (store s job_id (updated now status changes job), updated now status changes job)
unfolding update_status
update_status_found s now job_id status changes job h = rw (get_job_or_raise_found s job_id job h)

-- Two writes to one job count as the later one.
store_twice :
    (s : JobService) (job_id : String) (a b : Job)
    → store (store s job_id a) job_id b ≡ store s job_id b
store_twice s job_id a b = ap (λ d. record s { jobs = d }) (insert_twice job_id a b s.jobs)

abbrev pub retried : Job → Job
retried job = record job { status = retrying; retry_count = job.retry_count + 1 }

pub start_retry_found :
    (s : JobService) (now : ℕ) (job_id : String) (job : Job)
    → lookup job_id s.jobs ≡ some job
    → start_retry s now job_id ≡ ok (store s job_id (retried job), retried job)
unfolding start_retry updated
start_retry_found s now job_id job h =
    let job' : Job = record job { retry_count = job.retry_count + 1 } in
    let s' : JobService = store s job_id job' in
    rw (get_job_or_raise_found s job_id job h) (
      update_status_found s' now job_id retrying (retry_count_to job'.retry_count ∷ []) job'
        (lookup-store s job_id job')
      ∙ ap (λ t. ok (t, retried job)) (store_twice s job_id job' (retried job)))

pub start_processing_found :
    (s : JobService) (now : ℕ) (job_id : String) (job : Job)
    → lookup job_id s.jobs ≡ some job
    → start_processing s now job_id
      ≡ ok (store s job_id (updated now processing [] job), updated now processing [] job)
unfolding start_processing
start_processing_found s now job_id job h = update_status_found s now job_id processing [] job h

abbrev pub failed_job : ℕ → String → Job → Job
failed_job now message job = record job {
  status = failed;
  error_message = some message;
  completed_at = some now;
}

abbrev pub completed_job : ℕ → String → ℕ → ℕ → Job → Job
completed_job now path size duration job = record job {
  status = completed;
  progress = 100;
  file_path = some path;
  file_size = some size;
  duration = some duration;
  completed_at = some now;
}

pub fail_job_found :
    (s : JobService) (now : ℕ) (job_id message : String) (job : Job)
    → lookup job_id s.jobs ≡ some job
    → fail_job s now job_id message
      ≡ ok (store s job_id (failed_job now message job), failed_job now message job)
unfolding fail_job updated
fail_job_found s now job_id message job h =
    update_status_found s now job_id failed (error_message_to (some message) ∷ []) job h

pub complete_job_found :
    (s : JobService) (now : ℕ) (job_id path : String) (size duration : ℕ) (job : Job)
    → lookup job_id s.jobs ≡ some job
    → complete_job s now job_id path size duration
      ≡ ok (
        store s job_id (completed_job now path size duration job),
        completed_job now path size duration job,
      )
unfolding complete_job updated
complete_job_found s now job_id path size duration job h =
    update_status_found s now job_id completed
      (file_path_to (some path)
        ∷ file_size_to (some size)
        ∷ duration_to (some duration)
        ∷ progress_to 100
        ∷ [])
      job h

-- `update_status` raises `JobNotFoundError` exactly for an id that is not in the table; otherwise
-- it returns the updated job, and afterwards `get_job` gives that job under the id and what it
-- gave before under every other id, and the time to live is the same.
update_status_effect :
    (s : JobService) (now : ℕ) (job_id : String) (status : JobStatus) (changes : List Change)
    → ((get_job s job_id ≡ none)
        × (update_status s now job_id status changes ≡ err (job_not_found job_id)))
      ⊎ ((job : Job) × (s' : JobService) × (get_job s job_id ≡ some job)
          × (update_status s now job_id status changes ≡ ok (s', updated now status changes job))
          × ((j : String)
              → get_job s' j
                ≡ (if str_eq job_id j then some (updated now status changes job) else get_job s j))
          × (s'.job_ttl_hours ≡ s.job_ttl_hours))
unfolding update_status get_job
update_status_effect s now job_id status changes = elim (Option-cases (lookup job_id s.jobs)) [
  | inl e ↦ inl (e, rw (get_job_or_raise_missing s job_id e))
  | inr (job, e) ↦ inr (
    job,
    store s job_id (updated now status changes job),
    e,
    rw (get_job_or_raise_found s job_id job e),
    λ j. lookup-insert job_id j (updated now status changes job) s.jobs,
    refl,
  )
]

-- A retry raises the count by one, and starting again afterwards keeps the first `started_at`:
-- the job that runs again differs from the one before only in its status and its retry count.
retry_then_start :
    (s : JobService) (now later : ℕ) (job_id : String) (job : Job)
    → get_job s job_id ≡ some job
    → (s' s'' : JobService) × (start_retry s now job_id
        ≡ ok (s', record job { status = retrying; retry_count = job.retry_count + 1 }))
      × (start_processing s' later job_id
          ≡ ok (s'', record job { status = processing; retry_count = job.retry_count + 1 }))
unfolding get_job updated
retry_then_start s now later job_id job h =
    let s' : JobService = store s job_id (retried job) in
    (
      s',
      store s' job_id (record job { status = processing; retry_count = job.retry_count + 1 }),
      start_retry_found s now job_id job h,
      start_processing_found s' later job_id (retried job) (lookup-store s job_id (retried job)),
    )

-- The progress that is stored lies between 0 and 100, is 0 for a negative one and 100 for one
-- beyond, and the progress given otherwise.
pub clamp_progress_range :
    (n : ℕ) → (clamp_progress (pos n) ≡ min n 100) × (clamp_progress (negsuc n) ≡ 0)
unfolding clamp_progress
clamp_progress_range n = (ground arith, ground arith)
