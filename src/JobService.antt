-- ===== src/JobService.antt =====
-- app/services/job_service.py: the in-memory job table. A method takes the service and the time
-- that it reads, and returns the new service; jobs are shared objects, so what a method writes
-- to a job is written to the table's entry. Each method runs without an `await`.
pub mod Update
pub mod Cleanup
pub mod Hooks
pub mod Listing
pub mod Entry
pub mod Invariant
mod Tests
use yt_dlp_api.Prelude.{
  ℕ, ◌+◌, ◌*◌, String, Bool, true, false, ◌&&◌, ◌||◌, Option, none, some, List, [], ◌∷◌, ltb, leb,
  if◌then◌else◌, length, take, filter, count,
}
use yt_dlp_api.Prelude.Dict.{Dict, lookup, insert, erase, values}
use yt_dlp_api.Prelude.Int.{ℤ, pos, pos_part, min_ℤ, max_ℤ}
use yt_dlp_api.Prelude.Result.{Result, ok, err, ◌>>=◌}
use yt_dlp_api.Prelude.Sort.{sort}
use yt_dlp_api.Job.{
  Job, JobStatus, Value, pending, processing, retrying, completed, failed, status_eq, is_terminal,
  is_terminal_status,
}

-- JobNotFoundError, with the id of its message
pub data JobError : Type 0 where
  job_not_found : String → JobError

pub record JobService : Type 0 where
  pub job_ttl_hours : ℕ
  pub jobs : Dict Job

-- One of the keyword arguments of `update_status`, whose values have the types that the dataclass
-- states; a name that is no attribute is skipped. `job_id` and `status` are arguments of their own.
pub data Change : Type 0 where
  progress_to retry_count_to : ℕ → Change
  error_message_to file_path_to : Option String → Change
  file_size_to duration_to queue_position_to started_at_to completed_at_to : Option ℕ → Change
  max_retries_to created_at_to : ℕ → Change
  url_to : String → Change
  params_to : Dict Value → Change
  unknown : String → Change

-- The new job; `job_id` is the fresh UUID.
unfoldable pub new_job : String → String → Dict Value → ℕ → ℕ → Job
new_job job_id url params max_retries now = record {
  job_id = job_id;
  url = url;
  status = pending;
  params = params;
  progress = 0;
  retry_count = 0;
  max_retries = max_retries;
  error_message = none;
  file_path = none;
  file_size = none;
  duration = none;
  created_at = now;
  started_at = none;
  completed_at = none;
  queue_position = none;
}

-- `self._jobs[job_id] = job`
abbrev pub store : JobService → String → Job → JobService
store s job_id job = record s { jobs = insert job_id job s.jobs }

unfoldable pub create_job : JobService → String → String → Dict Value → ℕ → ℕ → JobService × Job
unfolding new_job
create_job s job_id url params max_retries now =
    let job = new_job job_id url params max_retries now in (store s job_id job, job)

unfoldable pub get_job : JobService → String → Option Job
get_job s job_id = lookup job_id s.jobs

unfoldable pub get_job_or_raise : JobService → String → Result JobError Job
unfolding get_job
get_job_or_raise s job_id = elim (get_job s job_id) [
  | none ↦ err (job_not_found job_id)
  | some job ↦ ok job
]

-- The timestamps that a transition from `old` sets.
unfoldable pub stamp : ℕ → JobStatus → Job → Job
stamp now old job =
    if status_eq job.status processing && status_eq old pending
    then record job { started_at = some now }
    else if is_terminal_status job.status
    then record job { completed_at = some now }
    else job

-- `setattr(job, key, value)` where the job has the attribute
unfoldable pub apply_change : Change → Job → Job
apply_change (progress_to n) job = record job { progress = n }
apply_change (retry_count_to n) job = record job { retry_count = n }
apply_change (error_message_to m) job = record job { error_message = m }
apply_change (file_path_to p) job = record job { file_path = p }
apply_change (file_size_to n) job = record job { file_size = n }
apply_change (duration_to n) job = record job { duration = n }
apply_change (queue_position_to n) job = record job { queue_position = n }
apply_change (started_at_to n) job = record job { started_at = n }
apply_change (completed_at_to n) job = record job { completed_at = n }
apply_change (max_retries_to n) job = record job { max_retries = n }
apply_change (created_at_to n) job = record job { created_at = n }
apply_change (url_to u) job = record job { url = u }
apply_change (params_to p) job = record job { params = p }
apply_change (unknown key) job = job

unfoldable pub apply_changes : List Change → Job → Job
unfolding apply_change
apply_changes [] job = job
apply_changes (c ∷ cs) job = apply_changes cs (apply_change c job)

-- The job as `update_status` leaves it.
unfoldable pub updated : ℕ → JobStatus → List Change → Job → Job
unfolding stamp apply_changes
updated now status changes job =
    apply_changes changes (stamp now job.status (record job { status = status }))

unfoldable pub update_status :
    JobService → ℕ → String → JobStatus → List Change → Result JobError (JobService × Job)
update_status s now job_id status changes = do
  job ← get_job_or_raise s job_id
  ok (store s job_id (updated now status changes job), updated now status changes job)

-- `max(0, min(100, progress))`
unfoldable pub clamp_progress : ℤ → ℕ
clamp_progress p = pos_part (max_ℤ (pos 0) (min_ℤ (pos 100) p))

unfoldable pub update_progress : JobService → String → ℤ → Result JobError (JobService × Job)
update_progress s job_id progress = do
  job ← get_job_or_raise s job_id
  let job' : Job = record job { progress = clamp_progress progress }
  ok (store s job_id job', job')

unfoldable pub start_processing : JobService → ℕ → String → Result JobError (JobService × Job)
unfolding update_status
start_processing s now job_id = update_status s now job_id processing []

-- The count is raised on the shared job before `update_status` reads it again.
unfoldable pub start_retry : JobService → ℕ → String → Result JobError (JobService × Job)
unfolding update_status
start_retry s now job_id = do
  job ← get_job_or_raise s job_id
  let job' : Job = record job { retry_count = job.retry_count + 1 }
  update_status (store s job_id job') now job_id retrying (retry_count_to job'.retry_count ∷ [])

unfoldable pub complete_job :
    JobService → ℕ → String → String → ℕ → ℕ → Result JobError (JobService × Job)
unfolding update_status
complete_job s now job_id file_path file_size duration = update_status s now job_id completed (
    file_path_to (some file_path)
    ∷ file_size_to (some file_size)
    ∷ duration_to (some duration)
    ∷ progress_to 100
    ∷ [])

unfoldable pub fail_job : JobService → ℕ → String → String → Result JobError (JobService × Job)
unfolding update_status
fail_job s now job_id error_message =
    update_status s now job_id failed (error_message_to (some error_message) ∷ [])

unfoldable pub set_queue_position : JobService → String → ℕ → Result JobError (JobService × Job)
set_queue_position s job_id position = do
  job ← get_job_or_raise s job_id
  let job' : Job = record job { queue_position = some position }
  ok (store s job_id job', job')

-- Newest first.
abbrev pub newer : Job → Job → Bool
newer a b = leb b.created_at a.created_at

abbrev pub matches : Option JobStatus → Job → Bool
matches none job = true
matches (some status) job = status_eq job.status status

unfoldable pub list_jobs : JobService → Option JobStatus → ℕ → List Job
list_jobs s status limit = take limit (sort newer (filter (matches status) (values s.jobs)))

unfoldable pub get_pending_jobs : JobService → List Job
unfolding list_jobs
get_pending_jobs s = list_jobs s (some pending) 100

abbrev pub is_active : Job → Bool
is_active job =
    status_eq job.status pending
    || (status_eq job.status processing || status_eq job.status retrying)

unfoldable pub get_active_job_count : JobService → ℕ
get_active_job_count s = count is_active (values s.jobs)

unfoldable pub get_job_count : JobService → ℕ
get_job_count s = length s.jobs

-- `job_ttl_hours` in microseconds
abbrev pub ttl : JobService → ℕ
ttl s = s.job_ttl_hours * 3600000000

-- `completed_at < now - ttl`, of a terminal job
unfoldable pub is_expired : JobService → ℕ → Job → Bool
is_expired s now job =
    is_terminal job && (elim job.completed_at [ none ↦ false | some t ↦ ltb (t + ttl s) now ])

unfoldable pub expired_ids : (Job → Bool) → Dict Job → List String
expired_ids expired [] = []
expired_ids expired ((job_id, job) ∷ d) =
    let rest = expired_ids expired d in if expired job then job_id ∷ rest else rest

-- `if self._on_job_expired is not None: self._on_job_expired(job_id)`
abbrev pub call_back : {S : Type 0} → Option (String → S → S) → String → S → S
call_back none job_id out = out
call_back (some f) job_id out = f job_id out

-- The loop over the expired ids: the callback first, then `del self._jobs[job_id]`. `S` is the
-- state that the callback works on.
unfoldable pub remove_expired :
    {S : Type 0} → Option (String → S → S) → List String → Dict Job × S → Dict Job × S
remove_expired callback [] (d, out) = (d, out)
remove_expired callback (job_id ∷ ids) (d, out) =
    remove_expired callback ids (erase job_id d, call_back callback job_id out)

unfoldable pub cleanup_expired_jobs :
    {S : Type 0} → JobService → Option (String → S → S) → ℕ → S → JobService × S × ℕ
unfolding is_expired expired_ids remove_expired
cleanup_expired_jobs s callback now out =
    let ids = expired_ids (is_expired s now) s.jobs in
    let (d, out') = remove_expired callback ids (s.jobs, out) in
    (record s { jobs = d }, out', length ids)
