-- ===== src/JobService/Invariant.antt =====
-- The invariant of the job table of app/services/job_service.py, over every sequence of calls.
use yt_dlp_api.Prelude.{
  ℕ, ◌≤◌, All, String, ◌≡◌, refl, none, some, List, [], ◌∷◌, arith, Option-cases, inl, inr,
}
use yt_dlp_api.Prelude.Dict.{
  Dict, lookup, erase, IsDict, insert-IsDict, erase-IsDict, AllEntries, AllEntries-insert,
  AllEntries-erase, AllEntries-lookup,
}
use yt_dlp_api.Prelude.Int.{ℤ, pos, negsuc}
use yt_dlp_api.Prelude.Result.{Result, ok, err}
use yt_dlp_api.Job.{Job, JobStatus, Value, processing, completed, failed}
use yt_dlp_api.JobService.{
  JobService, JobError, job_not_found, store, create_job, new_job, updated, update_status,
  clamp_progress, update_progress, start_processing, start_retry, complete_job, fail_job,
  set_queue_position, cleanup_expired_jobs, remove_expired, expired_ids, file_path_to, file_size_to,
  is_expired, Change, duration_to, progress_to, error_message_to,
}
use yt_dlp_api.JobService.Update.{
  get_job_or_raise_found, get_job_or_raise_missing, start_retry_found, retried,
  clamp_progress_range,
}
use yt_dlp_api.JobService.Entry.{IsValidJob, IsKept, updated-IsValidJob}

pub record IsValid (s : JobService) : Type 0 where
  pub keyed : IsDict s.jobs
  pub entries : AllEntries IsValidJob s.jobs

-- The calls of every method that changes the table.
pub data Call : Type 0 where
  creates : String → String → Dict Value → ℕ → ℕ → Call
  progresses : String → ℤ → Call
  starts : ℕ → String → Call
  retries : ℕ → String → Call
  completes : ℕ → String → String → ℕ → ℕ → Call
  fails : ℕ → String → String → Call
  positions : String → ℕ → Call
  cleans : ℕ → Call
  updates : ℕ → String → JobStatus → List Change → Call

abbrev pub IsSane : Call → Type 0
IsSane (updates now job_id status changes) = All IsKept changes
IsSane _ = Unit

-- A call that raises leaves the service as it was.
abbrev pub after : JobService → Result JobError (JobService × Job) → JobService
after s (ok (s', job)) = s'
after s (err e) = s

unfoldable pub step : JobService → Call → JobService
step s (creates job_id url params max_retries now) =
    (create_job s job_id url params max_retries now).0
step s (progresses job_id p) = after s (update_progress s job_id p)
step s (starts now job_id) = after s (start_processing s now job_id)
step s (retries now job_id) = after s (start_retry s now job_id)
step s (completes now job_id path size duration) =
    after s (complete_job s now job_id path size duration)
step s (fails now job_id message) = after s (fail_job s now job_id message)
step s (positions job_id n) = after s (set_queue_position s job_id n)
step s (updates now job_id status changes) = after s (update_status s now job_id status changes)
step s (cleans now) = (cleanup_expired_jobs {S = Unit {0}} s none now tt).0

unfoldable pub run : JobService → List Call → JobService
unfolding step
run s [] = s
run s (c ∷ cs) = run (step s c) cs

store-IsValid :
    (s : JobService) (job_id : String) (job : Job)
    → IsValidJob job_id job
    → IsValid s
    → IsValid (store s job_id job)
store-IsValid s job_id job j v = record {
  keyed = insert-IsDict job_id job s.jobs v.keyed;
  entries = AllEntries-insert IsValidJob job_id job s.jobs j v.entries;
}

-- A method that finds its job and stores it back changed.
touch-IsValid :
    (s : JobService) (job_id : String) (m : Result JobError (JobService × Job)) (f : Job → Job)
    → (lookup job_id s.jobs ≡ none → m ≡ err (job_not_found job_id))
    → ((job : Job) → lookup job_id s.jobs ≡ some job → m ≡ ok (store s job_id (f job), f job))
    → ((job : Job) → IsValidJob job_id job → IsValidJob job_id (f job))
    → IsValid s
    → IsValid (after s m)
touch-IsValid s job_id m f missing found keep v = elim (Option-cases (lookup job_id s.jobs)) [
  | inl e ↦ rw (missing e) v
  | inr (job, e) ↦ rw (found job e) (
      store-IsValid s job_id (f job)
        (keep job (AllEntries-lookup IsValidJob job_id job s.jobs v.entries e)) v)
]

clamp_progress-le : (p : ℤ) → clamp_progress p ≤ 100
clamp_progress-le (pos n) = omega (arith, (clamp_progress_range n).0)
clamp_progress-le (negsuc n) = omega (arith, (clamp_progress_range n).1)

remove_expired-keeps :
    {S : Type 0} (ids : List String) (d : Dict Job) (out : S)
    → IsDict d
    → AllEntries IsValidJob d
    → IsDict (remove_expired none ids (d, out)).0
      × AllEntries IsValidJob (remove_expired none ids (d, out)).0
unfolding remove_expired
remove_expired-keeps [] d out k a = (k, a)
remove_expired-keeps (i ∷ ids) d out k a =
    remove_expired-keeps ids (erase i d) out (erase-IsDict i d k)
      (AllEntries-erase IsValidJob i d a)

module _ (s : JobService) (v : IsValid s) where
  create_job-IsValid :
      (job_id url : String) (params : Dict Value) (max_retries now : ℕ)
      → IsValid (create_job s job_id url params max_retries now).0
  unfolding create_job
  create_job-IsValid job_id url params max_retries now =
      store-IsValid s job_id (new_job job_id url params max_retries now)
        (record { own_key = refl; percentage = omega arith; finished = inl refl }) v

  update_progress-IsValid :
      (job_id : String) (p : ℤ) → IsValid (after s (update_progress s job_id p))
  unfolding update_progress
  update_progress-IsValid job_id p =
      touch-IsValid s job_id (update_progress s job_id p)
        (λ job. record job { progress = clamp_progress p })
        (λ e. rw (get_job_or_raise_missing s job_id e))
        (λ job e. rw (get_job_or_raise_found s job_id job e))
        (λ job j. record {
          own_key = j.own_key;
          percentage = clamp_progress-le p;
          finished = j.finished;
        })
        v

  update_status-IsValid :
      (now : ℕ) (job_id : String) (status : JobStatus) (changes : List Change)
      → All IsKept changes
      → IsValid (after s (update_status s now job_id status changes))
  unfolding update_status
  update_status-IsValid now job_id status changes k =
      touch-IsValid s job_id (update_status s now job_id status changes)
        (updated now status changes) (λ e. rw (get_job_or_raise_missing s job_id e))
        (λ job e. rw (get_job_or_raise_found s job_id job e))
        (λ job. updated-IsValidJob now job_id status changes job k) v

  start_processing-IsValid :
      (now : ℕ) (job_id : String) → IsValid (after s (start_processing s now job_id))
  unfolding start_processing
  start_processing-IsValid now job_id = update_status-IsValid now job_id processing [] tt

  start_retry-IsValid : (now : ℕ) (job_id : String) → IsValid (after s (start_retry s now job_id))
  unfolding start_retry
  start_retry-IsValid now job_id =
      touch-IsValid s job_id (start_retry s now job_id) retried
        (λ e. rw (get_job_or_raise_missing s job_id e)) (start_retry_found s now job_id)
        (λ job j. record { own_key = j.own_key; percentage = j.percentage; finished = inl refl }) v

  complete_job-IsValid :
      (now : ℕ) (job_id path : String) (size duration : ℕ)
      → IsValid (after s (complete_job s now job_id path size duration))
  unfolding complete_job updated
  complete_job-IsValid now job_id path size duration =
      update_status-IsValid now job_id completed
        (file_path_to (some path)
          ∷ file_size_to (some size)
          ∷ duration_to (some duration)
          ∷ progress_to 100
          ∷ [])
        (tt, (tt, (tt, (omega arith, tt))))

  fail_job-IsValid :
      (now : ℕ) (job_id message : String) → IsValid (after s (fail_job s now job_id message))
  unfolding fail_job updated
  fail_job-IsValid now job_id message =
      update_status-IsValid now job_id failed (error_message_to (some message) ∷ []) (tt, tt)

  set_queue_position-IsValid :
      (job_id : String) (n : ℕ) → IsValid (after s (set_queue_position s job_id n))
  unfolding set_queue_position
  set_queue_position-IsValid job_id n =
      touch-IsValid s job_id (set_queue_position s job_id n)
        (λ job. record job { queue_position = some n })
        (λ e. rw (get_job_or_raise_missing s job_id e))
        (λ job e. rw (get_job_or_raise_found s job_id job e))
        (λ job j. record { own_key = j.own_key; percentage = j.percentage; finished = j.finished })
        v

  cleanup-IsValid : (now : ℕ) → IsValid (cleanup_expired_jobs {S = Unit {0}} s none now tt).0
  unfolding cleanup_expired_jobs
  cleanup-IsValid now = record {
    keyed =
        (remove_expired-keeps (expired_ids (is_expired s now) s.jobs) s.jobs tt v.keyed
          v.entries).0;
    entries =
        (remove_expired-keeps (expired_ids (is_expired s now) s.jobs) s.jobs tt v.keyed
          v.entries).1;
  }

-- Every sane call keeps the table: one entry to a key, each under its own id, with a percentage as its
-- progress and with the time of completion where it is completed or failed.
pub step-IsValid : (s : JobService) (c : Call) → IsSane c → IsValid s → IsValid (step s c)
unfolding step
step-IsValid s (creates job_id url params max_retries now) k v =
    create_job-IsValid s v job_id url params max_retries now
step-IsValid s (progresses job_id p) k v = update_progress-IsValid s v job_id p
step-IsValid s (starts now job_id) k v = start_processing-IsValid s v now job_id
step-IsValid s (retries now job_id) k v = start_retry-IsValid s v now job_id
step-IsValid s (completes now job_id path size duration) k v =
    complete_job-IsValid s v now job_id path size duration
step-IsValid s (fails now job_id message) k v = fail_job-IsValid s v now job_id message
step-IsValid s (positions job_id n) k v = set_queue_position-IsValid s v job_id n
step-IsValid s (updates now job_id status changes) k v =
    update_status-IsValid s v now job_id status changes k
step-IsValid s (cleans now) k v = cleanup-IsValid s v now

run-IsValid : (s : JobService) (cs : List Call) → All IsSane cs → IsValid s → IsValid (run s cs)
unfolding run
run-IsValid s [] k v = v
run-IsValid s (c ∷ cs) k v = run-IsValid (step s c) cs k.1 (step-IsValid s c k.0 v)

-- After any calls on a new service of the methods that change the table, the table is valid: one
-- entry to a key, each job under its own id, with a progress of at most 100 and a time of completion
-- where it is completed or failed. `update_status` is one of the methods, with any status and
-- keyword arguments but a progress above 100 and a time of completion that is None.
pub run-new-IsValid :
    (hours : ℕ) (cs : List Call)
    → All IsSane cs
    → IsValid (run (record { job_ttl_hours = hours; jobs = [] }) cs)
run-new-IsValid hours cs sane =
    run-IsValid (record { job_ttl_hours = hours; jobs = [] }) cs sane
      (record { keyed = tt; entries = tt })
