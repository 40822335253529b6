-- ===== src/JobService/Tests.antt =====
-- Runs of app/services/job_service.py on a small table, and the theorems at such inputs.
use mathlib.Core.List.{Perm}
use yt_dlp_api.Prelude.{
  ◌≤◌, min, String, ◌≡◌, refl, true, none, some, List, [], ◌∷◌, arith, length, filter, count, All,
}
use yt_dlp_api.Prelude.Dict.{values}
use yt_dlp_api.Prelude.Int.{pos}
use yt_dlp_api.Prelude.Result.{ok}
use yt_dlp_api.Prelude.Sort.{sort, IsOrdered}
use yt_dlp_api.Job.{Job, pending, processing, completed}
use yt_dlp_api.JobService.{
  JobService, progress_to, completed_at_to, get_job, get_job_or_raise, updated, clamp_progress,
  start_processing, list_jobs, newer, matches, get_job_count, cleanup_expired_jobs, is_expired,
}
use yt_dlp_api.JobService.Cleanup.{kept, cleanup_exact}
use yt_dlp_api.JobService.Listing.{list_jobs_sound, list_jobs_complete}
use yt_dlp_api.JobService.Invariant.{
  IsValid, run, run-new-IsValid, creates, starts, completes, cleans, progresses, updates,
}

-- Two jobs: "a" completed at time 10, "b" pending; the time to live is zero hours.
abbrev job_a : Job
job_a = record {
  job_id = "a";
  url = "u";
  status = completed;
  params = [];
  progress = 100;
  retry_count = 0;
  max_retries = 3;
  error_message = none;
  file_path = some "/d/a.mp4";
  file_size = some 7;
  duration = some 2;
  created_at = 1;
  started_at = some 2;
  completed_at = some 10;
  queue_position = none;
}

abbrev job_b : Job
job_b = record {
  job_id = "b";
  url = "v";
  status = pending;
  params = [];
  progress = 0;
  retry_count = 0;
  max_retries = 3;
  error_message = none;
  file_path = none;
  file_size = none;
  duration = none;
  created_at = 5;
  started_at = none;
  completed_at = none;
  queue_position = none;
}

abbrev two_jobs : JobService
two_jobs = record { job_ttl_hours = 0; jobs = ("a", job_a) ∷ ("b", job_b) ∷ [] }

newest_first : list_jobs two_jobs none 1 ≡ job_b ∷ []
unfolding list_jobs sort
newest_first = refl

cleaned_at_11 :
    (cleanup_expired_jobs {S = List String} two_jobs (some (λ i out. i ∷ out)) 11 []).0.jobs
    ≡ ("b", job_b) ∷ []
unfolding cleanup_expired_jobs
cleaned_at_11 = refl

cleaned_at_10 :
    (cleanup_expired_jobs {S = List String} two_jobs (some (λ i out. i ∷ out)) 10 []).2 ≡ 0
unfolding cleanup_expired_jobs
cleaned_at_10 = refl

clamped : clamp_progress (pos 250) ≡ 100
unfolding clamp_progress
clamped = refl

-- The doc of `JobStatus` has no transition out of COMPLETED; `update_status` makes it.
restarted :
    (s' : JobService) × (start_processing two_jobs 20 "a"
      ≡ ok (s', record job_a { status = processing }))
unfolding start_processing get_job_or_raise updated
restarted = (
  record {
    job_ttl_hours = 0;
    jobs = ("a", record job_a { status = processing }) ∷ ("b", job_b) ∷ [];
  },
  refl,
)

found_b : get_job two_jobs "b" ≡ some job_b
unfolding get_job
found_b = refl

cleanup_exact_example :
    (cleanup_expired_jobs {S = List String} two_jobs (some (λ i out. i ∷ out)) 11 []).0.jobs
    ≡ kept (is_expired two_jobs 11) two_jobs.jobs
cleanup_exact_example =
    (cleanup_exact {S = List String} two_jobs (some (λ i out. i ∷ out)) 11 [] (refl, (refl, tt))).1

list_jobs_sound_example :
    IsOrdered newer (list_jobs two_jobs none 1)
    × All (λ job. matches none job ≡ true) (list_jobs two_jobs none 1)
    × (length (list_jobs two_jobs none 1) ≡ min 1 (count (matches none) (values two_jobs.jobs)))
list_jobs_sound_example = list_jobs_sound two_jobs none 1

enough : get_job_count two_jobs ≤ 5
unfolding get_job_count
enough = omega arith

list_jobs_complete_example :
    Perm
      (list_jobs two_jobs (some pending) 5)
      (filter (matches (some pending)) (values two_jobs.jobs))
list_jobs_complete_example = list_jobs_complete two_jobs (some pending) 5 enough

run-new-IsValid_example : IsValid (
    run
      (record { job_ttl_hours = 1; jobs = [] })
      (creates "a" "u" [] 3 1
        ∷ starts 2 "a"
        ∷ progresses "a" (pos 40)
        ∷ updates 2 "a" processing (progress_to 50 ∷ completed_at_to (some 2) ∷ [])
        ∷ completes 3 "a" "/d/a" 7 1
        ∷ cleans 9
        ∷ []))
run-new-IsValid_example =
    run-new-IsValid 1
      (creates "a" "u" [] 3 1
        ∷ starts 2 "a"
        ∷ progresses "a" (pos 40)
        ∷ updates 2 "a" processing (progress_to 50 ∷ completed_at_to (some 2) ∷ [])
        ∷ completes 3 "a" "/d/a" 7 1
        ∷ cleans 9
        ∷ [])
      (tt, (tt, (tt, ((omega arith, (refl, tt)), (tt, (tt, tt))))))
