-- ===== src/JobService/Entry.antt =====
-- The entries of the job table of app/services/job_service.py, and what `update_status` makes of one.
use yt_dlp_api.Prelude.{
  ℕ, ◌≤◌, All, String, ◌≡◌, refl, true, false, List, [], ◌∷◌, is_some, Bool-cases, inl, inr, ◌⊎◌,
}
use yt_dlp_api.Job.{
  Job, JobStatus, status_eq, pending, processing, completed, failed, retrying, is_terminal,
}
use yt_dlp_api.JobService.{
  updated, file_path_to, file_size_to, Change, duration_to, progress_to, error_message_to,
  retry_count_to, queue_position_to, started_at_to, completed_at_to, max_retries_to, created_at_to,
  url_to, params_to, unknown, apply_change, apply_changes, stamp,
}

-- What holds of the entry under `key`.
pub record IsValidJob (key : String) (job : Job) : Type 0 where
  pub own_key : job.job_id ≡ key
  pub percentage : job.progress ≤ 100
  pub finished : (is_terminal job ≡ false) ⊎ (is_some job.completed_at ≡ true)

-- `update_status` writes any progress and any time of completion; this keyword argument is no
-- progress above 100 and does not take the time of completion away.
abbrev pub IsKept : Change → Type 0
IsKept (progress_to n) = n ≤ 100
IsKept (completed_at_to n) = is_some n ≡ true
IsKept _ = Unit

-- A keyword argument of `update_status` that keeps the entry.
apply_change-IsValidJob :
    (key : String) (c : Change) (job : Job)
    → IsKept c
    → IsValidJob key job
    → IsValidJob key (apply_change c job)
unfolding apply_change
apply_change-IsValidJob key (progress_to n) job k j = record {
  own_key = j.own_key;
  percentage = k;
  finished = j.finished;
}
apply_change-IsValidJob key (completed_at_to n) job k j = record {
  own_key = j.own_key;
  percentage = j.percentage;
  finished = inr k;
}
apply_change-IsValidJob key (retry_count_to n) job k j = record {
  own_key = j.own_key;
  percentage = j.percentage;
  finished = j.finished;
}
apply_change-IsValidJob key (error_message_to m) job k j = record {
  own_key = j.own_key;
  percentage = j.percentage;
  finished = j.finished;
}
apply_change-IsValidJob key (file_path_to p) job k j = record {
  own_key = j.own_key;
  percentage = j.percentage;
  finished = j.finished;
}
apply_change-IsValidJob key (file_size_to n) job k j = record {
  own_key = j.own_key;
  percentage = j.percentage;
  finished = j.finished;
}
apply_change-IsValidJob key (duration_to n) job k j = record {
  own_key = j.own_key;
  percentage = j.percentage;
  finished = j.finished;
}
apply_change-IsValidJob key (queue_position_to n) job k j = record {
  own_key = j.own_key;
  percentage = j.percentage;
  finished = j.finished;
}
apply_change-IsValidJob key (started_at_to n) job k j = record {
  own_key = j.own_key;
  percentage = j.percentage;
  finished = j.finished;
}
apply_change-IsValidJob key (max_retries_to n) job k j = record {
  own_key = j.own_key;
  percentage = j.percentage;
  finished = j.finished;
}
apply_change-IsValidJob key (created_at_to n) job k j = record {
  own_key = j.own_key;
  percentage = j.percentage;
  finished = j.finished;
}
apply_change-IsValidJob key (url_to u) job k j = record {
  own_key = j.own_key;
  percentage = j.percentage;
  finished = j.finished;
}
apply_change-IsValidJob key (unknown name) job k j = record {
  own_key = j.own_key;
  percentage = j.percentage;
  finished = j.finished;
}
apply_change-IsValidJob key (params_to p) job k j = record {
  own_key = j.own_key;
  percentage = j.percentage;
  finished = j.finished;
}

apply_changes-IsValidJob :
    (key : String) (cs : List Change) (job : Job)
    → All IsKept cs
    → IsValidJob key job
    → IsValidJob key (apply_changes cs job)
unfolding apply_changes
apply_changes-IsValidJob key [] job k j = j
apply_changes-IsValidJob key (c ∷ cs) job k j =
    apply_changes-IsValidJob key cs (apply_change c job) k.1
      (apply_change-IsValidJob key c job k.0 j)

-- A job that is terminal has its time of completion once it is stamped.
stamp-IsValidJob :
    (now : ℕ) (key : String) (status : JobStatus) (job : Job)
    → IsValidJob key job
    → IsValidJob key (stamp now job.status (record job { status = status }))
unfolding stamp
stamp-IsValidJob now key pending job j = record {
  own_key = j.own_key;
  percentage = j.percentage;
  finished = inl refl;
}
stamp-IsValidJob now key processing job j = elim (Bool-cases (status_eq job.status pending)) [
  | inl e ↦ rw e (record { own_key = j.own_key; percentage = j.percentage; finished = inl refl })
  | inr e ↦ rw e (record { own_key = j.own_key; percentage = j.percentage; finished = inl refl })
]
stamp-IsValidJob now key completed job j = record {
  own_key = j.own_key;
  percentage = j.percentage;
  finished = inr refl;
}
stamp-IsValidJob now key failed job j = record {
  own_key = j.own_key;
  percentage = j.percentage;
  finished = inr refl;
}
stamp-IsValidJob now key retrying job j = record {
  own_key = j.own_key;
  percentage = j.percentage;
  finished = inl refl;
}

pub updated-IsValidJob :
    (now : ℕ) (key : String) (status : JobStatus) (cs : List Change) (job : Job)
    → All IsKept cs
    → IsValidJob key job
    → IsValidJob key (updated now status cs job)
unfolding updated
updated-IsValidJob now key status cs job k j =
    apply_changes-IsValidJob key cs (stamp now job.status (record job { status = status })) k
      (stamp-IsValidJob now key status job j)
