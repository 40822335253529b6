-- ===== src/JobService/Hooks.antt =====
-- No method of app/services/job_service.py writes the parameters of a job, so that what holds of the
-- webhook in them goes on to hold.
use yt_dlp_api.Prelude.{
  ℕ, String, ◌≡◌, refl, ◌∙◌, sym, subst, inl, inr, Option, none, some, List, [], ◌∷◌, arith,
  Option-cases, All,
}
use yt_dlp_api.Prelude.Dict.{
  Dict, lookup, erase, AllEntries, AllEntries-insert, AllEntries-erase, AllEntries-lookup,
}
use yt_dlp_api.Prelude.Result.{Result, ok, err}
use yt_dlp_api.Job.{Job, JobStatus, Value}
use yt_dlp_api.JobService.{
  JobService, JobError, job_not_found, Change, store, create_job, new_job, apply_change,
  apply_changes, stamp, updated, update_status, start_retry, set_queue_position, progress_to,
  retry_count_to, error_message_to, file_path_to, file_size_to, duration_to, queue_position_to,
  unknown, started_at_to, completed_at_to, max_retries_to, created_at_to, url_to, params_to,
  remove_expired, cleanup_expired_jobs, expired_ids, is_expired,
}
use yt_dlp_api.JobService.Invariant.{after}
use yt_dlp_api.JobService.Update.{
  get_job_or_raise_found, get_job_or_raise_missing, start_retry_found, retried,
}

-- A keyword argument that leaves the parameters alone.
abbrev pub KeepsParams : Change → Type 0
KeepsParams (params_to p) = ⊥
KeepsParams _ = Unit

params-apply_change :
    (c : Change) (job : Job) → KeepsParams c → (apply_change c job).params ≡ job.params
unfolding apply_change
params-apply_change (params_to p) job k = absurd k
params-apply_change (progress_to n) job k = refl
params-apply_change (retry_count_to n) job k = refl
params-apply_change (error_message_to m) job k = refl
params-apply_change (file_path_to p) job k = refl
params-apply_change (file_size_to n) job k = refl
params-apply_change (duration_to n) job k = refl
params-apply_change (queue_position_to n) job k = refl
params-apply_change (started_at_to n) job k = refl
params-apply_change (completed_at_to n) job k = refl
params-apply_change (max_retries_to n) job k = refl
params-apply_change (created_at_to n) job k = refl
params-apply_change (url_to u) job k = refl
params-apply_change (unknown key) job k = refl

params-apply_changes :
    (cs : List Change) (job : Job) → All KeepsParams cs → (apply_changes cs job).params ≡ job.params
unfolding apply_changes apply_change
params-apply_changes [] job k = refl
params-apply_changes (c ∷ cs) job k =
    params-apply_changes cs (apply_change c job) k.1 ∙ params-apply_change c job k.0

params-stamp : (now : ℕ) (old : JobStatus) (job : Job) → (stamp now old job).params ≡ job.params
unfolding stamp
params-stamp now old job = ground arith

params-updated :
    (now : ℕ) (status : JobStatus) (cs : List Change) (job : Job)
    → All KeepsParams cs
    → (updated now status cs job).params ≡ job.params
unfolding updated
params-updated now status cs job k =
    params-apply_changes cs (stamp now job.status (record job { status = status })) k
    ∙ params-stamp now job.status (record job { status = status })

module _ (P : Option Value → Type 0) where
  -- What is asked of the webhook of a job.
  abbrev pub JobHas : String → Job → Type 0
  JobHas key job = P (lookup "webhook_url" job.params)

  abbrev pub JobsHave : JobService → Type 0
  JobsHave s = AllEntries JobHas s.jobs

  JobHas-params : (key : String) (a b : Job) → a.params ≡ b.params → JobHas key b → JobHas key a
  JobHas-params key a b e h = subst (λ p. P (lookup "webhook_url" p)) (sym e) h

  store-JobsHave :
      (s : JobService) (job_id : String) (job : Job)
      → JobHas job_id job
      → JobsHave s
      → JobsHave (store s job_id job)
  store-JobsHave s job_id job j v = AllEntries-insert JobHas job_id job s.jobs j v

  -- What a method that stores a job leaves.
  abbrev pub ResultHas : Result JobError (JobService × Job) → Type 0
  ResultHas (ok (s, job)) = JobsHave s
  ResultHas (err e) = Unit

  pub after-JobsHave :
      (s : JobService) (m : Result JobError (JobService × Job))
      → JobsHave s
      → ResultHas m
      → JobsHave (after s m)
  after-JobsHave s (ok (s', job)) v r = r
  after-JobsHave s (err e) v r = v

  touch-ResultHas :
      (s : JobService) (job_id : String) (m : Result JobError (JobService × Job)) (f : Job → Job)
      → (lookup job_id s.jobs ≡ none → m ≡ err (job_not_found job_id))
      → ((job : Job) → lookup job_id s.jobs ≡ some job → m ≡ ok (store s job_id (f job), f job))
      → ((job : Job) → (f job).params ≡ job.params)
      → JobsHave s
      → ResultHas m
  touch-ResultHas s job_id m f missing found same v = elim (Option-cases (lookup job_id s.jobs)) [
    | inl e ↦ rw (missing e) tt
    | inr (job, e) ↦ rw (found job e) (
        store-JobsHave s job_id (f job)
          (JobHas-params job_id (f job) job (same job)
            (AllEntries-lookup JobHas job_id job s.jobs v e))
          v)
  ]

  pub update_status-ResultHas :
      (s : JobService) (now : ℕ) (job_id : String) (status : JobStatus) (changes : List Change)
      → All KeepsParams changes
      → JobsHave s
      → ResultHas (update_status s now job_id status changes)
  unfolding update_status
  update_status-ResultHas s now job_id status changes k v =
      touch-ResultHas s job_id (update_status s now job_id status changes)
        (updated now status changes) (λ e. rw (get_job_or_raise_missing s job_id e))
        (λ job e. rw (get_job_or_raise_found s job_id job e))
        (λ job. params-updated now status changes job k) v

  pub start_retry-ResultHas :
      (s : JobService) (now : ℕ) (job_id : String)
      → JobsHave s
      → ResultHas (start_retry s now job_id)
  unfolding start_retry
  start_retry-ResultHas s now job_id v =
      touch-ResultHas s job_id (start_retry s now job_id) retried
        (λ e. rw (get_job_or_raise_missing s job_id e)) (start_retry_found s now job_id)
        (λ job. refl) v

  pub set_queue_position-ResultHas :
      (s : JobService) (job_id : String) (n : ℕ)
      → JobsHave s
      → ResultHas (set_queue_position s job_id n)
  unfolding set_queue_position
  set_queue_position-ResultHas s job_id n v =
      touch-ResultHas s job_id (set_queue_position s job_id n)
        (λ job. record job { queue_position = some n })
        (λ e. rw (get_job_or_raise_missing s job_id e))
        (λ job e. rw (get_job_or_raise_found s job_id job e)) (λ job. refl) v

  pub create_job-JobsHave :
      (s : JobService) (job_id url : String) (params : Dict Value) (n now : ℕ)
      → P (lookup "webhook_url" params)
      → JobsHave s
      → JobsHave (create_job s job_id url params n now).0
  unfolding create_job
  create_job-JobsHave s job_id url params n now p v =
      store-JobsHave s job_id (new_job job_id url params n now) p v

  remove_expired-AllEntries :
      {S : Type 0} (callback : Option (String → S → S)) (ids : List String) (d : Dict Job) (out : S)
      → AllEntries JobHas d
      → AllEntries JobHas (remove_expired callback ids (d, out)).0
  unfolding remove_expired
  remove_expired-AllEntries callback [] d out v = v
  remove_expired-AllEntries callback (i ∷ ids) d out v =
      remove_expired-AllEntries callback ids (erase i d) _ (AllEntries-erase JobHas i d v)

  pub cleanup-JobsHave :
      {S : Type 0} (s : JobService) (callback : Option (String → S → S)) (now : ℕ) (out : S)
      → JobsHave s
      → JobsHave (cleanup_expired_jobs s callback now out).0
  unfolding cleanup_expired_jobs
  cleanup-JobsHave s callback now out v =
      remove_expired-AllEntries callback (expired_ids (is_expired s now) s.jobs) s.jobs out v
