-- ===== src/Worker/Notified.antt =====
-- The webhook urls that app/services/download_worker.py notifies are those of the jobs of the table.
use yt_dlp_api.Prelude.{
  ℕ, String, ◌≡◌, inl, inr, true, false, Bool, Option, none, some, [], ◌∷◌, All, Option-cases,
  if◌then◌else◌,
}
use yt_dlp_api.Prelude.Dict.{lookup, AllEntries-lookup}
use yt_dlp_api.Prelude.Result.{Result, ok, Result-cases}
use yt_dlp_api.Job.{Job, Value, processing, completed, failed}
use yt_dlp_api.JobService.{
  JobService, JobError, get_job, start_processing, complete_job, fail_job, error_message_to,
}
use yt_dlp_api.JobService.Hooks.{JobHas, JobsHave, ResultHas, update_status-ResultHas}
use yt_dlp_api.Worker.{
  System, Notification, notification, webhook_of, notify_job, notify_webhook, fail_and_notify,
}

module _ (Q : String → Type 0) where
  -- What is asked of a webhook, where there is one.
  abbrev pub UrlHas : Option String → Type 0
  UrlHas none = Unit
  UrlHas (some url) = Q url

  abbrev pub HookHas : Option Value → Type 0
  HookHas v = UrlHas (webhook_of v)

  -- Of the webhooks of the jobs of the table, and of those that are notified.
  pub record Hooked (sys : System) : Type 0 where
    pub jobs : JobsHave HookHas sys.jobs
    pub sent : All (λ n. Q n.webhook_url) sys.notifications

  pub with_jobs :
      (sys : System) (s : JobService)
      → Hooked sys
      → JobsHave HookHas s
      → Hooked (record sys { jobs = s })
  with_jobs sys s v j = record { jobs = j; sent = v.sent }

  sent-Hooked :
      (b : Bool) (sys : System) (n : Notification)
      → Q n.webhook_url
      → Hooked sys
      → Hooked (if b then record sys { notifications = n ∷ sys.notifications } else sys)
  sent-Hooked true sys n p v = record { jobs = v.jobs; sent = (p, v.sent) }
  sent-Hooked false sys n p v = v

  notify_job-Hooked :
      (sys : System) (job : Job) (event : String)
      → HookHas (lookup "webhook_url" job.params)
      → Hooked sys
      → Hooked (notify_job sys job event)
  notify_job-Hooked sys job event p v =
      elim (Option-cases (webhook_of (lookup "webhook_url" job.params))) [
        | inl e ↦ rw (e, notify_job) v
        | inr (url, e) ↦
            rw (e, notify_job)
              (sent-Hooked sys.webhooks_enabled sys (notification url job event) (rw e at p) v)
      ]

  pub notify_webhook-Hooked :
      (sys : System) (job_id event : String) → Hooked sys → Hooked (notify_webhook sys job_id event)
  unfolding notify_webhook get_job
  notify_webhook-Hooked sys job_id event v = elim (Option-cases (lookup job_id sys.jobs.jobs)) [
    | inl e ↦ rw (e, notify_webhook) v
    | inr (job, e) ↦
        rw (e, notify_webhook)
          (notify_job-Hooked sys job event
            (AllEntries-lookup (JobHas HookHas) job_id job sys.jobs.jobs v.jobs e) v)
  ]

  -- A result that the table is replaced with.
  pub ResultHas-jobs :
      (m : Result JobError (JobService × Job)) (s : JobService) (job : Job)
      → ResultHas HookHas m
      → m ≡ ok (s, job)
      → JobsHave HookHas s
  ResultHas-jobs m s job r e = rw e at r

  pub fail_job-ResultHas :
      (s : JobService) (now : ℕ) (job_id message : String)
      → JobsHave HookHas s
      → ResultHas HookHas (fail_job s now job_id message)
  unfolding fail_job
  fail_job-ResultHas s now job_id message v =
      update_status-ResultHas HookHas s now job_id failed (error_message_to (some message) ∷ [])
        (tt, tt) v

  pub fail_and_notify-Hooked :
      (sys : System) (now : ℕ) (job_id message : String)
      → Hooked sys
      → Hooked (fail_and_notify sys now job_id message)
  unfolding fail_and_notify
  fail_and_notify-Hooked sys now job_id message v =
      elim (Result-cases (fail_job sys.jobs now job_id message)) [
        | inr (x, e) ↦ rw (e, fail_and_notify) v
        | inl ((s, job), e) ↦
            rw (e, fail_and_notify)
              (notify_webhook-Hooked (record sys { jobs = s }) job_id "job.failed"
                (with_jobs sys s v (
                  ResultHas-jobs _ s job (fail_job-ResultHas sys.jobs now job_id message v.jobs)
                    e)))
      ]

  pub complete_job-ResultHas :
      (s : JobService) (now : ℕ) (job_id path : String) (size duration : ℕ)
      → JobsHave HookHas s
      → ResultHas HookHas (complete_job s now job_id path size duration)
  unfolding complete_job
  complete_job-ResultHas s now job_id path size duration v =
      update_status-ResultHas HookHas s now job_id completed _ (tt, (tt, (tt, (tt, tt)))) v

  pub start_processing-ResultHas :
      (s : JobService) (now : ℕ) (job_id : String)
      → JobsHave HookHas s
      → ResultHas HookHas (start_processing s now job_id)
  unfolding start_processing
  start_processing-ResultHas s now job_id v =
      update_status-ResultHas HookHas s now job_id processing [] tt v
