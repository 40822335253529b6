-- ===== src/Worker/Hooks.antt =====
-- The steps of app/services/download_worker.py keep the webhook urls of the table and of the
-- notifications.
use yt_dlp_api.Prelude.{ℕ, String, inl, inr, Option-cases, Bool-cases}
use yt_dlp_api.Prelude.Dict.{Dict, lookup}
use yt_dlp_api.Prelude.Result.{Result-cases}
use yt_dlp_api.Job.{Value, can_retry}
use yt_dlp_api.JobService.{
  get_job, create_job, start_processing, start_retry, complete_job, fail_job, set_queue_position,
}
use yt_dlp_api.JobService.Hooks.{
  after-JobsHave, start_retry-ResultHas, set_queue_position-ResultHas, create_job-JobsHave,
  cleanup-JobsHave,
}
use yt_dlp_api.DownloadQueue.Heap.{Heapq}
use yt_dlp_api.DownloadQueue.Job.{priority_download}
use yt_dlp_api.DownloadQueue.{enqueue, acquire_slot_for_sync}
use yt_dlp_api.Worker.{
  System, Outcome, Recorded, downloaded, download_error, provider_error, unexpected_error,
  finally_block, begin_job, finish_success, retry_job, handle_download_error, handle_outcome,
  finish_job, process_job, poll, submit, download_sync, full_message,
}
use yt_dlp_api.Worker.Reach.{cleaned, on_job_expired}
use yt_dlp_api.Worker.Notified.{
  HookHas, Hooked, with_jobs, notify_webhook-Hooked, ResultHas-jobs, fail_job-ResultHas,
  fail_and_notify-Hooked, complete_job-ResultHas, start_processing-ResultHas,
}

module _ (Q : String → Type 0) where
  module _ (h : Heapq) (resolve : String → String) where
    finish_success-Hooked :
        (sys : System) (now : ℕ) (job_id path : String) (size duration : ℕ)
        → Hooked Q sys
        → Hooked Q (finish_success h resolve sys now job_id path size duration)
    unfolding finish_success
    finish_success-Hooked sys now job_id path size duration v =
        elim (Result-cases (complete_job sys.jobs now job_id path size duration)) [
          | inr (x, e) ↦
              rw (e, finish_success)
                (fail_and_notify-Hooked Q _ now job_id _ (record { jobs = v.jobs; sent = v.sent }))
          | inl ((s, job), e) ↦
              rw (e, finish_success)
                (notify_webhook-Hooked Q _ job_id "job.completed" (record {
                  jobs =
                      ResultHas-jobs Q _ s job
                        (complete_job-ResultHas Q sys.jobs now job_id path size duration v.jobs) e;
                  sent = v.sent;
                }))
        ]

    retry_job-Hooked :
        (sys : System) (now : ℕ) (job_id message : String)
        → Hooked Q sys
        → Hooked Q (retry_job h resolve sys now job_id message)
    unfolding retry_job
    retry_job-Hooked sys now job_id message v =
        elim (Result-cases (start_retry sys.jobs now job_id)) [
          | inr (x, e) ↦ rw (e, retry_job) v
          | inl ((s, job), e) ↦
              let kept =
                ResultHas-jobs Q _ s job
                  (start_retry-ResultHas (HookHas Q) sys.jobs now job_id v.jobs) e in
              elim (Result-cases (enqueue h sys.queue now job_id priority_download)) [
                | inl ((q, p), f) ↦
                    rw (e, retry_job) (rw (f, retry_job) (record { jobs = kept; sent = v.sent }))
                | inr (x, f) ↦
                    rw (e, retry_job)
                      (rw (f, retry_job)
                        (fail_and_notify-Hooked Q (record sys { jobs = s }) now job_id _
                          (with_jobs Q sys s v kept)))
              ]
        ]

    handle_download_error-Hooked :
        (sys : System) (now : ℕ) (job_id message : String)
        → Hooked Q sys
        → Hooked Q (handle_download_error h resolve sys now job_id message)
    unfolding handle_download_error
    handle_download_error-Hooked sys now job_id message v =
        elim (Option-cases (get_job sys.jobs job_id)) [
          | inl e ↦ rw (e, handle_download_error) v
          | inr (job, e) ↦ elim (Bool-cases (can_retry job)) [
            | inl c ↦ rw (e, c, handle_download_error) (retry_job-Hooked sys now job_id message v)
            | inr c ↦ rw (e, c, handle_download_error) (fail_and_notify-Hooked Q sys now job_id _ v)
          ]
        ]

    handle_outcome-Hooked :
        (sys : System) (now : ℕ) (job_id : String) (outcome : Outcome)
        → Hooked Q sys
        → Hooked Q (handle_outcome h resolve sys now job_id outcome)
    unfolding handle_outcome
    handle_outcome-Hooked sys now job_id (downloaded path size duration) v =
        finish_success-Hooked sys now job_id path size duration v
    handle_outcome-Hooked sys now job_id (download_error message) v =
        handle_download_error-Hooked sys now job_id message v
    handle_outcome-Hooked sys now job_id (provider_error message) v =
        fail_and_notify-Hooked Q sys now job_id message v
    handle_outcome-Hooked sys now job_id (unexpected_error message) v =
        fail_and_notify-Hooked Q sys now job_id _ v

    finally-Hooked :
        (sys : System) (job_id : String) (r : Recorded)
        → Hooked Q sys
        → Hooked Q (finally_block sys job_id r)
    unfolding finally_block
    finally-Hooked sys job_id r v = record { jobs = v.jobs; sent = v.sent }

    pub finish_job-Hooked :
        (sys : System) (now : ℕ) (job_id : String) (outcome : Outcome)
        → Hooked Q sys
        → Hooked Q (finish_job h resolve sys now job_id outcome)
    unfolding finish_job
    finish_job-Hooked sys now job_id outcome v =
        finally-Hooked (handle_outcome h resolve sys now job_id outcome) job_id _
          (handle_outcome-Hooked sys now job_id outcome v)

    pub begin_job-Hooked :
        (sys : System) (now : ℕ) (job_id : String)
        → Hooked Q sys
        → Hooked Q (begin_job h resolve sys now job_id).0
    unfolding begin_job
    begin_job-Hooked sys now job_id v = elim (Option-cases (get_job sys.jobs job_id)) [
      | inl e ↦ rw (e, begin_job) (record { jobs = v.jobs; sent = v.sent })
      | inr (job, e) ↦ elim (Result-cases (start_processing sys.jobs now job_id)) [
        | inr (x, f) ↦ rw (e, begin_job) (rw (f, begin_job) (finally-Hooked sys job_id _ v))
        | inl ((s, job'), f) ↦
            rw (e, begin_job)
              (rw (f, begin_job)
                (with_jobs Q sys s v (
                  ResultHas-jobs Q _ s job'
                    (start_processing-ResultHas Q sys.jobs now job_id v.jobs) f)))
      ]
    ]

    pub poll-Hooked : (sys : System) → Hooked Q sys → Hooked Q (poll h resolve sys).0
    unfolding poll
    poll-Hooked sys v = record { jobs = v.jobs; sent = v.sent }

    pub process_job-Hooked :
        (sys : System) (now later : ℕ) (job_id : String) (outcome : Outcome)
        → Hooked Q sys
        → Hooked Q (process_job h resolve sys now later job_id outcome)
    unfolding process_job
    process_job-Hooked sys now later job_id outcome v =
        let begun = begin_job-Hooked sys now job_id v in
        elim (Bool-cases (begin_job h resolve sys now job_id).1) [
          | inl e ↦ rw e (finish_job-Hooked _ later job_id outcome begun)
          | inr e ↦ rw e begun
        ]

    pub submit-Hooked :
        (sys : System) (now : ℕ) (job_id url : String) (params : Dict Value)
        → (HookHas Q) (lookup "webhook_url" params)
        → Hooked Q sys
        → Hooked Q (submit h resolve sys now job_id url params).0
    unfolding submit
    submit-Hooked sys now job_id url params p v =
        let s = (create_job sys.jobs job_id url params 3 now).0 in
        let made = create_job-JobsHave (HookHas Q) sys.jobs job_id url params 3 now p v.jobs in
        elim (Result-cases (enqueue h sys.queue now job_id priority_download)) [
          | inl ((q, n), e) ↦
              rw (e, submit)
                (record {
                  jobs =
                      after-JobsHave (HookHas Q) s (set_queue_position s job_id n) made
                        (set_queue_position-ResultHas (HookHas Q) s job_id n made);
                  sent = v.sent;
                })
          | inr (x, e) ↦
              rw (e, submit)
                (record {
                  jobs =
                      after-JobsHave (HookHas Q) s (fail_job s now job_id (full_message sys.queue))
                        made (fail_job-ResultHas Q s now job_id (full_message sys.queue) made);
                  sent = v.sent;
                })
        ]

    pub download_sync-Hooked :
        (sys : System) (now later : ℕ) (job_id url : String) (params : Dict Value)
        (outcome : Outcome)
        → (HookHas Q) (lookup "webhook_url" params)
        → Hooked Q sys
        → Hooked Q (download_sync h resolve sys now later job_id url params outcome).0
    unfolding download_sync
    download_sync-Hooked sys now later job_id url params outcome p v =
        let s = (create_job sys.jobs job_id url params 3 now).0 in
        let made = create_job-JobsHave (HookHas Q) sys.jobs job_id url params 3 now p v.jobs in
        elim (Bool-cases (acquire_slot_for_sync sys.queue job_id).1) [
          | inl e ↦
              let w =
                process_job-Hooked
                  (record sys { jobs = s; queue = (acquire_slot_for_sync sys.queue job_id).0 }) now
                  later job_id outcome (record { jobs = made; sent = v.sent }) in
              rw (e, download_sync) (record { jobs = w.jobs; sent = w.sent })
          | inr e ↦
              rw (e, download_sync)
                (record {
                  jobs =
                      after-JobsHave (HookHas Q) s
                        (fail_job s now job_id "No download slots available") made
                        (fail_job-ResultHas Q s now job_id "No download slots available" made);
                  sent = v.sent;
                })
        ]

  pub cleaned-Hooked : (sys : System) (now : ℕ) → Hooked Q sys → Hooked Q (cleaned sys now)
  cleaned-Hooked sys now v = record {
    jobs = cleanup-JobsHave (HookHas Q) sys.jobs on_job_expired now sys.storage v.jobs;
    sent = v.sent;
  }
