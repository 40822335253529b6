-- ===== src/Worker/Adds.antt =====
-- A step of the worker that queues a job changes the entries of this job alone, and no slot.
use yt_dlp_api.Prelude.{
  ℕ, String, ◌≡◌, refl, subst, inl, inr, false, arith, count, str_eq, Option-cases, Bool-cases,
}
use yt_dlp_api.Prelude.Dict.{Dict}
use yt_dlp_api.Prelude.Result.{ok, Result-cases}
use yt_dlp_api.Prelude.Text.{concat, decimal}
use yt_dlp_api.Job.{Value, can_retry}
use yt_dlp_api.JobService.{get_job, start_retry}
use yt_dlp_api.DownloadQueue.Heap.{Heapq}
use yt_dlp_api.DownloadQueue.Job.{has_id, priority_download}
use yt_dlp_api.DownloadQueue.{DownloadQueue, enqueue}
use yt_dlp_api.DownloadQueue.Invariant.{IsValid}
use yt_dlp_api.DownloadQueue.Enqueue.{Enqueues, refuses, repeats, enters, enqueue_total}
use yt_dlp_api.Worker.{
  System, Outcome, downloaded, download_error, provider_error, unexpected_error, submit,
  handle_outcome, handle_download_error, retry_job,
}
use yt_dlp_api.Worker.Steps.{queue-fail_and_notify}
use yt_dlp_api.Worker.Slots.{slots, slots-enqueue, queue-finish_success}

module _ (h : Heapq) (resolve : String → String) where
  -- What `enqueue` of one job leaves as it was.
  pub record Adds (job_id : String) (q q' : DownloadQueue) : Type 0 where
    pub valid : IsValid h q'
    pub same_slots : slots q' ≡ slots q
    pub others :
        (i : String)
        → str_eq job_id i ≡ false
        → count (has_id i) q'.queue ≡ count (has_id i) q.queue

  Adds-of :
      (q : DownloadQueue) (now : ℕ) (job_id : String) (priority : ℕ) (q' : DownloadQueue) (p : ℕ)
      → IsValid h q
      → enqueue h q now job_id priority ≡ ok (q', p)
      → Enqueues h q now job_id priority
      → Adds job_id q q'
  Adds-of q now job_id priority q' p v e (refuses f g) = absurd (cc)
  Adds-of q now job_id priority q' p v e (repeats p' f g r) =
      let same : q ≡ q' = cc in
      subst (λ t. Adds job_id q t) same
        (record { valid = v; same_slots = refl; others = λ i ne. refl })
  Adds-of q now job_id priority q' p v e (enters q'' p' f n r v' g a b same l gs act sem lim) =
      let eq : q'' ≡ q' = cc in
      subst (λ t. Adds job_id q t) eq
        (record {
          valid = v';
          same_slots = slots-enqueue h q now job_id priority r;
          others = λ i ne. ground (arith, same (has_id i), ne);
        })

  adds :
      (q : DownloadQueue) (now : ℕ) (job_id : String) (priority : ℕ) (q' : DownloadQueue) (p : ℕ)
      → IsValid h q
      → enqueue h q now job_id priority ≡ ok (q', p)
      → Adds job_id q q'
  adds q now job_id priority q' p v e =
      Adds-of q now job_id priority q' p v e (enqueue_total h q now job_id priority v)

  pub Adds-refl : (job_id : String) (q : DownloadQueue) → IsValid h q → Adds job_id q q
  Adds-refl job_id q v = record { valid = v; same_slots = refl; others = λ i ne. refl }

  retry-Adds :
      (sys : System) (now : ℕ) (job_id message : String)
      → IsValid h sys.queue
      → Adds job_id sys.queue (retry_job h resolve sys now job_id message).queue
  unfolding retry_job
  retry-Adds sys now job_id message v = elim (Result-cases (start_retry sys.jobs now job_id)) [
    | inr (x, e) ↦ rw (e, retry_job) (Adds-refl job_id sys.queue v)
    | inl ((jobs, job), e) ↦
        elim (Result-cases (enqueue h sys.queue now job_id priority_download)) [
          | inl ((q', p), f) ↦
              rw (e, retry_job)
                (rw (f, retry_job) (adds sys.queue now job_id priority_download q' p v f))
          | inr (x, f) ↦
              rw (e, retry_job)
                (rw (f, retry_job)
                  (rw
                    (queue-fail_and_notify (record sys { jobs = jobs }) now job_id
                      (concat "Retry failed: queue full. Original error: " message))
                    (Adds-refl job_id sys.queue v)))
        ]
  ]

  download_error-Adds :
      (sys : System) (now : ℕ) (job_id message : String)
      → IsValid h sys.queue
      → Adds job_id sys.queue (handle_download_error h resolve sys now job_id message).queue
  unfolding handle_download_error
  download_error-Adds sys now job_id message v = elim (Option-cases (get_job sys.jobs job_id)) [
    | inl e ↦ rw (e, handle_download_error) (Adds-refl job_id sys.queue v)
    | inr (job, e) ↦ elim (Bool-cases (can_retry job)) [
      | inl c ↦
          rw (e, handle_download_error)
            (rw (c, handle_download_error) (retry-Adds sys now job_id message v))
      | inr c ↦
          rw (e, handle_download_error)
            (rw (c, handle_download_error)
              (rw
                (queue-fail_and_notify sys now job_id (
                  concat
                    (concat (concat "Max retries (" (decimal job.max_retries))
                      ") exceeded. Last error: ")
                    message))
                (Adds-refl job_id sys.queue v)))
    ]
  ]

  pub outcome-Adds :
      (sys : System) (now : ℕ) (job_id : String) (outcome : Outcome)
      → IsValid h sys.queue
      → Adds job_id sys.queue (handle_outcome h resolve sys now job_id outcome).queue
  unfolding handle_outcome
  outcome-Adds sys now job_id (downloaded path size duration) v =
      rw (queue-finish_success h resolve sys now job_id path size duration)
        (Adds-refl job_id sys.queue v)
  outcome-Adds sys now job_id (download_error message) v =
      download_error-Adds sys now job_id message v
  outcome-Adds sys now job_id (provider_error message) v =
      rw (queue-fail_and_notify sys now job_id message) (Adds-refl job_id sys.queue v)
  outcome-Adds sys now job_id (unexpected_error message) v =
      rw (queue-fail_and_notify sys now job_id (concat "Unexpected error: " message))
        (Adds-refl job_id sys.queue v)

  pub submit-Adds :
      (sys : System) (now : ℕ) (job_id url : String) (params : Dict Value)
      → IsValid h sys.queue
      → Adds job_id sys.queue (submit h resolve sys now job_id url params).0.queue
  unfolding submit
  submit-Adds sys now job_id url params v =
      elim (Result-cases (enqueue h sys.queue now job_id priority_download)) [
        | inl ((q', p), f) ↦ rw (f, submit) (adds sys.queue now job_id priority_download q' p v f)
        | inr (x, f) ↦ rw (f, submit) (Adds-refl job_id sys.queue v)
      ]
