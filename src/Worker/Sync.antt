-- ===== src/Worker/Sync.antt =====
-- The synchronous mode of `download_video` (app/api/download.py), which processes its job through
-- `process_single_job` (app/services/download_worker.py).
use yt_dlp_api.Prelude.{
  ℕ, ◌+◌, ◌-◌, ◌<◌, String, ◌≡◌, subst, ap, ◌∙◌, inl, inr, true, false, some, [], ◌∷◌, arith,
  length, discard, discard_absent, eq_refl, ◌==◌,
}
use yt_dlp_api.Prelude.Dict.{Dict}
use yt_dlp_api.Job.{Job, Value, can_retry, processing}
use yt_dlp_api.JobService.{store, get_job, create_job, new_job, updated}
use yt_dlp_api.JobService.Update.{start_processing_found, lookup-store, retried}
use yt_dlp_api.DownloadQueue.Heap.{Heapq}
use yt_dlp_api.DownloadQueue.{
  DownloadQueue, release_slot, acquire_slot_for_sync, is_active, is_full, get_queue_position,
}
use yt_dlp_api.DownloadQueue.Invariant.{IsValid}
use yt_dlp_api.DownloadQueue.Dequeue.{acquire_slot-IsValid}
use yt_dlp_api.Worker.{
  System, Outcome, download_error, unexpected_status, begin_job, finish_job, handle_outcome,
  download_sync, answer_of,
}
use yt_dlp_api.Worker.Slots.{slots, slots-handle_outcome}
use yt_dlp_api.Worker.Finish.{Settles, finish_job-Settles}

-- The queue once the slot is taken.
abbrev taken : DownloadQueue → String → DownloadQueue
taken q job_id = record q { semaphore = q.semaphore - 1; active_jobs = job_id ∷ q.active_jobs }

module _ (h : Heapq) (resolve : String → String) (sys : System) (now later : ℕ)
    (job_id url : String) (params : Dict Value) where
  -- The job, and the system, when the download starts.
  abbrev running : Job
  running = updated now processing [] (new_job job_id url params 3 now)

  abbrev started : System
  started = record sys {
    jobs = store (create_job sys.jobs job_id url params 3 now).0 job_id running;
    queue = taken sys.queue job_id;
  }

  acquire_fresh :
      0 < sys.queue.semaphore
      → is_active sys.queue job_id ≡ false
      → acquire_slot_for_sync sys.queue job_id ≡ (taken sys.queue job_id, true)
  unfolding acquire_slot_for_sync is_active
  acquire_fresh free fresh =
      let some_free : (sys.queue.semaphore == 0) ≡ false = ground arith in rw some_free (rw fresh)

  begin_created :
      begin_job h resolve
        (record sys {
          jobs = (create_job sys.jobs job_id url params 3 now).0;
          queue = taken sys.queue job_id;
        })
        now
        job_id
      ≡ (started, true)
  unfolding begin_job create_job get_job
  begin_created =
      let fresh = new_job job_id url params 3 now in
      rw (lookup-store sys.jobs job_id fresh, begin_job)
        (rw (
          start_processing_found (store sys.jobs job_id fresh) now job_id fresh
              (lookup-store sys.jobs job_id fresh),
          begin_job,
        ))

  sync_runs :
      (outcome : Outcome)
      → 0 < sys.queue.semaphore
      → is_active sys.queue job_id ≡ false
      → let done = finish_job h resolve started later job_id outcome in
        download_sync h resolve sys now later job_id url params outcome ≡ (
          record done { queue = release_slot done.queue job_id },
          answer_of (get_job done.jobs job_id),
        )
  unfolding download_sync
  sync_runs outcome free fresh = rw (acquire_fresh free fresh) (rw begin_created)

  started_found : get_job started.jobs job_id ≡ some running
  unfolding get_job
  started_found = lookup-store (create_job sys.jobs job_id url params 3 now).0 job_id running

  finished_slots :
      (outcome : Outcome)
      → slots (handle_outcome h resolve started later job_id outcome).queue
        ≡ slots (taken sys.queue job_id)
  finished_slots outcome = slots-handle_outcome h resolve started later job_id outcome

  twice_released :
      (q : DownloadQueue)
      → slots q ≡ slots (taken sys.queue job_id)
      → 0 < sys.queue.semaphore
      → is_active sys.queue job_id ≡ false
      → slots (release_slot (release_slot q job_id) job_id)
        ≡ (sys.queue.max_concurrent, sys.queue.semaphore + 1, sys.queue.active_jobs)
  unfolding release_slot is_active
  twice_released q e free fresh =
      let left = sys.queue.active_jobs in
      let once : discard job_id (job_id ∷ left) ≡ left =
        rw (eq_refl job_id) (discard_absent job_id left fresh) in
      let twice : discard job_id (discard job_id q.active_jobs) ≡ left =
        ap (λ t. discard job_id (discard job_id t.2)) e
        ∙ ap (discard job_id) once
        ∙ discard_absent job_id left fresh in
      ground (arith, e, twice)

  -- The slot of a synchronous download is released twice, by `_process_job` and by the handler
  -- itself. Where a slot was free and the id of the new job was not active, a download leaves one
  -- more free slot than there was before it, whatever its outcome, with the same active jobs: free
  -- slots and active jobs, which exceeded `max_concurrent` by `excess` before (0 in a balanced queue),
  -- exceed it by one more.
  pub download_sync_leaks :
      (outcome : Outcome) (excess : ℕ)
      → 0 < sys.queue.semaphore
      → is_active sys.queue job_id ≡ false
      → sys.queue.semaphore + length sys.queue.active_jobs ≡ sys.queue.max_concurrent + excess
      → let after = (download_sync h resolve sys now later job_id url params outcome).0.queue in
        (after.semaphore ≡ sys.queue.semaphore + 1)
        × (after.active_jobs ≡ sys.queue.active_jobs)
        × (after.semaphore + length after.active_jobs ≡ after.max_concurrent + (excess + 1))
  unfolding finish_job
  download_sync_leaks outcome excess free fresh b =
      let q = (handle_outcome h resolve started later job_id outcome).queue in
      let e = twice_released q (finished_slots outcome) free fresh in
      rw (sync_runs outcome free fresh) (ground (arith, e))

  settled_retry :
      (message : String) (after : System)
      → is_full sys.queue ≡ false
      → Settles h resolve started later job_id running started_found (download_error message) after
      → (get_job after.jobs job_id ≡ some (retried running))
        × ((p : ℕ) × (get_queue_position after.queue job_id ≡ some p))
  unfolding can_retry new_job updated
  settled_retry message after room (inl (c, e)) = cc
  settled_retry message after room (inr (inl (c, f, e))) = cc
  settled_retry message after room (inr (inr (c, f, job, (p, e)))) = (job, (p, e))

  -- A download error in the synchronous mode, with room in the queue, does not fail the job: the
  -- handler answers that the status is unexpected, while the job is retrying and waits in the queue.
  pub download_sync_retries :
      (message : String)
      → 0 < sys.queue.semaphore
      → is_active sys.queue job_id ≡ false
      → IsValid h sys.queue
      → is_full sys.queue ≡ false
      → let r = download_sync h resolve sys now later job_id url params (download_error message) in
        (r.1 ≡ unexpected_status)
        × (get_job r.0.jobs job_id ≡ some (retried running))
        × ((p : ℕ) × (get_queue_position r.0.queue job_id ≡ some p))
  unfolding release_slot get_queue_position
  download_sync_retries message free fresh v room =
      let v' : IsValid h started.queue =
        subst (λ r. IsValid h r.0) (acquire_fresh free fresh)
          (acquire_slot-IsValid h sys.queue job_id v) in
      let (job, (p, e)) =
        settled_retry message (finish_job h resolve started later job_id (download_error message))
          room
          (finish_job-Settles h resolve started later job_id running started_found
            (download_error message) v') in
      rw (sync_runs (download_error message) free fresh) (ap answer_of job, job, (p, e))
