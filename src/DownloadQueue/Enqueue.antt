-- ===== src/DownloadQueue/Enqueue.antt =====
-- `enqueue` of app/services/download_queue.py, on every branch.
use yt_dlp_api.Prelude.{
  ℕ, suc, ◌+◌, ◌≤◌, String, ◌≡◌, refl, ap, true, false, inl, inr, none, some, List, [], ◌∷◌, arith,
  eq_iff, count, length, Bool-cases, Option-cases,
}
use yt_dlp_api.Prelude.Result.{ok, err}
use yt_dlp_api.DownloadQueue.Job.{QueuedJob, has_id}
use yt_dlp_api.DownloadQueue.Heap.{Heapq, SameEntries}
use yt_dlp_api.DownloadQueue.{
  DownloadQueue, queue_full, update_positions, update_metrics, is_full, get_queue_position, enqueue,
  pushed, get_queue_size,
}
use yt_dlp_api.DownloadQueue.Invariant.{IsValid, position_of_queued, entered-IsValid}

module _ (h : Heapq) where
  -- How `enqueue` may end.
  pub data Enqueues (q : DownloadQueue) (now : ℕ) (job_id : String) (priority : ℕ) : Type 0 where
    refuses :
        is_full q ≡ true
        → enqueue h q now job_id priority ≡ err queue_full
        → Enqueues q now job_id priority
    repeats :
        (p : ℕ)
        → is_full q ≡ false
        → get_queue_position q job_id ≡ some p
        → enqueue h q now job_id priority ≡ ok (q, p)
        → Enqueues q now job_id priority
    enters :
        (q' : DownloadQueue) (p : ℕ)
        → is_full q ≡ false
        → get_queue_position q job_id ≡ none
        → enqueue h q now job_id priority ≡ ok (q', p)
        → IsValid h q'
        → get_queue_position q' job_id ≡ some p
        → 1 ≤ p
        → p ≤ get_queue_size q + 1
        → SameEntries q'.queue
            (record { priority = priority; enqueue_time = now; job_id = job_id } ∷ q.queue)
        → get_queue_size q' ≡ get_queue_size q + 1
        → q'.gauges
          ≡ record { queue_size = get_queue_size q + 1; active_downloads = length q.active_jobs }
        → q'.active_jobs ≡ q.active_jobs
        → q'.semaphore ≡ q.semaphore
        → (q'.max_concurrent ≡ q.max_concurrent) × (q'.max_queue_size ≡ q.max_queue_size)
        → Enqueues q now job_id priority

  count_all : (xs : List QueuedJob) → count (λ _. true) xs ≡ length xs
  count_all [] = refl
  count_all (x ∷ xs) = ap suc (count_all xs)

  pub length_same : (xs ys : List QueuedJob) → SameEntries xs ys → length xs ≡ length ys
  length_same xs ys s = omega (arith, s (λ _. true), count_all xs, count_all ys)

  entry_counted : (xs : List QueuedJob) (x : QueuedJob) → 1 ≤ count (has_id x.job_id) (x ∷ xs)
  entry_counted xs x = ground (arith, eq_iff x.job_id x.job_id)

  enqueue_full :
      (q : DownloadQueue) (now : ℕ) (job_id : String) (priority : ℕ)
      → is_full q ≡ true
      → enqueue h q now job_id priority ≡ err queue_full
  unfolding enqueue
  enqueue_full q now job_id priority f = rw f

  enqueue_known :
      (q : DownloadQueue) (now : ℕ) (job_id : String) (priority p : ℕ)
      → is_full q ≡ false
      → get_queue_position q job_id ≡ some p
      → enqueue h q now job_id priority ≡ ok (q, p)
  unfolding enqueue get_queue_position
  enqueue_known q now job_id priority p f e = rw f (rw e)

  enqueue_new :
      (q : DownloadQueue) (now : ℕ) (job_id : String) (priority p : ℕ)
      → is_full q ≡ false
      → get_queue_position q job_id ≡ none
      → get_queue_position (update_positions (pushed h q now job_id priority)) job_id ≡ some p
      → enqueue h q now job_id priority
        ≡ ok (update_metrics (update_positions (pushed h q now job_id priority)), p)
  unfolding enqueue get_queue_position
  enqueue_new q now job_id priority p f e g = rw f (rw e (rw g))

  enters_new :
      (q : DownloadQueue) (now : ℕ) (job_id : String) (priority : ℕ)
      → IsValid h q
      → is_full q ≡ false
      → get_queue_position q job_id ≡ none
      → Enqueues q now job_id priority
  unfolding get_queue_size update_metrics update_positions get_queue_position
  enters_new q now job_id priority v f e =
      let x : QueuedJob = record { priority = priority; enqueue_time = now; job_id = job_id } in
      let q' : DownloadQueue = update_metrics (update_positions (pushed h q now job_id priority)) in
      let same = h.heappush-same q.queue x in
      let v' = entered-IsValid h q now job_id priority v e in
      let longer : length q'.queue ≡ length q.queue + 1 =
        omega (arith, length_same q'.queue (x ∷ q.queue) same) in
      let (p, g, a, b) =
        position_of_queued h q' job_id v'
          (omega (arith, same (has_id job_id), entry_counted q.queue x)) in
      enters q' p f e (enqueue_new q now job_id priority p f e g) v' g a (omega arith) same longer
        (ap (λ n. record { queue_size = n; active_downloads = length q.active_jobs }) longer) refl
        refl (refl, refl)

  -- On a valid queue `enqueue` ends in one of three ways. A full queue refuses any job, also one
  -- that is queued, and nothing changes. A job that is queued already keeps its position, and
  -- nothing changes. Any other job is added: the queue keeps_place valid and grows by this entry alone,
  -- the position that is returned is the one told afterwards and lies between 1 and the new size,
  -- the gauges are up to date, and slots, active jobs and limits are as before. No KeyError is raised.
  pub enqueue_total :
      (q : DownloadQueue) (now : ℕ) (job_id : String) (priority : ℕ)
      → IsValid h q
      → Enqueues q now job_id priority
  unfolding get_queue_size
  enqueue_total q now job_id priority v = elim (Bool-cases (is_full q)) [
    | inl f ↦ refuses f (enqueue_full q now job_id priority f)
    | inr f ↦ elim (Option-cases (get_queue_position q job_id)) [
      | inr (p, e) ↦ repeats p f e (enqueue_known q now job_id priority p f e)
      | inl e ↦ enters_new q now job_id priority v f e
    ]
  ]
