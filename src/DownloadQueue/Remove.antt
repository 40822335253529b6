-- ===== src/DownloadQueue/Remove.antt =====
-- `remove_job` of app/services/download_queue.py.
use native.Mathlib.Decide.{dec_lt}
use yt_dlp_api.Prelude.{
  ◌+◌, ◌≤◌, ◌<◌, String, ◌≡◌, refl, ◌∙◌, Bool, true, false, not, inl, inr, none, List, [], ◌∷◌,
  arith, ltb, count, length, filter, member, Bool-cases,
}
use yt_dlp_api.Prelude.Sort.{sort, count-sort}
use yt_dlp_api.DownloadQueue.Job.{QueuedJob, at_most, has_id}
use yt_dlp_api.DownloadQueue.Heap.{Heapq, SameEntries}
use yt_dlp_api.DownloadQueue.{
  DownloadQueue, update_positions, get_queue_position, remove_job, is_active,
}
use yt_dlp_api.DownloadQueue.Positions.{rank_absent}
use yt_dlp_api.DownloadQueue.Invariant.{IsValid, get_queue_position-rank}

-- The entries that `remove_job` keeps: `[qj for qj in self._queue if qj.job_id != job_id]`.
length_without :
    (i : String) (js : List QueuedJob)
    → length (filter (λ j. not (has_id i j)) js) + count (has_id i) js ≡ length js
length_without i [] = omega arith
length_without i (j ∷ js) = ground (arith, length_without i js)

filter_absent :
    (i : String) (js : List QueuedJob)
    → count (has_id i) js ≡ 0
    → filter (λ j. not (has_id i j)) js ≡ js
filter_absent i [] h = refl
filter_absent i (j ∷ js) h = ground (arith, filter_absent i js)

count_without :
    (i : String) (js : List QueuedJob) → count (has_id i) (filter (λ j. not (has_id i j)) js) ≡ 0
count_without i [] = refl
count_without i (j ∷ js) = ground (arith, count_without i js)

count_without_le :
    (p : QueuedJob → Bool) (i : String) (js : List QueuedJob)
    → count p (filter (λ j. not (has_id i j)) js) ≤ count p js
count_without_le p i [] = omega arith
count_without_le p i (j ∷ js) = ground (arith, count_without_le p i js)

module _ (h : Heapq) where
  removed : DownloadQueue → String → DownloadQueue
  removed q job_id =
      update_positions
        (record q { queue = h.heapify (filter (λ j. not (has_id job_id j)) q.queue) })

  remove_active :
      (q : DownloadQueue) (job_id : String)
      → member job_id q.active_jobs ≡ true
      → remove_job h q job_id ≡ (q, false)
  unfolding remove_job
  remove_active q job_id e = rw e

  remove_absent :
      (q : DownloadQueue) (job_id : String)
      → member job_id q.active_jobs ≡ false
      → count (has_id job_id) q.queue ≡ 0
      → remove_job h q job_id ≡ (q, false)
  unfolding remove_job
  remove_absent q job_id e c = rw e (
      rw (filter_absent job_id q.queue c)
        (let same : ltb (length q.queue) (length q.queue) ≡ false = ground arith in rw same))

  remove_waiting :
      (q : DownloadQueue) (job_id : String)
      → member job_id q.active_jobs ≡ false
      → 0 < count (has_id job_id) q.queue
      → remove_job h q job_id ≡ (removed q job_id, true)
  unfolding remove_job removed update_positions
  remove_waiting q job_id e c =
      let fewer : ltb (length (filter (λ j. not (has_id job_id j)) q.queue)) (length q.queue)
          ≡ true =
        ground (arith, length_without job_id q.queue) in
      rw e (rw fewer)

  removed-IsValid :
      (q : DownloadQueue) (job_id : String) → IsValid h q → IsValid h (removed q job_id)
  unfolding removed update_positions
  removed-IsValid q job_id v =
      let rest = filter (λ j. not (has_id job_id j)) q.queue in
      record {
        heap = h.heapify-IsHeap rest;
        single = λ i. omega (
          arith,
          h.heapify-same rest (has_id i),
          count_without_le (has_id i) job_id q.queue,
          v.single i,
        );
        numbered = refl;
        apart = v.apart;
      }

  -- How `remove_job` may end.
  pub data Removes (q : DownloadQueue) (job_id : String) : Type 0 where
    keeps_active : is_active q job_id ≡ true → remove_job h q job_id ≡ (q, false) → Removes q job_id
    keeps_absent :
        is_active q job_id ≡ false
        → count (has_id job_id) q.queue ≡ 0
        → remove_job h q job_id ≡ (q, false)
        → Removes q job_id
    removes :
        (q' : DownloadQueue)
        → is_active q job_id ≡ false
        → 0 < count (has_id job_id) q.queue
        → remove_job h q job_id ≡ (q', true)
        → IsValid h q'
        → get_queue_position q' job_id ≡ none
        → SameEntries q'.queue (filter (λ j. not (has_id job_id j)) q.queue)
        → q'.active_jobs ≡ q.active_jobs
        → q'.semaphore ≡ q.semaphore
        → q'.gauges ≡ q.gauges
        → (q'.max_concurrent ≡ q.max_concurrent) × (q'.max_queue_size ≡ q.max_queue_size)
        → Removes q job_id

  count-removed :
      (q : DownloadQueue) (job_id : String) → count (has_id job_id) (removed q job_id).queue ≡ 0
  unfolding removed update_positions
  count-removed q job_id =
      h.heapify-same (filter (λ j. not (has_id job_id j)) q.queue) (has_id job_id)
      ∙ count_without job_id q.queue

  removed_position :
      (q : DownloadQueue) (job_id : String)
      → IsValid h q
      → get_queue_position (removed q job_id) job_id ≡ none
  removed_position q job_id v =
      get_queue_position-rank h (removed q job_id) job_id (removed-IsValid q job_id v)
      ∙ rank_absent job_id 0 (sort at_most (removed q job_id).queue)
          (count-sort at_most (has_id job_id) (removed q job_id).queue ∙ count-removed q job_id)

  -- On a valid queue `remove_job` returns True exactly for a job that waits and is not active. Then
  -- the entries of this job alone leave the queue, it has no position any more, and the queue keeps_place
  -- valid; slots, active jobs, limits and the gauges stay as they were. Otherwise nothing changes.
  pub remove_job_total : (q : DownloadQueue) (job_id : String) → IsValid h q → Removes q job_id
  unfolding is_active removed update_positions
  remove_job_total q job_id v = elim (Bool-cases (member job_id q.active_jobs)) [
    | inl e ↦ keeps_active e (remove_active q job_id e)
    | inr e ↦ elim (dec_lt 0 (count (has_id job_id) q.queue)) [
      | yes c ↦
          removes (removed q job_id) e c (remove_waiting q job_id e c) (removed-IsValid q job_id v)
            (removed_position q job_id v)
            (h.heapify-same (filter (λ j. not (has_id job_id j)) q.queue)) refl refl refl
            (refl, refl)
      | no c ↦ keeps_absent e (omega arith) (remove_absent q job_id e (omega arith))
    ]
  ]
