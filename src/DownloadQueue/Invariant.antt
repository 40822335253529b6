-- ===== src/DownloadQueue/Invariant.antt =====
-- What holds of the download queue at all times, and what each method of
-- app/services/download_queue.py does to it.
use native.Mathlib.Decide.{dec_lt}
use yt_dlp_api.Prelude.{
  subst, ℕ, suc, ◌≤◌, String, ◌≡◌, refl, ap, sym, ◌∙◌, none, some, List, [], ◌∷◌, ◌++◌, arith,
  eq_iff, count, length, Distinct,
}
use yt_dlp_api.Prelude.Dict.{lookup}
use yt_dlp_api.Prelude.Sort.{sort, count-sort, length-sort}
use yt_dlp_api.DownloadQueue.Job.{QueuedJob, at_most, has_id}
use yt_dlp_api.DownloadQueue.Heap.{Heapq}
use yt_dlp_api.DownloadQueue.Positions.{
  rank, rank_bounds, rank_after, rank_injective, lookup-number-rank,
}
use yt_dlp_api.DownloadQueue.{
  DownloadQueue, number, update_positions, update_metrics, get_queue_position, pushed, new_queue,
}

module _ (h : Heapq) where
  pub record IsValid (q : DownloadQueue) : Type 0 where
    pub heap : h.IsHeap q.queue
    pub single : (i : String) → count (has_id i) q.queue ≤ 1
    pub numbered : q.job_positions ≡ number 0 (sort at_most q.queue) []
    pub apart : Distinct q.active_jobs

  -- In a valid queue the position that is told of a job is its place in the sorted queue.
  pub get_queue_position-rank :
      (q : DownloadQueue) (i : String)
      → IsValid q
      → get_queue_position q i ≡ rank i 0 (sort at_most q.queue)
  unfolding get_queue_position
  get_queue_position-rank q i v =
      ap (lookup i) v.numbered
      ∙ lookup-number-rank i (sort at_most q.queue)
          (omega (arith, count-sort at_most (has_id i) q.queue, v.single i))

  pub single_sorted :
      (q : DownloadQueue) (i : String) → IsValid q → count (has_id i) (sort at_most q.queue) ≤ 1
  single_sorted q i v = omega (arith, count-sort at_most (has_id i) q.queue, v.single i)

  -- In a valid queue the position that is told of a job is one more than the number of jobs that
  -- stand before it in the sorted queue.
  position_in_order :
      (q : DownloadQueue) (xs ys : List QueuedJob) (j : QueuedJob)
      → IsValid q
      → sort at_most q.queue ≡ xs ++ j ∷ ys
      → get_queue_position q j.job_id ≡ some (suc (length xs))
  position_in_order q xs ys j v e =
      get_queue_position-rank q j.job_id v
      ∙ ap (rank j.job_id 0) e
      ∙ rank_after j.job_id 0 xs j ys refl
          (subst (λ js. count (has_id j.job_id) js ≤ 1) e (single_sorted q j.job_id v))
      ∙ ap some (omega arith)

  -- A job that is queued has a position, between 1 and the size of the queue.
  pub position_of_queued :
      (q : DownloadQueue) (i : String)
      → IsValid q
      → 1 ≤ count (has_id i) q.queue
      → (p : ℕ) × (get_queue_position q i ≡ some p) × (1 ≤ p) × (p ≤ length q.queue)
  position_of_queued q i v c =
      let (p, r, a, b) =
        rank_bounds i 0 (sort at_most q.queue)
          (omega (arith, count-sort at_most (has_id i) q.queue)) in
      (
        p,
        get_queue_position-rank q i v ∙ r,
        omega arith,
        omega (arith, length-sort at_most q.queue),
      )

  pub position_none :
      (q : DownloadQueue) (i : String)
      → IsValid q
      → get_queue_position q i ≡ none
      → count (has_id i) q.queue ≡ 0
  position_none q i v e = elim (dec_lt 0 (count (has_id i) q.queue)) [
    | yes c ↦ let (p, r, a, b) = position_of_queued q i v c in cc
    | no c ↦ omega arith
  ]

  -- No two jobs are told the same position.
  position_injective :
      (q : DownloadQueue) (i k : String) (p : ℕ)
      → IsValid q
      → get_queue_position q i ≡ some p
      → get_queue_position q k ≡ some p
      → i ≡ k
  position_injective q i k p v e f =
      rank_injective i k 0 (sort at_most q.queue) p (sym (get_queue_position-rank q i v) ∙ e)
        (sym (get_queue_position-rank q k v) ∙ f)

  pub new_queue-IsValid : (n m : ℕ) → IsValid (new_queue n m)
  unfolding number sort
  new_queue-IsValid n m = record {
    heap = h.empty-IsHeap;
    single = λ i. omega arith;
    numbered = refl;
    apart = tt;
  }

  -- The queue of a new entry, before the gauges are set.
  pub entered-IsValid :
      (q : DownloadQueue) (now : ℕ) (job_id : String) (priority : ℕ)
      → IsValid q
      → get_queue_position q job_id ≡ none
      → IsValid (update_metrics (update_positions (pushed h q now job_id priority)))
  unfolding update_positions update_metrics
  entered-IsValid q now job_id priority v e =
      let x : QueuedJob = record { priority = priority; enqueue_time = now; job_id = job_id } in
      record {
        heap = h.heappush-IsHeap q.queue x v.heap;
        single = λ i. ground (
          arith,
          h.heappush-same q.queue x (has_id i),
          v.single i,
          eq_iff job_id i,
          position_none q job_id v e,
        );
        numbered = refl;
        apart = v.apart;
      }
