-- ===== src/DownloadQueue.antt =====
-- app/services/download_queue.py: the priority queue of waiting jobs and the slots of running
-- ones. No method suspends between taking the lock and leaving it, and no caller waits for a slot
-- (`acquire_slot_for_sync` is called without a timeout), so a method is one step: it takes the
-- queue and returns the new one. `heapq` is the interface of DownloadQueue/Heap.antt.
pub mod Job
pub mod Heap
pub mod Positions
pub mod Invariant
pub mod Enqueue
pub mod Dequeue
pub mod Remove
pub mod Slots
pub mod Sorted
pub mod Abstract
pub mod Places
pub mod Calls
pub mod Refines
mod Tests
use Job.{QueuedJob, at_most, has_id, queued_ids}
use Heap.{Heapq}
use yt_dlp_api.Prelude.{
  ℕ, suc, ◌+◌, ◌-◌, String, Bool, true, false, ◌&&◌, not, Option, none, some, List, [], ◌∷◌, ltb,
  leb, ◌==◌, if◌then◌else◌, is_some, length, filter, member, discard, add_member, str_eq,
}
use yt_dlp_api.Prelude.Dict.{Dict, lookup, insert, erase}
use yt_dlp_api.Prelude.Int.{ℤ, sub_ℕ}
use yt_dlp_api.Prelude.Result.{Result, ok, err}
use yt_dlp_api.Prelude.Sort.{sort}

-- The gauges of `MetricsCollector.update_queue_metrics`, as last set.
pub record Gauges : Type 0 where
  pub queue_size : ℕ
  pub active_downloads : ℕ

pub record DownloadQueue : Type 0 where
  pub max_concurrent : ℕ
  pub max_queue_size : ℕ
  pub queue : List QueuedJob
  pub active_jobs : List String
  pub job_positions : Dict ℕ
  pub semaphore : ℕ
  pub gauges : Gauges

-- `ValueError("Queue is full …")`, and the KeyError of `self._job_positions[job_id]`
pub data QueueError : Type 0 where
  queue_full key_error : QueueError

abbrev pub new_queue : ℕ → ℕ → DownloadQueue
new_queue max_concurrent max_queue_size = record {
  max_concurrent = max_concurrent;
  max_queue_size = max_queue_size;
  queue = [];
  active_jobs = [];
  job_positions = [];
  semaphore = max_concurrent;
  gauges = record { queue_size = 0; active_downloads = 0 };
}

-- `for idx, queued_job in enumerate(sorted_queue): positions[queued_job.job_id] = idx + 1`
unfoldable pub number : ℕ → List QueuedJob → Dict ℕ → Dict ℕ
number idx [] positions = positions
number idx (j ∷ js) positions = number (suc idx) js (insert j.job_id (suc idx) positions)

unfoldable pub update_positions : DownloadQueue → DownloadQueue
unfolding number
update_positions q = record q { job_positions = number 0 (sort at_most q.queue) [] }

unfoldable pub update_metrics : DownloadQueue → DownloadQueue
update_metrics q = record q {
  gauges = record { queue_size = length q.queue; active_downloads = length q.active_jobs };
}

-- `if self.max_queue_size > 0 and len(self._queue) >= self.max_queue_size`
abbrev pub is_full : DownloadQueue → Bool
is_full q = ltb 0 q.max_queue_size && leb q.max_queue_size (length q.queue)

-- `return self._job_positions[job_id]`
abbrev pub with_position : DownloadQueue → Option ℕ → Result QueueError (DownloadQueue × ℕ)
with_position q none = err key_error
with_position q (some position) = ok (q, position)

unfoldable pub get_queue_position : DownloadQueue → String → Option ℕ
get_queue_position q job_id = lookup job_id q.job_positions

unfoldable pub is_active : DownloadQueue → String → Bool
is_active q job_id = member job_id q.active_jobs

unfoldable pub get_queue_size : DownloadQueue → ℕ
get_queue_size q = length q.queue

unfoldable pub get_active_count : DownloadQueue → ℕ
get_active_count q = length q.active_jobs

unfoldable pub get_available_slots : DownloadQueue → ℤ
get_available_slots q = sub_ℕ q.max_concurrent (length q.active_jobs)

pub record QueueStats : Type 0 where
  pub size : ℕ
  pub active_count : ℕ
  pub available_slots : ℤ
  pub slots : ℕ

unfoldable pub get_stats : DownloadQueue → QueueStats
unfolding get_available_slots
get_stats q = record {
  size = length q.queue;
  active_count = length q.active_jobs;
  available_slots = get_available_slots q;
  slots = q.max_concurrent;
}

unfoldable pub release_slot : DownloadQueue → String → DownloadQueue
unfolding update_metrics
release_slot q job_id =
    update_metrics
      (record q { active_jobs = discard job_id q.active_jobs; semaphore = suc q.semaphore })

-- Without a timeout: a slot at once, or none.
unfoldable pub acquire_slot_for_sync : DownloadQueue → String → DownloadQueue × Bool
acquire_slot_for_sync q job_id = if q.semaphore == 0 then (q, false) else (
  record q { semaphore = q.semaphore - 1; active_jobs = add_member job_id q.active_jobs },
  true,
)

module _ (h : Heapq) where
  -- The queue with a new entry.
  abbrev pub pushed : DownloadQueue → ℕ → String → ℕ → DownloadQueue
  pushed q now job_id priority = record q {
    queue =
        h.heappush q.queue (record { priority = priority; enqueue_time = now; job_id = job_id });
  }

  unfoldable pub enqueue : DownloadQueue → ℕ → String → ℕ → Result QueueError (DownloadQueue × ℕ)
  unfolding update_positions update_metrics
  enqueue q now job_id priority =
      if is_full q then err queue_full else elim (lookup job_id q.job_positions) [
        | some position ↦ ok (q, position)
        | none ↦
            let q' = update_positions (pushed q now job_id priority) in
            with_position (update_metrics q') (lookup job_id q'.job_positions)
      ]

  -- The rest of `dequeue` once the heap has given its entry.
  abbrev pub popped : DownloadQueue → QueuedJob → List QueuedJob → DownloadQueue
  popped q job rest = record q {
    semaphore = q.semaphore - 1;
    queue = rest;
    active_jobs = add_member job.job_id q.active_jobs;
    job_positions = erase job.job_id q.job_positions;
  }

  -- A slot is taken first; it is given back where no job waits.
  unfoldable pub dequeue : DownloadQueue → DownloadQueue × Option String
  unfolding update_positions update_metrics
  dequeue q = if q.semaphore == 0 then (q, none) else elim (h.heappop q.queue) [
    | none ↦ (record q { semaphore = suc (q.semaphore - 1) }, none)
    | some (job, rest) ↦ (update_metrics (update_positions (popped q job rest)), some job.job_id)
  ]

  unfoldable pub remove_job : DownloadQueue → String → DownloadQueue × Bool
  unfolding update_positions
  remove_job q job_id =
      let rest = filter (λ j. not (has_id job_id j)) q.queue in
      if member job_id q.active_jobs
      then (q, false)
      else if ltb (length rest) (length q.queue)
      then (
        update_positions
            (record q { queue = h.heapify rest; job_positions = erase job_id q.job_positions }),
        true,
      )
      else (record q { queue = rest }, false)
