-- ===== src/DownloadQueue/Tests.antt =====
-- Runs of app/services/download_queue.py over the sorted heap, and the theorems at such inputs.
use yt_dlp_api.Prelude.{
  ◌≤◌, String, ◌≡◌, refl, true, false, some, List, [], ◌∷◌, ◌++◌, arith, count, eq_iff,
}
use yt_dlp_api.Prelude.Int.{pos}
use yt_dlp_api.Prelude.Result.{ok}
use yt_dlp_api.Prelude.Sort.{sort}
use yt_dlp_api.DownloadQueue.Job.{QueuedJob, at_most, has_id, priority_download}
use yt_dlp_api.DownloadQueue.Sorted.{sorted_heapq}
use yt_dlp_api.DownloadQueue.{
  new_queue, DownloadQueue, enqueue, dequeue, remove_job, get_queue_position, number, is_active,
  get_available_slots, get_active_count, get_stats,
}
use yt_dlp_api.DownloadQueue.Invariant.{IsValid}
use yt_dlp_api.DownloadQueue.Enqueue.{Enqueues, enqueue_total}
use yt_dlp_api.DownloadQueue.Dequeue.{Dequeues, dequeue_total}
use yt_dlp_api.DownloadQueue.Remove.{Removes, remove_job_total}
use yt_dlp_api.DownloadQueue.Slots.{balanced_slots}
use yt_dlp_api.DownloadQueue.Abstract.{
  Line, Call, Runs, enter, take_next, withdraw, ask, ask_stats, counted, at_place, given, success,
}
use yt_dlp_api.DownloadQueue.Calls.{new_line, run, Shows}
use yt_dlp_api.DownloadQueue.Refines.{run_refines}

abbrev early : QueuedJob
early = record { priority = 1; enqueue_time = 9; job_id = "m" }

abbrev late : QueuedJob
late = record { priority = 10; enqueue_time = 3; job_id = "d" }

-- A metadata job before a download that came first; "x" is running, one of two slots is free.
abbrev busy : DownloadQueue
busy = record {
  max_concurrent = 2;
  max_queue_size = 3;
  queue = early ∷ late ∷ [];
  active_jobs = "x" ∷ [];
  job_positions = ("m", 1) ∷ ("d", 2) ∷ [];
  semaphore = 1;
  gauges = record { queue_size = 2; active_downloads = 1 };
}

busy_single : (i : String) → count (has_id i) busy.queue ≤ 1
busy_single i = ground (arith, eq_iff "m" i, eq_iff "d" i, eq_iff "m" "d")

busy-IsValid : IsValid sorted_heapq busy
unfolding number sort
busy-IsValid = record {
  heap = ((refl, tt), (tt, tt));
  single = busy_single;
  numbered = refl;
  apart = (refl, tt);
}

metadata_first : (dequeue sorted_heapq busy).1 ≡ some "m"
unfolding dequeue
metadata_first = refl

third : (q : DownloadQueue) × (enqueue sorted_heapq busy 12 "e" priority_download ≡ ok (q, 3))
unfolding enqueue sort
third = (_, refl)

removed_waiting : (remove_job sorted_heapq busy "m").1 ≡ true
unfolding remove_job
removed_waiting = refl

-- The gauge still tells two waiting jobs.
stale_gauge : (remove_job sorted_heapq busy "m").0.gauges.queue_size ≡ 2
unfolding remove_job
stale_gauge = refl

enqueue_total_example : Enqueues sorted_heapq busy 12 "e" priority_download
enqueue_total_example = enqueue_total sorted_heapq busy 12 "e" priority_download busy-IsValid

dequeue_total_example : Dequeues sorted_heapq busy
dequeue_total_example = dequeue_total sorted_heapq busy busy-IsValid

remove_job_total_example : Removes sorted_heapq busy "m"
remove_job_total_example = remove_job_total sorted_heapq busy "m" busy-IsValid

busy_sorted : sort at_most busy.queue ≡ (early ∷ []) ++ late ∷ []
unfolding sort
busy_sorted = refl

position_m : get_queue_position busy "m" ≡ some 1
unfolding get_queue_position
position_m = refl

balanced_slots_example : (get_available_slots busy ≡ pos 1) × (get_active_count busy ≤ 2)
balanced_slots_example = balanced_slots busy refl

x_active : is_active busy "x" ≡ true
unfolding is_active
x_active = refl

y_idle : is_active busy "y" ≡ false
unfolding is_active
y_idle = refl

-- A download, a metadata job, a question, the next job, a withdrawal, the statistics.
abbrev some_calls : List Call
some_calls = enter 3 "d" 10 ∷ enter 9 "m" 1 ∷ ask "d" ∷ take_next ∷ withdraw "d" ∷ ask_stats ∷ []

answers :
    (run sorted_heapq (new_queue 2 3) some_calls).1
    ≡ at_place 1
      ∷ at_place 1
      ∷ at_place 2
      ∷ given "m"
      ∷ success true
      ∷ counted (record { size = 0; active_count = 1; available_slots = pos 1; slots = 2 })
      ∷ []
unfolding enqueue dequeue remove_job sort get_queue_position get_stats
answers = refl

run_refines_example :
    (t : Line) × Runs (new_line 2 3) some_calls (run sorted_heapq (new_queue 2 3) some_calls).1 t
    × Shows sorted_heapq (run sorted_heapq (new_queue 2 3) some_calls).0 t
run_refines_example = run_refines sorted_heapq 2 3 some_calls
