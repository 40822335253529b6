-- ===== src/Worker/Tests.antt =====
-- Runs of app/services/download_worker.py on a small system, and the theorems at such inputs.
use yt_dlp_api.Prelude.{◌+◌, ◌≤◌, String, ◌≡◌, refl, true, false, some, [], ◌∷◌, arith, length}
use yt_dlp_api.Prelude.Sort.{sort}
use yt_dlp_api.Job.{Job, text}
use yt_dlp_api.JobService.{
  new_job, create_job, get_job, get_job_or_raise, updated, start_processing, complete_job,
  set_queue_position,
}
use yt_dlp_api.DownloadQueue.Sorted.{sorted_heapq}
use yt_dlp_api.DownloadQueue.{
  new_queue, enqueue, dequeue, release_slot, acquire_slot_for_sync, is_active, get_active_count,
}
use yt_dlp_api.DownloadQueue.Invariant.{IsValid, new_queue-IsValid}
use yt_dlp_api.Worker.{
  System, downloaded, download_error, unexpected_status, submit, poll, finish_job, process_job,
  download_sync,
}
use yt_dlp_api.Worker.Finish.{Settles, finish_job-Settles}
use yt_dlp_api.Worker.Sync.{download_sync_leaks, download_sync_retries}
use yt_dlp_api.Worker.Reach.{submits, spawns, Reach, here, next}
use yt_dlp_api.Worker.Sound.{concurrency_limit}

abbrev same_path : String → String
same_path p = p

-- A service with two slots and room for three waiting jobs.
abbrev idle_system : System
idle_system = record {
  jobs = record { job_ttl_hours = 24; jobs = [] };
  queue = new_queue 2 3;
  storage = record {
    cleanup_age_hours = 24;
    cleanup_threshold = 80;
    max_file_size = 1000;
    active_jobs = [];
  };
  webhooks_enabled = true;
  notifications = [];
  recorded = [];
}

-- Job "a", submitted with a webhook.
abbrev submitted : System
submitted = (submit sorted_heapq same_path idle_system 1 "a" "u" (("webhook_url", text "w") ∷ [])).0

submitted_job :
    (job : Job) × (get_job submitted.jobs "a" ≡ some job) × (job.queue_position ≡ some 1)
unfolding submit get_job enqueue create_job set_queue_position get_job_or_raise sort
submitted_job = (_, refl, refl)

abbrev polled : System
polled = (poll sorted_heapq same_path submitted).0

polled_a : (poll sorted_heapq same_path submitted).1 ≡ some "a"
unfolding poll submit enqueue dequeue sort
polled_a = refl

notified :
    length (process_job sorted_heapq same_path polled 2 3 "a" (downloaded "/d/a" 7 1)).notifications
    ≡ 1
unfolding process_job poll submit enqueue dequeue create_job set_queue_position get_job
    get_job_or_raise sort start_processing complete_job updated
notified = refl

-- One slot more than the limit of two is free after a synchronous download.
leaked :
    (download_sync sorted_heapq same_path idle_system 1 2 "a" "u" []
      (downloaded "/d/a" 7 1)).0.queue.semaphore
    ≡ 3
unfolding download_sync create_job acquire_slot_for_sync get_job get_job_or_raise start_processing
    complete_job updated release_slot
leaked = refl

idle-IsValid : IsValid sorted_heapq idle_system.queue
idle-IsValid = new_queue-IsValid sorted_heapq 2 3

a_inactive : is_active idle_system.queue "a" ≡ false
unfolding is_active
a_inactive = refl

download_sync_leaks_example :
    (download_sync sorted_heapq same_path idle_system 1 2 "a" "u" []
      (downloaded "/d/a" 7 1)).0.queue.semaphore
    ≡ 2 + 1
download_sync_leaks_example =
    (download_sync_leaks sorted_heapq same_path idle_system 1 2 "a" "u" [] (downloaded "/d/a" 7 1) 0
      (omega arith) a_inactive refl).0

download_sync_retries_example :
    (download_sync sorted_heapq same_path idle_system 1 2 "a" "u" [] (download_error "e")).1
    ≡ unexpected_status
download_sync_retries_example =
    (download_sync_retries sorted_heapq same_path idle_system 1 2 "a" "u" [] "e" (omega arith)
      a_inactive idle-IsValid refl).0

-- The job that the table holds after a creation.
abbrev created : System
created = record idle_system { jobs = (create_job idle_system.jobs "a" "u" [] 3 1).0 }

created_a : get_job created.jobs "a" ≡ some (new_job "a" "u" [] 3 1)
unfolding get_job create_job
created_a = refl

finish_job-Settles_example :
    Settles sorted_heapq same_path created 5 "a"
      (new_job "a" "u" [] 3 1)
      created_a
      (download_error "e")
      (finish_job sorted_heapq same_path created 5 "a" (download_error "e"))
finish_job-Settles_example =
    finish_job-Settles sorted_heapq same_path created 5 "a" (new_job "a" "u" [] 3 1) created_a
      (download_error "e") idle-IsValid

-- A run: "a" is submitted and its task spawned.
one_task :
    Reach sorted_heapq same_path
      (record { sys = idle_system; tasks = [] })
      (record { sys = polled; tasks = "a" ∷ [] })
one_task =
    next (next here (submits 1 "a" "u" (("webhook_url", text "w") ∷ []) (refl, refl) refl))
      (spawns "a" polled_a refl)

concurrency_limit_example :
    (polled.queue.active_jobs ≡ "a" ∷ [])
    × (polled.queue.semaphore + length {A = String} ("a" ∷ []) ≡ 2)
    × (get_active_count polled.queue ≤ 2)
concurrency_limit_example =
    concurrency_limit sorted_heapq same_path 2 idle_system 3
      (record { sys = polled; tasks = "a" ∷ [] }) refl one_task
