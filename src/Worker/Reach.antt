-- ===== src/Worker/Reach.antt =====
-- The asynchronous service as a state machine: requests that submit jobs, the worker loop that
-- takes them, tasks that start and end in any order, and cleanups, each a step of the event loop
-- (app/services/download_worker.py, app/api/download.py).
use yt_dlp_api.Prelude.{
  ℕ, String, ◌≡◌, true, false, Option, none, some, List, ◌∷◌, if◌then◌else◌, member, discard, count,
}
use yt_dlp_api.Prelude.Dict.{Dict}
use yt_dlp_api.Job.{Value}
use yt_dlp_api.JobService.{cleanup_expired_jobs}
use yt_dlp_api.DownloadQueue.Heap.{Heapq}
use yt_dlp_api.DownloadQueue.Job.{has_id}
use yt_dlp_api.Storage.{StorageManager, unregister_active_job}
use yt_dlp_api.Worker.{System, Outcome, submit, poll, begin_job, finish_job}

-- The system and the jobs of the tasks that hold a slot.
pub record Running : Type 0 where
  pub sys : System
  pub tasks : List String

-- `on_job_expired` of app/main.py: the files of the job are no longer protected.
abbrev pub on_job_expired : Option (String → StorageManager → StorageManager)
on_job_expired = some (λ job_id storage. unregister_active_job storage job_id)

abbrev pub cleaned : System → ℕ → System
cleaned sys now =
    let r = cleanup_expired_jobs sys.jobs on_job_expired now sys.storage in
    record sys { jobs = r.0; storage = r.1 }

-- What a new UUID is: the id of no task and of no waiting job.
abbrev pub IsFresh : Running → String → Type 0
IsFresh a job_id = (member job_id a.tasks ≡ false) × (count (has_id job_id) a.sys.queue.queue ≡ 0)

module _ (h : Heapq) (resolve : String → String) where
  pub data Step (a b : Running) : Type 0 where
    submits :
        (now : ℕ) (job_id url : String) (params : Dict Value)
        → IsFresh a job_id
        → b ≡ record a { sys = (submit h resolve a.sys now job_id url params).0 }
        → Step a b
    idles :
        (poll h resolve a.sys).1 ≡ none → b ≡ record a { sys = (poll h resolve a.sys).0 } → Step a b
    spawns :
        (job_id : String)
        → (poll h resolve a.sys).1 ≡ some job_id
        → b ≡ record { sys = (poll h resolve a.sys).0; tasks = job_id ∷ a.tasks }
        → Step a b
    begins :
        (now : ℕ) (job_id : String)
        → member job_id a.tasks ≡ true
        → b ≡ record {
          sys = (begin_job h resolve a.sys now job_id).0;
          tasks =
              if (begin_job h resolve a.sys now job_id).1 then a.tasks else discard job_id a.tasks;
        }
        → Step a b
    finishes :
        (now : ℕ) (job_id : String) (outcome : Outcome)
        → member job_id a.tasks ≡ true
        → b ≡ record {
          sys = finish_job h resolve a.sys now job_id outcome;
          tasks = discard job_id a.tasks;
        }
        → Step a b
    cleans : (now : ℕ) → b ≡ record a { sys = cleaned a.sys now } → Step a b

  pub data Reach (a : Running) : Running → Type 0 where
    here : Reach a a
    next : {b c : Running} → Reach a b → Step b c → Reach a c
