-- ===== src/Download/Hooks.antt =====
-- Server-side request forgery: the urls that the service posts to, whatever is requested of it.
use yt_dlp_api.Prelude.{ℕ, String, ◌≡◌, Option, none, some, [], All, Bool-cases, inl, inr}
use yt_dlp_api.Prelude.Text.{truthy}
use yt_dlp_api.DownloadQueue.Heap.{Heapq}
use yt_dlp_api.Worker.{System, Outcome, poll, begin_job, finish_job}
use yt_dlp_api.Worker.Reach.{cleaned}
use yt_dlp_api.Worker.Notified.{HookHas, Hooked}
use yt_dlp_api.Worker.Hooks.{
  submit-Hooked, download_sync-Hooked, finish_job-Hooked, begin_job-Hooked, poll-Hooked,
  cleaned-Hooked,
}
use yt_dlp_api.Download.{
  DownloadRequest, Context, value_of, params_of, run_download, download_video,
}
use yt_dlp_api.Download.Checked.{
  IfGiven, IsHook, IsChecked, Handles, runs, turns_down, download_video-Handles,
}

module _ (h : Heapq) (resolve : String → String) (x : Context) where
  -- A step of the service: a request, or one of the worker's, in any order.
  pub data ServiceStep (a b : System) : Type 0 where
    requests :
        (request : DownloadRequest) (now later : ℕ) (job_id : String) (outcome : Outcome)
        → b ≡ (download_video h resolve x a request now later job_id outcome).0
        → ServiceStep a b
    polls : b ≡ (poll h resolve a).0 → ServiceStep a b
    begins :
        (now : ℕ) (job_id : String) → b ≡ (begin_job h resolve a now job_id).0 → ServiceStep a b
    finishes :
        (now : ℕ) (job_id : String) (outcome : Outcome)
        → b ≡ finish_job h resolve a now job_id outcome
        → ServiceStep a b
    cleans : (now : ℕ) → b ≡ cleaned a now → ServiceStep a b

  pub data Serves (a : System) : System → Type 0 where
    here : Serves a a
    next : {b c : System} → Serves a b → ServiceStep b c → Serves a c

  IsHook-request :
      (o : Option String) → IfGiven (IsHook x) (truthy o) → HookHas (IsHook x) (some (value_of o))
  IsHook-request none g = tt
  IsHook-request (some t) g = g

  run_download-Hooked :
      (sys : System) (request : DownloadRequest) (now later : ℕ) (job_id : String)
      (outcome : Outcome)
      → IsChecked x request
      → Hooked (IsHook x) sys
      → Hooked (IsHook x) (run_download h resolve x sys request now later job_id outcome).0
  unfolding run_download params_of
  run_download-Hooked sys request now later job_id outcome c v =
      let p = IsHook-request request.webhook_url c.webhook in
      elim (Bool-cases request.async_mode) [
        | inl e ↦
            rw (e, run_download)
              (submit-Hooked (IsHook x) h resolve sys now job_id request.url (params_of request) p
                v)
        | inr e ↦
            rw (e, run_download)
              (download_sync-Hooked (IsHook x) h resolve sys now later job_id request.url
                (params_of request) outcome p v)
      ]

  download_video-Hooked :
      (sys : System) (request : DownloadRequest) (now later : ℕ) (job_id : String)
      (outcome : Outcome)
      → Handles x h resolve sys request now later job_id outcome
      → Hooked (IsHook x) sys
      → Hooked (IsHook x) (download_video h resolve x sys request now later job_id outcome).0
  download_video-Hooked sys request now later job_id outcome (runs c e) v =
      rw e (run_download-Hooked sys request now later job_id outcome c v)
  download_video-Hooked sys request now later job_id outcome (turns_down f n t e) v = rw e v

  step-Hooked : (a b : System) → ServiceStep a b → Hooked (IsHook x) a → Hooked (IsHook x) b
  step-Hooked a b (requests request now later job_id outcome e) v = rw e (
      download_video-Hooked a request now later job_id outcome
        (download_video-Handles x h resolve a request now later job_id outcome) v)
  step-Hooked a b (polls e) v = rw e (poll-Hooked (IsHook x) h resolve a v)
  step-Hooked a b (begins now job_id e) v =
      rw e (begin_job-Hooked (IsHook x) h resolve a now job_id v)
  step-Hooked a b (finishes now job_id outcome e) v =
      rw e (finish_job-Hooked (IsHook x) h resolve a now job_id outcome v)
  step-Hooked a b (cleans now e) v = rw e (cleaned-Hooked (IsHook x) a now v)

  Serves-Hooked : {a b : System} → Serves a b → Hooked (IsHook x) a → Hooked (IsHook x) b
  Serves-Hooked here v = v
  Serves-Hooked (next r s) v = step-Hooked _ _ s (Serves-Hooked r v)

  -- From a system without jobs and notifications on, after any requests and steps of the worker in
  -- any order, every url that a notification goes to is a valid webhook url: webhooks are enabled,
  -- and it is a url of http or https whose host is one of the allowed hosts.
  pub notified_hooks-AreAllowed :
      (a b : System)
      → a.jobs.jobs ≡ []
      → a.notifications ≡ []
      → Serves a b
      → All (λ n. IsHook x n.webhook_url) b.notifications
  notified_hooks-AreAllowed a b no_jobs none_sent r =
      (Serves-Hooked r (record { jobs = rw no_jobs tt; sent = rw none_sent tt })).sent
