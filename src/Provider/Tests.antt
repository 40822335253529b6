-- ===== src/Provider/Tests.antt =====
-- Runs of app/providers/manager.py on small inputs, and the theorems at such inputs.
use yt_dlp_api.Prelude.{String, true, false, some, [], ◌∷◌, ◌≡◌, refl, str_eq}
use yt_dlp_api.Prelude.Result.{ok, err}
use yt_dlp_api.JobService.{new_job, create_job, get_job}
use yt_dlp_api.JobService.Update.{failed_job}
use yt_dlp_api.DownloadQueue.{new_queue}
use yt_dlp_api.DownloadQueue.Sorted.{sorted_heapq}
use yt_dlp_api.DownloadQueue.Invariant.{new_queue-IsValid}
use yt_dlp_api.Worker.{System, finish_job}
use yt_dlp_api.Provider.{
  other_exception, VideoProvider, ProviderManager, new_manager, register_provider,
  is_provider_enabled, select_from, no_provider_message, get_provider_for_url,
}
use yt_dlp_api.Provider.Select.{Chooses, get_provider_for_url_lem}
use yt_dlp_api.Provider.Worker.{outcome_of, provide, declined_job_fails}

abbrev failing_provider : VideoProvider
failing_provider = record {
  validate_url = λ url. err (other_exception "no network");
  download = λ url params. err (other_exception "no network");
}

abbrev picky_provider : VideoProvider
picky_provider = record {
  validate_url = λ url. ok (str_eq url "https://youtu.be/abc");
  download = λ url params. ok (record { file_path = "/d/a"; file_size = 7; duration = 1 });
}

-- Three providers; the one that takes every url is disabled.
abbrev manager : ProviderManager
manager = record {
  providers = ("a", failing_provider) ∷ ("b", picky_provider) ∷ [];
  enabled_providers = ("a", true) ∷ ("b", true) ∷ [];
}

second_chosen : get_provider_for_url manager "https://youtu.be/abc" ≡ ok picky_provider
unfolding get_provider_for_url select_from is_provider_enabled
second_chosen = refl

registered :
    register_provider
      (register_provider new_manager "a" failing_provider true)
      "b"
      picky_provider
      true
    ≡ manager
unfolding register_provider
registered = refl

get_provider_for_url_lem_example :
    Chooses manager "https://youtu.be/abc" (get_provider_for_url manager "https://youtu.be/abc")
get_provider_for_url_lem_example = get_provider_for_url_lem manager "https://youtu.be/abc"

abbrev one_job : System
one_job = record {
  jobs = (create_job (record { job_ttl_hours = 24; jobs = [] }) "j" "ftp://x" [] 3 1).0;
  queue = new_queue 2 3;
  storage = record {
    cleanup_age_hours = 24;
    cleanup_threshold = 80;
    max_file_size = 1000;
    active_jobs = [];
  };
  webhooks_enabled = false;
  notifications = [];
  recorded = [];
}

abbrev same_path : String → String
same_path p = p

one_job_j : get_job one_job.jobs "j" ≡ some (new_job "j" "ftp://x" [] 3 1)
unfolding get_job create_job
one_job_j = refl

declined_job_fails_example :
    get_job
      (finish_job sorted_heapq same_path one_job 5 "j"
        (outcome_of (provide manager one_job (new_job "j" "ftp://x" [] 3 1) "j"))).jobs
      "j"
    ≡ some (failed_job 5 (no_provider_message "ftp://x") (new_job "j" "ftp://x" [] 3 1))
unfolding is_provider_enabled new_job
declined_job_fails_example =
    declined_job_fails sorted_heapq same_path manager one_job 5 "j" (new_job "j" "ftp://x" [] 3 1)
      one_job_j (refl, (refl, tt)) (new_queue-IsValid sorted_heapq 2 3)
