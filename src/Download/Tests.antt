-- ===== src/Download/Tests.antt =====
-- Runs of app/api/download.py on a small service, and the theorems at such inputs.
use yt_dlp_api.Prelude.{
  ℕ, String, Bool, true, false, ◌||◌, Option, none, some, [], ◌∷◌, ◌≡◌, refl, ◌==◌, str_eq, All,
  if◌then◌else◌, length,
}
use yt_dlp_api.Prelude.Chars.{Text, strip, split}
use yt_dlp_api.Prelude.Result.{ok}
use yt_dlp_api.Prelude.Sort.{sort}
use yt_dlp_api.JobService.{
  complete_job, get_job_or_raise, set_queue_position, create_job, start_processing, updated,
}
use yt_dlp_api.DownloadQueue.Sorted.{sorted_heapq}
use yt_dlp_api.DownloadQueue.{new_queue, enqueue, dequeue}
use yt_dlp_api.Provider.{VideoProvider, get_provider_for_url, select_from, is_provider_enabled}
use yt_dlp_api.Validation
use yt_dlp_api.Validation.{SplitUrl, validate, netloc_of, potential_domain}
use yt_dlp_api.Webhook
use yt_dlp_api.Webhook.{ParsedUrl, check_parsed}
use yt_dlp_api.Worker.{System, downloaded, submit, poll, begin_job, finish_job}
use yt_dlp_api.Download.{
  DownloadRequest, Context, check_url, check_request, run_download, download_video,
}
use yt_dlp_api.Download.Checked.{IsHook, Handles, download_video-Handles}
use yt_dlp_api.Download.Hooks.{
  Serves, here, next, requests, polls, begins, finishes, notified_hooks-AreAllowed,
}

abbrev same_path : String → String
same_path p = p

abbrev same : Text → Text
same t = t

abbrev is_blank : ℕ → Bool
is_blank c = (c == b' ') || (c == b'\n')

abbrev no_letters : ℕ → Bool
no_letters c = false

abbrev all_path : Text → Option SplitUrl
all_path t = some (record { scheme = []; netloc = []; path = t; hostname = none })

abbrev one_url : String → Option ParsedUrl
one_url u =
    if str_eq u "https://hooks/x"
    then some (record { scheme = "https"; hostname = some "hooks" })
    else none

abbrev willing : VideoProvider
willing = record {
  validate_url = λ url. ok true;
  download = λ url params. ok (record { file_path = "/d/a"; file_size = 7; duration = 1 });
}

abbrev service : Context
service = record {
  urlparse = all_path;
  parse_webhook = one_url;
  lower = same;
  is_space = is_blank;
  is_alpha = no_letters;
  webhook_service = record {
    enabled = true;
    allowed_hosts = "hooks" ∷ [];
    secret = none;
    max_retries = 3;
  };
  provider_manager = record {
    providers = ("youtube", willing) ∷ [];
    enabled_providers = ("youtube", true) ∷ [];
  };
}

abbrev idle_system : System
idle_system = record {
  jobs = record { job_ttl_hours = 24; jobs = [] };
  queue = new_queue 2 3;
  storage = record {
    cleanup_age_hours = 24;
    cleanup_threshold = 80;
    max_file_size = 1000;
    active_jobs = [];
  };
  webhooks_enabled = true;
  notifications = [];
  recorded = [];
}

-- A request with a webhook, for a url without its scheme.
abbrev hooked_request : DownloadRequest
hooked_request = record {
  url = "youtu.be/x";
  format_id = none;
  output_template = none;
  extract_audio = false;
  audio_format = none;
  include_subtitles = false;
  subtitle_lang = none;
  async_mode = true;
  webhook_url = some "https://hooks/x";
}

taken : check_request service hooked_request ≡ ok true
unfolding check_request check_url validate Validation.check_url netloc_of potential_domain strip
    split Webhook.validate_url check_parsed get_provider_for_url select_from is_provider_enabled
taken = refl

download_video-Handles_example :
    Handles service sorted_heapq same_path idle_system hooked_request 1 2 "a"
      (downloaded "/d/a" 7 1)
download_video-Handles_example =
    download_video-Handles service sorted_heapq same_path idle_system hooked_request 1 2 "a"
      (downloaded "/d/a" 7 1)

abbrev after_request : System
after_request =
    (download_video sorted_heapq same_path service idle_system hooked_request 1 2 "a"
      (downloaded "/d/a" 7 1)).0

abbrev after_poll : System
after_poll = (poll sorted_heapq same_path after_request).0

abbrev after_start : System
after_start = (begin_job sorted_heapq same_path after_poll 3 "a").0

abbrev after_finish : System
after_finish = finish_job sorted_heapq same_path after_start 4 "a" (downloaded "/d/a" 7 1)

served : Serves sorted_heapq same_path service idle_system after_finish
served =
    next
      (next
        (next (next here (requests hooked_request 1 2 "a" (downloaded "/d/a" 7 1) refl))
          (polls refl))
        (begins 3 "a" refl))
      (finishes 4 "a" (downloaded "/d/a" 7 1) refl)

-- The one notification of the run.
one_notified : length after_finish.notifications ≡ 1
unfolding download_video run_download submit enqueue poll dequeue begin_job finish_job sort
    check_request check_url validate Validation.check_url netloc_of potential_domain strip split
    Webhook.validate_url check_parsed get_provider_for_url select_from is_provider_enabled
    complete_job get_job_or_raise set_queue_position create_job start_processing updated
one_notified = refl

notified_hooks-AreAllowed_example :
    All (λ n. IsHook service n.webhook_url) after_finish.notifications
notified_hooks-AreAllowed_example =
    notified_hooks-AreAllowed sorted_heapq same_path service idle_system after_finish refl refl
      served
