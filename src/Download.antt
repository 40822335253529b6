-- ===== src/Download.antt =====
-- `download_video` of app/api/download.py, with its request (app/api/schemas.py): the checks of a
-- request, in their order, and the answers of the two modes, which Worker.antt runs. Messages are
-- code points.
pub mod Checked
pub mod Hooks
mod Tests
use yt_dlp_api.Prelude.{
  ℕ, String, Bool, true, false, ◌||◌, Option, none, some, List, [], ◌∷◌, if◌then◌else◌, str_eq,
}
use yt_dlp_api.Prelude.Chars.{Text, codes, contains_text}
use yt_dlp_api.Prelude.Dict.{Dict}
use yt_dlp_api.Prelude.Result.{Result, ok, err, ◌>>=◌, ◌>>◌}
use yt_dlp_api.Prelude.Text.{concat, truthy, or_else}
use yt_dlp_api.Job.{Job, Value, text, flag, null, status_value}
use yt_dlp_api.JobService.{get_job}
use yt_dlp_api.DownloadQueue.Heap.{Heapq}
use yt_dlp_api.Provider
use yt_dlp_api.Provider.{Exception, invalid_url_error, VideoProvider, ProviderManager}
use yt_dlp_api.Provider.{get_provider_for_url}
use yt_dlp_api.Template.Validate.{
  TemplateResult, valid_template, invalid_template, validate_template,
}
use yt_dlp_api.Validation
use yt_dlp_api.Validation.{
  ValidationResult, accepted, rejected, SplitUrl, default_allowed_domains, validate_format_id,
}
use yt_dlp_api.Webhook
use yt_dlp_api.Webhook.{WebhookService, WebhookValidationResult, valid, invalid, ParsedUrl}
use yt_dlp_api.Worker.{
  System, Outcome, SyncAnswer, no_slots_available, job_missing, unexpected_status, completed_answer,
  failed_answer, submit, download_sync, full_message,
}

pub record DownloadRequest : Type 0 where
  pub url : String
  pub format_id : Option String
  pub output_template : Option String
  pub extract_audio : Bool
  pub audio_format : Option String
  pub include_subtitles : Bool
  pub subtitle_lang : Option String
  pub async_mode : Bool
  pub webhook_url : Option String

-- What the handler reads of the standard library and of the other services. `urlparse` gives the
-- parts that each of its callers reads.
pub record Context : Type 0 where
  pub urlparse : Text → Option SplitUrl
  pub parse_webhook : String → Option ParsedUrl
  pub lower : Text → Text
  pub is_space : ℕ → Bool
  pub is_alpha : ℕ → Bool
  pub webhook_service : WebhookService
  pub provider_manager : ProviderManager

-- An HTTPException, with its code and message; or another exception, which leaves the handler.
pub data Failure : Type 0 where
  http_exception : ℕ → String → Text → Failure
  uncaught : Failure

-- How the handler answers: 202 with the job's id and position, or 200 with the file.
pub data HandlerAnswer : Type 0 where
  created : String → Option ℕ → HandlerAnswer
  done : String → ℕ → ℕ → String → HandlerAnswer
  failure : Failure → HandlerAnswer

abbrev pub bad_request : String → Text → Failure
bad_request error_code message = http_exception 400 error_code message

abbrev pub require : String → ValidationResult → Result Failure Bool
require error_code (accepted t) = ok true
require error_code (rejected message) = err (bad_request error_code message)

unfoldable pub check_url : Context → String → Result Failure Bool
check_url x url =
    require "INVALID_URL"
      (Validation.validate x.urlparse x.lower x.is_space default_allowed_domains (codes url))

abbrev pub format_checked : Context → Option String → Result Failure Bool
format_checked x none = ok true
format_checked x (some format_id) =
    require "INVALID_FORMAT" (validate_format_id x.lower x.is_space (codes format_id))

abbrev pub template_result : TemplateResult → Result Failure Bool
template_result (valid_template t) = ok true
template_result (invalid_template message) = err (bad_request "INVALID_TEMPLATE" (codes message))

abbrev pub template_checked : Context → Option String → Result Failure Bool
template_checked x none = ok true
template_checked x (some output_template) =
    template_result (validate_template x.is_space x.is_alpha (codes output_template))

-- A ValueError of `urlparse` is not caught.
abbrev pub webhook_result : Option WebhookValidationResult → Result Failure Bool
webhook_result none = err uncaught
webhook_result (some valid) = ok true
webhook_result (some (invalid message)) = err (bad_request "WEBHOOK_NOT_ALLOWED" (codes message))

abbrev pub webhook_checked : Context → Option String → Result Failure Bool
webhook_checked x none = ok true
webhook_checked x (some webhook_url) =
    webhook_result (Webhook.validate_url x.parse_webhook x.webhook_service webhook_url)

abbrev pub provider_result : Result Exception VideoProvider → Result Failure Bool
provider_result (ok provider) = ok true
provider_result (err (invalid_url_error message)) = err (bad_request "INVALID_URL" (codes message))
provider_result (err other) = err uncaught

-- The checks before the job, in their order; an empty text counts as none.
unfoldable pub check_request : Context → DownloadRequest → Result Failure Bool
unfolding check_url
check_request x request =
    check_url x request.url
    >> format_checked x (truthy request.format_id)
    >> template_checked x (truthy request.output_template)
    >> webhook_checked x (truthy request.webhook_url)
    >> provider_result (get_provider_for_url x.provider_manager request.url)

abbrev pub value_of : Option String → Value
value_of none = null
value_of (some t) = text t

unfoldable pub params_of : DownloadRequest → Dict Value
params_of request =
    ("format_id", value_of request.format_id)
    ∷ ("output_template", value_of request.output_template)
    ∷ ("extract_audio", flag request.extract_audio)
    ∷ ("audio_format", value_of request.audio_format)
    ∷ ("include_subtitles", flag request.include_subtitles)
    ∷ ("subtitle_lang", value_of request.subtitle_lang)
    ∷ ("webhook_url", value_of request.webhook_url)
    ∷ []

-- `error_message or "Download failed"`, mapped to a status code and an error code
unfoldable pub failed_download : (Text → Text) → Option String → Failure
failed_download lower error_message =
    let message = codes (or_else (truthy error_message) "Download failed") in
    if contains_text (codes "unavailable") (lower message)
    then http_exception 404 "VIDEO_UNAVAILABLE" message
    else if contains_text (codes "format") (lower message)
    then http_exception 400 "FORMAT_NOT_FOUND" message
    else http_exception 500 "DOWNLOAD_FAILED" message

abbrev pub or_zero : Option ℕ → ℕ
or_zero none = 0
or_zero (some n) = n

-- The answer of the synchronous mode, from the job after the processing.
abbrev pub job_response : (Text → Text) → DownloadRequest → Option Job → SyncAnswer → HandlerAnswer
job_response lower request job no_slots_available = failure (
    http_exception 503 "NO_SLOTS_AVAILABLE"
      (codes "All download slots are in use. Try again later or use async mode."))
job_response lower request (some job) completed_answer =
    done (or_else (truthy job.file_path) "") (or_zero job.file_size) (or_zero job.duration)
      (or_else (truthy request.format_id) "best")
job_response lower request (some job) failed_answer =
    failure (failed_download lower job.error_message)
job_response lower request (some job) unexpected_status = failure (
    http_exception 500 "INTERNAL_ERROR"
      (codes (concat "Unexpected job status: " (status_value job.status))))
job_response lower request job other =
    failure (http_exception 500 "INTERNAL_ERROR" (codes "Job not found after processing"))

-- The answer of the asynchronous mode; the job is refused by a full queue alone.
abbrev pub created_response : String → Text → Option ℕ → HandlerAnswer
created_response job_id full none = failure (http_exception 503 "QUEUE_FULL" full)
created_response job_id full (some position) = created job_id (some position)

module _ (h : Heapq) (resolve : String → String) (x : Context) where
  -- The handler once the request is checked. `job_id` is the fresh UUID; `later` and `outcome` are
  -- those of the processing in the synchronous mode.
  unfoldable pub run_download :
      System → DownloadRequest → ℕ → ℕ → String → Outcome → System × HandlerAnswer
  unfolding params_of failed_download
  run_download sys request now later job_id outcome =
      if request.async_mode
      then (let r = submit h resolve sys now job_id request.url (params_of request) in
          (r.0, created_response job_id (codes (full_message sys.queue)) r.1))
      else (let r =
            download_sync h resolve sys now later job_id request.url (params_of request) outcome in
          (r.0, job_response x.lower request (get_job r.0.jobs job_id) r.1))

  abbrev pub guarded :
      System → Result Failure Bool → System × HandlerAnswer → System × HandlerAnswer
  guarded sys (err e) r = (sys, failure e)
  guarded sys (ok b) r = r

  unfoldable pub download_video :
      System → DownloadRequest → ℕ → ℕ → String → Outcome → System × HandlerAnswer
  unfolding check_request run_download
  download_video sys request now later job_id outcome =
      guarded sys (check_request x request) (run_download sys request now later job_id outcome)
