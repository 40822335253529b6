-- ===== src/Download/Checked.antt =====
-- The requests that `download_video` of app/api/download.py takes.
use yt_dlp_api.Prelude.{ℕ, String, Bool, true, Option, none, some, ◌≡◌, refl}
use yt_dlp_api.Prelude.Chars.{Text, codes, strip}
use yt_dlp_api.Prelude.Result.{Result, ok, err, ◌>>◌}
use yt_dlp_api.Prelude.Text.{truthy}
use yt_dlp_api.Provider.{
  Exception, VideoProvider, get_provider_for_url, provider_error, invalid_url_error,
  video_unavailable_error, format_not_found_error, download_error, authentication_error,
  cookie_error, transcoding_error, transcript_not_found_error, other_exception,
}
use yt_dlp_api.Template.Validate.{
  TemplateResult, valid_template, invalid_template, validate_template,
}
use yt_dlp_api.Validation.{
  ValidationResult, accepted, rejected, default_allowed_domains, validate_format_id,
}
use yt_dlp_api.Validation.Domain.{IsAllowed, validate_exact}
use yt_dlp_api.Webhook.{WebhookValidationResult, valid, invalid}
use yt_dlp_api.Webhook.Url.{IsWebhookUrl, validate_url_exact}
use yt_dlp_api.DownloadQueue.Heap.{Heapq}
use yt_dlp_api.Worker.{System, Outcome}
use yt_dlp_api.Download.{
  DownloadRequest, Context, Failure, http_exception, uncaught, failure, require, check_url,
  format_checked, template_result, template_checked, webhook_result, webhook_checked,
  provider_result, check_request, run_download, download_video,
}

then_ok :
    (a b : Result Failure Bool) (c : Bool)
    → (a >> b) ≡ ok c
    → ((d : Bool) × (a ≡ ok d)) × (b ≡ ok c)
then_ok (ok d) b c h = ((d, refl), h)
then_ok (err e) b c h = absurd cc

-- Of a text of the request that counts as none where it is empty.
abbrev pub IfGiven : (String → Type 0) → Option String → Type 0
IfGiven P none = Unit
IfGiven P (some t) = P t

module _ (x : Context) where
  abbrev pub IsFormat : String → Type 0
  IsFormat t = (v : Text) × (validate_format_id x.lower x.is_space (codes t) ≡ accepted v)

  abbrev pub IsTemplate : String → Type 0
  IsTemplate t = (v : Text) × (validate_template x.is_space x.is_alpha (codes t) ≡ valid_template v)

  abbrev pub IsHook : String → Type 0
  IsHook t = IsWebhookUrl x.parse_webhook x.webhook_service t

  -- What a request has to be.
  pub record IsChecked (request : DownloadRequest) : Type 0 where
    pub domain :
        IsAllowed x.urlparse x.lower x.is_space default_allowed_domains
          (strip x.is_space (codes request.url))
    pub format : IfGiven IsFormat (truthy request.format_id)
    pub template : IfGiven IsTemplate (truthy request.output_template)
    pub webhook : IfGiven IsHook (truthy request.webhook_url)
    pub provider :
        (p : VideoProvider) × (get_provider_for_url x.provider_manager request.url ≡ ok p)

  require_ok :
      (code : String) (r : ValidationResult) (c : Bool)
      → require code r ≡ ok c
      → (v : Text) × (r ≡ accepted v)
  require_ok code (accepted v) c h = (v, refl)
  require_ok code (rejected m) c h = absurd cc

  url_ok :
      (url : String) (c : Bool)
      → check_url x url ≡ ok c
      → IsAllowed x.urlparse x.lower x.is_space default_allowed_domains
          (strip x.is_space (codes url))
  unfolding check_url
  url_ok url c h =
      let (v, e) = require_ok "INVALID_URL" _ c h in
      ((validate_exact x.urlparse x.lower x.is_space default_allowed_domains (codes url) v).0 e).1

  IsFormat-ok : (o : Option String) (c : Bool) → format_checked x o ≡ ok c → IfGiven IsFormat o
  IsFormat-ok none c h = tt
  IsFormat-ok (some t) c h = require_ok "INVALID_FORMAT" _ c h

  IsTemplate-result :
      (r : TemplateResult) (c : Bool)
      → template_result r ≡ ok c
      → (v : Text) × (r ≡ valid_template v)
  IsTemplate-result (valid_template v) c h = (v, refl)
  IsTemplate-result (invalid_template m) c h = absurd cc

  IsTemplate-checked :
      (o : Option String) (c : Bool) → template_checked x o ≡ ok c → IfGiven IsTemplate o
  IsTemplate-checked none c h = tt
  IsTemplate-checked (some t) c h = IsTemplate-result _ c h

  webhook_ok :
      (r : Option WebhookValidationResult) (c : Bool) → webhook_result r ≡ ok c → r ≡ some valid
  webhook_ok none c h = absurd cc
  webhook_ok (some valid) c h = refl
  webhook_ok (some (invalid m)) c h = absurd cc

  IsHook-checked : (o : Option String) (c : Bool) → webhook_checked x o ≡ ok c → IfGiven IsHook o
  IsHook-checked none c h = tt
  IsHook-checked (some t) c h =
      (validate_url_exact x.parse_webhook x.webhook_service t).0 (webhook_ok _ c h)

  provider_ok :
      (r : Result Exception VideoProvider) (c : Bool)
      → provider_result r ≡ ok c
      → (p : VideoProvider) × (r ≡ ok p)
  provider_ok (ok p) c h = (p, refl)
  provider_ok (err (provider_error m)) c h = absurd cc
  provider_ok (err (invalid_url_error m)) c h = absurd cc
  provider_ok (err (video_unavailable_error m)) c h = absurd cc
  provider_ok (err (format_not_found_error m)) c h = absurd cc
  provider_ok (err (download_error m)) c h = absurd cc
  provider_ok (err (authentication_error m)) c h = absurd cc
  provider_ok (err (cookie_error m)) c h = absurd cc
  provider_ok (err (transcoding_error m)) c h = absurd cc
  provider_ok (err (transcript_not_found_error m)) c h = absurd cc
  provider_ok (err (other_exception m)) c h = absurd cc

  -- The checks one after the other.
  check_request-IsChecked :
      (request : DownloadRequest) (ending : Bool)
      → check_request x request ≡ ok ending
      → IsChecked request
  unfolding check_request
  check_request-IsChecked request ending h =
      let ((a, url_to_hook), provider) = then_ok _ _ ending h in
      let ((b, url_to_template), hook) = then_ok _ _ a url_to_hook in
      let ((c, url_to_format), template) = then_ok _ _ b url_to_template in
      let ((d, url), format) = then_ok _ _ c url_to_format in
      record {
        domain = url_ok request.url d url;
        format = IsFormat-ok (truthy request.format_id) c format;
        template = IsTemplate-checked (truthy request.output_template) b template;
        webhook = IsHook-checked (truthy request.webhook_url) a hook;
        provider =
            provider_ok (get_provider_for_url x.provider_manager request.url) ending provider;
      }

  domain_ok :
      (url : String)
      → IsAllowed x.urlparse x.lower x.is_space default_allowed_domains
          (strip x.is_space (codes url))
      → check_url x url ≡ ok true
  unfolding check_url
  domain_ok url a =
      rw
        ((validate_exact x.urlparse x.lower x.is_space default_allowed_domains (codes url)
            (strip x.is_space (codes url))).1
          (refl, a))
        refl

  format_passes : (o : Option String) → IfGiven IsFormat o → format_checked x o ≡ ok true
  format_passes none h = refl
  format_passes (some t) (v, e) = rw e refl

  template_passes : (o : Option String) → IfGiven IsTemplate o → template_checked x o ≡ ok true
  template_passes none h = refl
  template_passes (some t) (v, e) = rw e refl

  webhook_passes : (o : Option String) → IfGiven IsHook o → webhook_checked x o ≡ ok true
  webhook_passes none h = refl
  webhook_passes (some t) h = rw ((validate_url_exact x.parse_webhook x.webhook_service t).1 h) refl

  IsChecked-check_request :
      (request : DownloadRequest) → IsChecked request → check_request x request ≡ ok true
  unfolding check_request
  IsChecked-check_request request c =
      let (p, e) = c.provider in
      rw (domain_ok request.url c.domain) (
        rw (format_passes (truthy request.format_id) c.format) (
          rw (template_passes (truthy request.output_template) c.template)
            (rw (webhook_passes (truthy request.webhook_url) c.webhook) (rw e refl))))

  -- A request that is turned down: 400, or the exception of a helper.
  abbrev pub IsTurnedDown : Failure → Type 0
  IsTurnedDown (http_exception code error_code message) = code ≡ 400
  IsTurnedDown uncaught = Unit

  abbrev TurnsDown : Result Failure Bool → Type 0
  TurnsDown (ok b) = Unit
  TurnsDown (err f) = IsTurnedDown f

  then-TurnsDown : (a b : Result Failure Bool) → TurnsDown a → TurnsDown b → TurnsDown (a >> b)
  then-TurnsDown (ok c) b h k = k
  then-TurnsDown (err f) b h k = h

  require-TurnsDown : (code : String) (r : ValidationResult) → TurnsDown (require code r)
  require-TurnsDown code (accepted v) = tt
  require-TurnsDown code (rejected m) = refl

  url-TurnsDown : (url : String) → TurnsDown (check_url x url)
  unfolding check_url
  url-TurnsDown url = require-TurnsDown "INVALID_URL" _

  format-TurnsDown : (o : Option String) → TurnsDown (format_checked x o)
  format-TurnsDown none = tt
  format-TurnsDown (some t) = require-TurnsDown "INVALID_FORMAT" _

  result-TurnsDown : (r : TemplateResult) → TurnsDown (template_result r)
  result-TurnsDown (valid_template v) = tt
  result-TurnsDown (invalid_template m) = refl

  template-TurnsDown : (o : Option String) → TurnsDown (template_checked x o)
  template-TurnsDown none = tt
  template-TurnsDown (some t) = result-TurnsDown _

  hook-TurnsDown : (r : Option WebhookValidationResult) → TurnsDown (webhook_result r)
  hook-TurnsDown none = tt
  hook-TurnsDown (some valid) = tt
  hook-TurnsDown (some (invalid m)) = refl

  webhook-TurnsDown : (o : Option String) → TurnsDown (webhook_checked x o)
  webhook-TurnsDown none = tt
  webhook-TurnsDown (some t) = hook-TurnsDown _

  provider-TurnsDown : (r : Result Exception VideoProvider) → TurnsDown (provider_result r)
  provider-TurnsDown (ok p) = tt
  provider-TurnsDown (err (provider_error m)) = tt
  provider-TurnsDown (err (invalid_url_error m)) = refl
  provider-TurnsDown (err (video_unavailable_error m)) = tt
  provider-TurnsDown (err (format_not_found_error m)) = tt
  provider-TurnsDown (err (download_error m)) = tt
  provider-TurnsDown (err (authentication_error m)) = tt
  provider-TurnsDown (err (cookie_error m)) = tt
  provider-TurnsDown (err (transcoding_error m)) = tt
  provider-TurnsDown (err (transcript_not_found_error m)) = tt
  provider-TurnsDown (err (other_exception m)) = tt

  check_request-TurnsDown : (request : DownloadRequest) → TurnsDown (check_request x request)
  unfolding check_request
  check_request-TurnsDown request =
      then-TurnsDown _ _
        (then-TurnsDown _ _
          (then-TurnsDown _ _
            (then-TurnsDown _ _ (url-TurnsDown request.url)
              (format-TurnsDown (truthy request.format_id)))
            (template-TurnsDown (truthy request.output_template)))
          (webhook-TurnsDown (truthy request.webhook_url)))
        (provider-TurnsDown (get_provider_for_url x.provider_manager request.url))

  module _ (h : Heapq) (resolve : String → String) where
    -- How the handler may end.
    pub data Handles (sys : System) (request : DownloadRequest) (now later : ℕ) (job_id : String)
        (outcome : Outcome) : Type 0 where
      runs :
          IsChecked request
          → download_video h resolve x sys request now later job_id outcome
            ≡ run_download h resolve x sys request now later job_id outcome
          → Handles sys request now later job_id outcome
      turns_down :
          (f : Failure)
          → ¬ IsChecked request
          → IsTurnedDown f
          → download_video h resolve x sys request now later job_id outcome ≡ (sys, failure f)
          → Handles sys request now later job_id outcome

    handles :
        (sys : System) (request : DownloadRequest) (now later : ℕ) (job_id : String)
        (outcome : Outcome) (r : Result Failure Bool)
        → check_request x request ≡ r
        → TurnsDown r
        → Handles sys request now later job_id outcome
    unfolding download_video
    handles sys request now later job_id outcome (ok b) e t =
        runs (check_request-IsChecked request b e) (rw (e, download_video) refl)
    handles sys request now later job_id outcome (err f) e t =
        turns_down f (λ c. absurd (let k = IsChecked-check_request request c in cc)) t
          (rw (e, download_video) refl)

    -- A download request is taken exactly when its stripped url is of an allowed domain; its format
    -- id, template and webhook, where they are given and not empty, are valid; and an enabled provider
    -- accepts its url. Then the job is run in the mode that is asked for. Otherwise the system stays
    -- as it is, and the answer is 400 or an exception that no handler of the function takes.
    pub download_video-Handles :
        (sys : System) (request : DownloadRequest) (now later : ℕ) (job_id : String)
        (outcome : Outcome)
        → Handles sys request now later job_id outcome
    download_video-Handles sys request now later job_id outcome =
        handles sys request now later job_id outcome (check_request x request) refl
          (check_request-TurnsDown request)
