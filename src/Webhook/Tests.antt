-- ===== src/Webhook/Tests.antt =====
-- Runs of app/services/webhook_service.py on small inputs, and the theorems at such inputs.
use yt_dlp_api.Prelude.{
  ℕ, zero, suc, String, true, Option, none, some, [], ◌∷◌, ◌≡◌, refl, str_eq, if◌then◌else◌,
}
use yt_dlp_api.Webhook.{
  WebhookService, valid, ParsedUrl, Answer, responded, http_error, post_of, deliver, deliver_from,
  validate_url, check_parsed,
}
use yt_dlp_api.Webhook.Total.{Delivers, deliver-Delivers}

abbrev service : WebhookService
service = record {
  enabled = true;
  allowed_hosts = "hooks" ∷ [];
  secret = some "k";
  max_retries = 3;
}

abbrev one_url : String → Option ParsedUrl
one_url u =
    if str_eq u "https://hooks/x"
    then some (record { scheme = "https"; hostname = some "hooks" })
    else none

accepted : validate_url one_url service "https://hooks/x" ≡ some valid
unfolding validate_url check_parsed
accepted = refl

abbrev fixed_digest : String → String → String
fixed_digest key body = "d"

-- The first post fails, the second is answered 204.
abbrev second_time : ℕ → Answer
second_time zero = http_error
second_time (suc zero) = responded 503
second_time (suc (suc n)) = responded 204

twice :
    (deliver fixed_digest service "https://hooks/x" "job.completed" "1" "{}" second_time).0.slept
    ≡ 1 ∷ []
unfolding deliver deliver_from
twice = refl

deliver-Delivers_example :
    Delivers service "job.completed"
      (post_of fixed_digest service "https://hooks/x" "job.completed" "1" "{}")
      second_time
      (deliver fixed_digest service "https://hooks/x" "job.completed" "1" "{}" second_time)
deliver-Delivers_example =
    deliver-Delivers fixed_digest service "https://hooks/x" "job.completed" "1" "{}" second_time
