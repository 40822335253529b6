-- ===== src/Webhook.antt =====
-- app/services/webhook_service.py: the check of webhook urls, and the delivery of notifications.
-- `urlparse`, HMAC-SHA256, JSON, the uuid of a delivery and what each post is answered are
-- parameters.
pub mod Url
pub mod Delivered
pub mod Total
mod Tests
use yt_dlp_api.Prelude.{
  ℕ, zero, suc, ◌+◌, ◌-◌, ◌^◌, String, Bool, true, false, ◌&&◌, ◌||◌, not, Option, none, some, List,
  [], ◌∷◌, ◌++◌, ltb, leb, if◌then◌else◌, str_eq, member,
}
use yt_dlp_api.Prelude.Text.{concat, truthy}

-- The timeout of a post is left to the answers.
pub record WebhookService : Type 0 where
  pub enabled : Bool
  pub allowed_hosts : List String
  pub secret : Option String
  pub max_retries : ℕ

-- `error_message`, with `is_valid` false, or valid.
pub data WebhookValidationResult : Type 0 where
  valid : WebhookValidationResult
  invalid : String → WebhookValidationResult

pub record ParsedUrl : Type 0 where
  pub scheme : String
  pub hostname : Option String

unfoldable pub check_parsed : WebhookService → ParsedUrl → WebhookValidationResult
check_parsed s parsed =
    if not (member parsed.scheme ("http" ∷ "https" ∷ []))
    then invalid "Webhook URL must use http or https"
    else elim (truthy parsed.hostname) [
      | none ↦ invalid "Webhook URL has no hostname"
      | some hostname ↦
          if member hostname s.allowed_hosts
          then valid
          else invalid
              (concat (concat "Webhook host '" hostname) "' is not in the allowed hosts list")
    ]

-- none: the ValueError of `urlparse`.
unfoldable pub validate_url :
    (String → Option ParsedUrl) → WebhookService → String → Option WebhookValidationResult
unfolding check_parsed
validate_url urlparse s webhook_url =
    if s.enabled
    then (elim (urlparse webhook_url) [ none ↦ none | some parsed ↦ some (check_parsed s parsed) ])
    else some (invalid "Webhooks are disabled on this server")

-- `hmac_hex key body` is the hexadecimal digest.
unfoldable pub sign : (String → String → String) → WebhookService → String → Option String
sign hmac_hex s body = elim (truthy s.secret) [
  | none ↦ none
  | some secret ↦ some (concat "sha256=" (hmac_hex secret body))
]

pub record Post : Type 0 where
  pub url : String
  pub content : String
  pub headers : List (String × String)

unfoldable pub post_of :
    (String → String → String) → WebhookService → String → String → String → String → Post
unfolding sign
post_of hmac_hex s webhook_url event delivery body = record {
  url = webhook_url;
  content = body;
  headers =
      ("Content-Type", "application/json")
      ∷ ("X-Webhook-Event", event)
      ∷ ("X-Webhook-Delivery", delivery)
      ∷ (elim (truthy (sign hmac_hex s body)) [
        | none ↦ []
        | some signature ↦ ("X-Webhook-Signature", signature) ∷ []
      ]);
}

-- What a post meets: an answer with a status code, an httpx.HTTPError, or another exception.
pub data Answer : Type 0 where
  responded : ℕ → Answer
  http_error : Answer
  raises : String → Answer

-- The posts, the seconds slept between them, and the deliveries counted, by their status.
pub record Trace : Type 0 where
  pub posts : List Post
  pub slept : List ℕ
  pub recorded : List (String × String)

-- `deliver` returns a Boolean, or lets an exception through.
pub data Delivery : Type 0 where
  returned : Bool → Delivery
  raised : String → Delivery

abbrev pub is_success : ℕ → Bool
is_success code = leb 200 code && ltb code 300

abbrev pub send : Post → Trace → Trace
send p l = record l { posts = l.posts ++ p ∷ [] }

abbrev pub count_delivery : String → String → Trace → Trace
count_delivery event status l = record l { recorded = l.recorded ++ (event, status) ∷ [] }

module _ (s : WebhookService) (event : String) (post : Post) (answer : ℕ → Answer) where
  -- The sleep at the end of an attempt that is not the last.
  abbrev pub pause : ℕ → Trace → Trace
  pause attempt l =
      if ltb attempt s.max_retries
      then record l { slept = l.slept ++ 2 ^ (attempt - 1) ∷ [] }
      else l

  -- The loop, with `rounds` attempts left.
  unfoldable pub deliver_from : ℕ → ℕ → Trace → Trace × Delivery
  deliver_from zero attempt l = (count_delivery event "failed" l, returned false)
  deliver_from (suc rounds) attempt l =
      let sent = send post l in
      let rest = deliver_from rounds (suc attempt) (pause attempt sent) in
      elim (answer attempt) [
        | http_error ↦ rest
        | raises e ↦ (sent, raised e)
        | responded code ↦
            if is_success code then (count_delivery event "success" sent, returned true) else rest
      ]

unfoldable pub deliver :
    (String → String → String)
    → WebhookService
    → String
    → String
    → String
    → String
    → (ℕ → Answer)
    → Trace × Delivery
unfolding post_of deliver_from
deliver hmac_hex s webhook_url event delivery body answer =
    deliver_from s event (post_of hmac_hex s webhook_url event delivery body) answer s.max_retries 1
      (record { posts = []; slept = []; recorded = [] })
