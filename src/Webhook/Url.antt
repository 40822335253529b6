-- ===== src/Webhook/Url.antt =====
-- `validate_url` of app/services/webhook_service.py: the urls that a webhook may have.
use mathlib.Core.Option.{some-injective}
use yt_dlp_api.Prelude.{
  String, true, false, Option, none, some, [], ◌∷◌, ◌≡◌, ◌↔◌, refl, ap, ◌∙◌, inl, inr, str_eq,
  member, Bool-cases, Option-cases,
}
use yt_dlp_api.Prelude.Text.{truthy}
use yt_dlp_api.Webhook.{WebhookService, valid, ParsedUrl, check_parsed, validate_url}

-- What a parsed url needs: http or https, and a host of the list.
pub record IsAllowed (s : WebhookService) (parsed : ParsedUrl) : Type 0 where
  pub web_scheme : member parsed.scheme ("http" ∷ "https" ∷ []) ≡ true
  pub host : String
  pub has_host : parsed.hostname ≡ some host
  pub not_empty : str_eq host "" ≡ false
  pub on_list : member host s.allowed_hosts ≡ true

truthy_of : (h : String) → str_eq h "" ≡ false → truthy (some h) ≡ some h
truthy_of h e = rw e refl

truthy_is :
    (o : Option String) (h : String) → truthy o ≡ some h → (o ≡ some h) × (str_eq h "" ≡ false)
truthy_is none h e = absurd cc
truthy_is (some s) h e = elim (Bool-cases (str_eq s "")) [
  | inl b ↦ absurd (let k = rw b at e in cc)
  | inr b ↦ let q = rw b at e in (q, (rw (some-injective s h q) at b))
]

check_parsed_allows :
    (s : WebhookService) (parsed : ParsedUrl) → IsAllowed s parsed → check_parsed s parsed ≡ valid
unfolding check_parsed
check_parsed_allows s parsed a =
    let t : truthy parsed.hostname ≡ some a.host =
      ap truthy a.has_host ∙ truthy_of a.host a.not_empty in
    rw (a.web_scheme, t) (rw (a.on_list) refl)

check_parsed-IsAllowed :
    (s : WebhookService) (parsed : ParsedUrl) → check_parsed s parsed ≡ valid → IsAllowed s parsed
unfolding check_parsed
check_parsed-IsAllowed s parsed h =
    elim (Bool-cases (member parsed.scheme ("http" ∷ "https" ∷ []))) [
      | inr m ↦ absurd (let k = rw m at h in cc)
      | inl m ↦ elim (Option-cases (truthy parsed.hostname)) [
        | inl t ↦ absurd (let k = rw (m, t) at h in cc)
        | inr (host, t) ↦ elim (Bool-cases (member host s.allowed_hosts)) [
          | inr l ↦ absurd (let k = rw (m, t, l) at h in cc)
          | inl l ↦
              let is = truthy_is parsed.hostname host t in
              record { web_scheme = m; host = host; has_host = is.0; not_empty = is.1; on_list = l }
        ]
      ]
    ]

-- What a valid url needs.
abbrev pub IsWebhookUrl : (String → Option ParsedUrl) → WebhookService → String → Type 0
IsWebhookUrl urlparse s url =
    (s.enabled ≡ true) × ((parsed : ParsedUrl) × (urlparse url ≡ some parsed) × IsAllowed s parsed)

validate_url-IsWebhookUrl :
    (urlparse : String → Option ParsedUrl) (s : WebhookService) (url : String)
    → validate_url urlparse s url ≡ some valid
    → IsWebhookUrl urlparse s url
unfolding validate_url
validate_url-IsWebhookUrl urlparse s url h = elim (Bool-cases s.enabled) [
  | inr e ↦ absurd (let k = some-injective _ _ (rw e at h) in cc)
  | inl e ↦ elim (Option-cases (urlparse url)) [
    | inl p ↦ absurd (let k = rw (e, p) at h in cc)
    | inr (parsed, p) ↦
        (e, (parsed, p, check_parsed-IsAllowed s parsed (some-injective _ _ (rw (e, p) at h))))
  ]
]

IsWebhookUrl-valid :
    (urlparse : String → Option ParsedUrl) (s : WebhookService) (url : String)
    → IsWebhookUrl urlparse s url
    → validate_url urlparse s url ≡ some valid
unfolding validate_url
IsWebhookUrl-valid urlparse s url (e, (parsed, p, a)) =
    rw (e, p) (ap (λ r. some r) (check_parsed_allows s parsed a))

-- A url is valid exactly if webhooks are enabled and `urlparse` takes it for a url of http or https
-- with a host that is not empty and is one of the allowed hosts.
pub validate_url_exact :
    (urlparse : String → Option ParsedUrl) (s : WebhookService) (url : String)
    → (validate_url urlparse s url ≡ some valid) ↔ IsWebhookUrl urlparse s url
validate_url_exact urlparse s url =
    (validate_url-IsWebhookUrl urlparse s url, IsWebhookUrl-valid urlparse s url)
