-- ===== src/Provider.antt =====
-- app/providers/exceptions.py and app/providers/manager.py: the exceptions of providers, and their
-- registration and selection. What a provider does is a parameter, with its exceptions.
pub mod Select
pub mod Worker
mod Tests
use yt_dlp_api.Prelude.{
  ℕ, String, Bool, true, false, Option, none, some, List, [], ◌∷◌, if◌then◌else◌,
}
use yt_dlp_api.Prelude.Dict.{Dict, lookup, contains, insert}
use yt_dlp_api.Prelude.Result.{Result, ok, err, ◌>>=◌}
use yt_dlp_api.Prelude.Text.{concat}
use yt_dlp_api.Job.{Value}

-- The classes of exceptions.py, and any other exception, with `str(e)`.
pub data Exception : Type 0 where
  provider_error invalid_url_error video_unavailable_error : String → Exception
  format_not_found_error download_error authentication_error : String → Exception
  cookie_error transcoding_error transcript_not_found_error : String → Exception
  other_exception : String → Exception

pub record DownloadResult : Type 0 where
  pub file_path : String
  pub file_size : ℕ
  pub duration : ℕ

-- A VideoProvider: `download` takes the url and the parameters of the job.
pub record VideoProvider : Type 0 where
  pub validate_url : String → Result Exception Bool
  pub download : String → Dict Value → Result Exception DownloadResult

pub record ProviderManager : Type 0 where
  pub providers : Dict VideoProvider
  pub enabled_providers : Dict Bool

abbrev pub new_manager : ProviderManager
new_manager = record { providers = []; enabled_providers = [] }

unfoldable pub register_provider : ProviderManager → String → VideoProvider → Bool → ProviderManager
register_provider m name provider enabled = record {
  providers = insert name provider m.providers;
  enabled_providers = insert name enabled m.enabled_providers;
}

-- none: a ValueError, of a provider that is not registered.
unfoldable pub enable_provider : ProviderManager → String → Option ProviderManager
enable_provider m name =
    if contains name m.providers
    then some (record m { enabled_providers = insert name true m.enabled_providers })
    else none

unfoldable pub disable_provider : ProviderManager → String → Option ProviderManager
disable_provider m name =
    if contains name m.providers
    then some (record m { enabled_providers = insert name false m.enabled_providers })
    else none

unfoldable pub is_provider_enabled : ProviderManager → String → Bool
is_provider_enabled m name = elim (lookup name m.enabled_providers) [ none ↦ false | some b ↦ b ]

unfoldable pub get_provider_by_name : ProviderManager → String → Option VideoProvider
get_provider_by_name m name = lookup name m.providers

-- `provider.validate_url(url)`, where an exception counts as a refusal
abbrev pub accepts : VideoProvider → String → Bool
accepts p url = elim (p.validate_url url) [ ok b ↦ b | err e ↦ false ]

-- The loop of `get_provider_for_url`.
unfoldable pub select_from : ProviderManager → String → Dict VideoProvider → Option VideoProvider
unfolding is_provider_enabled
select_from m url [] = none
select_from m url ((name, provider) ∷ d) =
    let rest = select_from m url d in
    if is_provider_enabled m name
    then (if accepts provider url then some provider else rest)
    else rest

unfoldable pub no_provider_message : String → String
no_provider_message url =
    concat (concat "No provider available for URL: " url)
      ". Ensure the URL is from a supported platform and the provider is enabled."

unfoldable pub get_provider_for_url : ProviderManager → String → Result Exception VideoProvider
unfolding select_from no_provider_message
get_provider_for_url m url = elim (select_from m url m.providers) [
  | none ↦ err (invalid_url_error (no_provider_message url))
  | some provider ↦ ok provider
]

unfoldable pub list_providers : ProviderManager → Dict VideoProvider → Dict Bool
unfolding is_provider_enabled
list_providers m [] = []
list_providers m ((name, provider) ∷ d) = (name, is_provider_enabled m name) ∷ list_providers m d

-- The handlers of `execute_with_error_isolation`.
unfoldable pub isolated : String → Exception → Exception
isolated provider_name (other_exception e) =
    provider_error
      (concat (concat (concat "Provider '" provider_name) "' encountered an unexpected error: ") e)
isolated provider_name e = e

unfoldable pub execute_with_error_isolation :
    {A : Type 0} → String → Result Exception A → Result Exception A
unfolding isolated
execute_with_error_isolation provider_name (ok a) = ok a
execute_with_error_isolation provider_name (err e) = err (isolated provider_name e)
