-- ===== src/Provider/Select.antt =====
-- app/providers/manager.py: which provider a url goes to.
use yt_dlp_api.Prelude.{
  String, true, false, ◌&&◌, Option, none, some, [], ◌∷◌, ◌++◌, ◌≡◌, refl, ap, arith, inl, inr,
  Bool-cases,
}
use yt_dlp_api.Prelude.Dict.{Dict, AllEntries}
use yt_dlp_api.Prelude.Result.{Result, ok, err}
use yt_dlp_api.Provider.{
  Exception, invalid_url_error, VideoProvider, ProviderManager, is_provider_enabled, accepts,
  select_from, no_provider_message, get_provider_for_url,
}

module _ (m : ProviderManager) (url : String) where
  -- Enabled, and its `validate_url` returns True.
  abbrev pub Serves : String → VideoProvider → Type 0
  Serves name p = (is_provider_enabled m name && accepts p url) ≡ true

  abbrev pub Declines : String → VideoProvider → Type 0
  Declines name p = (is_provider_enabled m name && accepts p url) ≡ false

  pub data Selects (d : Dict VideoProvider) : Option VideoProvider → Type 0 where
    first :
        (before after : Dict VideoProvider) (name : String) (p : VideoProvider)
        → d ≡ before ++ (name, p) ∷ after
        → AllEntries Declines before
        → Serves name p
        → Selects d (some p)
    nobody : AllEntries Declines d → Selects d none

  Selects-later :
      (name : String) (p : VideoProvider) (d : Dict VideoProvider) (o : Option VideoProvider)
      → Declines name p
      → Selects d o
      → Selects ((name, p) ∷ d) o
  Selects-later name p d o n (first before after k q e h s) =
      first ((name, p) ∷ before) after k q (ap (λ r. (name, p) ∷ r) e) (n, h) s
  Selects-later name p d o n (nobody h) = nobody (n, h)

  select_from-Selects : (d : Dict VideoProvider) → Selects d (select_from m url d)
  unfolding select_from
  select_from-Selects [] = nobody tt
  select_from-Selects ((name, p) ∷ d) = elim (Bool-cases (is_provider_enabled m name)) [
    | inr e ↦
        rw (e, select_from)
          (Selects-later name p d (select_from m url d) (rw e refl) (select_from-Selects d))
    | inl e ↦ elim (Bool-cases (accepts p url)) [
      | inl a ↦ rw (e, a, select_from) (first [] d name p refl tt (rw (e, a) refl))
      | inr a ↦
          rw (e, a, select_from)
            (Selects-later name p d (select_from m url d) (rw (e, a) refl) (select_from-Selects d))
    ]
  ]

  pub data Chooses : Result Exception VideoProvider → Type 0 where
    chosen : (p : VideoProvider) → Selects m.providers (some p) → Chooses (ok p)
    refused :
        AllEntries Declines m.providers
        → Chooses (err (invalid_url_error (no_provider_message url)))

  Selects-Chooses :
      (o : Option VideoProvider)
      → Selects m.providers o
      → Chooses (elim o as (λ x. Result Exception VideoProvider) [
        | none ↦ err (invalid_url_error (no_provider_message url))
        | some provider ↦ ok provider
      ])
  Selects-Chooses (some p) s = chosen p s
  Selects-Chooses none (nobody h) = refused h

  -- A url goes to the first registered provider that is enabled and accepts it: those before it are
  -- disabled, or refuse it, or raise an exception. If there is none the answer is an
  -- InvalidURLError.
  pub get_provider_for_url_lem : Chooses (get_provider_for_url m url)
  unfolding get_provider_for_url
  get_provider_for_url_lem =
      Selects-Chooses (select_from m url m.providers) (select_from-Selects m.providers)

  all_decline : (d : Dict VideoProvider) → AllEntries Declines d → select_from m url d ≡ none
  unfolding select_from
  all_decline [] h = refl
  all_decline ((name, p) ∷ d) h = ground (arith, all_decline d h.1, h.0)

  pub declined :
      AllEntries Declines m.providers
      → get_provider_for_url m url ≡ err (invalid_url_error (no_provider_message url))
  unfolding get_provider_for_url
  declined h = rw (all_decline m.providers h, get_provider_for_url) refl
