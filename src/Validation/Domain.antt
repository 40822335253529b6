-- ===== src/Validation/Domain.antt =====
-- The urls that `URLValidator` of app/core/validation.py accepts.
use yt_dlp_api.Prelude.{
  ℕ, Bool, true, false, Option, none, some, List, [], ◌∷◌, ◌∙◌, ◌≡◌, ◌≢◌, ◌↔◌, refl, ap, sym, subst,
  All, inl, inr, Bool-cases,
}
use yt_dlp_api.Prelude.Chars.{Text, text_in, text_eq, text_eq_sound, strip}
use yt_dlp_api.Validation.{
  accepted, SplitUrl, dangerous_schemes, web_schemes, netloc_of, domain_from, check_domain,
  check_url, parsed_url, stripped_url, validate,
}

-- What holds of each text of a list holds of one that is in it.
in_all {ℓ} : (P : Text → Type ℓ) (s : Text) (ts : List Text) → text_in s ts ≡ true → All P ts → P s
in_all P s [] h a = absurd cc
in_all P s (t ∷ ts) h a = elim (Bool-cases (text_eq s t)) [
  | inl e ↦ subst P (sym (text_eq_sound s t e)) a.0
  | inr e ↦ in_all P s ts (rw e at h) a.1
]

strip_nil : (p : ℕ → Bool) → strip p [] ≡ []
unfolding strip
strip_nil p = refl

-- No dangerous scheme is one of the web.
web_not_dangerous : (s : Text) → text_in s web_schemes ≡ true → text_in s dangerous_schemes ≡ false
web_not_dangerous s h =
    in_all (λ t. text_in t dangerous_schemes ≡ false) s web_schemes h (refl, (refl, (refl, tt)))

module _ (urlparse : Text → Option SplitUrl) (lower : Text → Text) (is_space : ℕ → Bool) where
  -- What the url `url`, stripped, has to be.
  pub record IsAllowed (allowed : List Text) (url : Text) : Type 0 where
    pub not_empty : url ≢ []
    pub parsed : SplitUrl
    pub parses : urlparse url ≡ some parsed
    pub web_scheme : text_in (lower parsed.scheme) web_schemes ≡ true
    pub has_netloc : netloc_of urlparse lower is_space parsed ≢ []
    pub on_list :
        text_in
          (domain_from urlparse lower is_space parsed.hostname
            (netloc_of urlparse lower is_space parsed))
          allowed
        ≡ true

  domain_allowed :
      (allowed : List Text) (url : Text) (parsed : SplitUrl) (n : Text)
      → n ≢ []
      → text_in (domain_from urlparse lower is_space parsed.hostname n) allowed ≡ true
      → check_domain urlparse lower is_space allowed url parsed n ≡ accepted url
  domain_allowed allowed url parsed [] ne h = absurd (ne refl)
  domain_allowed allowed url parsed (c ∷ cs) ne h = rw h refl

  IsAllowed-accepted :
      (allowed : List Text) (url : Text) (a : IsAllowed allowed url)
      → check_url urlparse lower is_space allowed url a.parsed ≡ accepted url
  unfolding check_url
  IsAllowed-accepted allowed url a = rw (web_not_dangerous (lower a.parsed.scheme) a.web_scheme) (
      rw (a.web_scheme) (
        domain_allowed allowed url a.parsed (netloc_of urlparse lower is_space a.parsed)
          a.has_netloc a.on_list))

  -- What an accepted answer tells.
  domain_of_accepted :
      (allowed : List Text) (url : Text) (parsed : SplitUrl) (n v : Text)
      → check_domain urlparse lower is_space allowed url parsed n ≡ accepted v
      → (v ≡ url)
        × (n ≢ [])
        × (text_in (domain_from urlparse lower is_space parsed.hostname n) allowed ≡ true)
  domain_of_accepted allowed url parsed [] v h = absurd cc
  domain_of_accepted allowed url parsed (c ∷ cs) v h =
      elim (Bool-cases
        (text_in (domain_from urlparse lower is_space parsed.hostname (c ∷ cs)) allowed)) [
          | inl e ↦ let k : accepted url ≡ accepted v = rw e at h in (cc, (λ n. cc), e)
          | inr e ↦ absurd (let k = rw e at h in cc)
        ]

  accepted-IsAllowed :
      (allowed : List Text) (url v : Text) (parsed : SplitUrl)
      → url ≢ []
      → urlparse url ≡ some parsed
      → check_url urlparse lower is_space allowed url parsed ≡ accepted v
      → (v ≡ url) × IsAllowed allowed url
  unfolding check_url
  accepted-IsAllowed allowed url v parsed ne p h =
      elim (Bool-cases (text_in (lower parsed.scheme) web_schemes)) [
        | inr e ↦ elim (Bool-cases (text_in (lower parsed.scheme) dangerous_schemes)) [
          | inl d ↦ absurd (let k = rw d at h in cc)
          | inr d ↦ absurd (let k = rw (d, e) at h in cc)
        ]
        | inl e ↦
            let k = rw (web_not_dangerous (lower parsed.scheme) e, e) at h in
            let (same, n, on) =
              domain_of_accepted allowed url parsed (netloc_of urlparse lower is_space parsed) v
                k in
            (
              same,
              record {
                not_empty = ne;
                parsed = parsed;
                parses = p;
                web_scheme = e;
                has_netloc = n;
                on_list = on;
              },
            )
      ]

  stripped_accepted :
      (allowed : List Text) (url v : Text) (o : Option SplitUrl)
      → url ≢ []
      → urlparse url ≡ o
      → parsed_url urlparse lower is_space allowed url o ≡ accepted v
      → (v ≡ url) × IsAllowed allowed url
  stripped_accepted allowed url v none ne p h = absurd cc
  stripped_accepted allowed url v (some parsed) ne p h =
      accepted-IsAllowed allowed url v parsed ne p h

  stripped-IsAllowed :
      (allowed : List Text) (url v : Text)
      → stripped_url urlparse lower is_space allowed url ≡ accepted v
      → (v ≡ url) × IsAllowed allowed url
  stripped-IsAllowed allowed [] v h = absurd cc
  stripped-IsAllowed allowed (c ∷ cs) v h =
      stripped_accepted allowed (c ∷ cs) v (urlparse (c ∷ cs)) (λ n. cc) refl h

  IsAllowed-stripped :
      (allowed : List Text) (url : Text)
      → IsAllowed allowed url
      → stripped_url urlparse lower is_space allowed url ≡ accepted url
  IsAllowed-stripped allowed [] a = absurd (a.not_empty refl)
  IsAllowed-stripped allowed (c ∷ cs) a = rw (a.parses) (IsAllowed-accepted allowed (c ∷ cs) a)

  validate-IsAllowed :
      (allowed : List Text) (url v : Text)
      → validate urlparse lower is_space allowed url ≡ accepted v
      → (v ≡ strip is_space url) × IsAllowed allowed (strip is_space url)
  unfolding validate
  validate-IsAllowed allowed [] v h = absurd cc
  validate-IsAllowed allowed (x ∷ xs) v h = stripped-IsAllowed allowed (strip is_space (x ∷ xs)) v h

  IsAllowed-validate :
      (allowed : List Text) (url : Text)
      → IsAllowed allowed (strip is_space url)
      → validate urlparse lower is_space allowed url ≡ accepted (strip is_space url)
  unfolding validate
  IsAllowed-validate allowed [] a = absurd (a.not_empty (strip_nil is_space))
  IsAllowed-validate allowed (x ∷ xs) a = IsAllowed-stripped allowed (strip is_space (x ∷ xs)) a

  -- A url is accepted, stripped, exactly if it is not blank, `urlparse` takes it apart, its scheme in
  -- lower case is http, https or none, and the domain that is made of its host, or else of its
  -- network location or the start of its path, is one of the allowed domains.
  pub validate_exact :
      (allowed : List Text) (url v : Text)
      → (validate urlparse lower is_space allowed url ≡ accepted v)
        ↔ ((v ≡ strip is_space url) × IsAllowed allowed (strip is_space url))
  validate_exact allowed url v = (
    validate-IsAllowed allowed url v,
    λ (e, a). IsAllowed-validate allowed url a ∙ ap accepted (sym e),
  )
