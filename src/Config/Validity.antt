-- ===== src/Config/Validity.antt =====
-- What Load and LoadAPI promise of the configuration that they return.
use portfolio_backend.Base.{
  not, ◌↔◌, ◌*◌, ◌≤◌, ◌≡◌, ◌⊎◌, inl, inr, refl, [], Bool, true, false, length, arith, Bool-cases,
}
use portfolio_backend.Base.Int.{ℤ, pos, negsuc, ◌≤ℤ◌}
use portfolio_backend.Base.Text.{Text, text_eq}
use portfolio_backend.Base.Utf8.{trim_space}
use portfolio_backend.Config.{Config}
use portfolio_backend.Config.Env.{
  Problem, Loaded, loaded, problem, ◌>>◌, require, Library, trimmed_env, trim_slashes, is_origin,
  access_team_domain, env_prefixes,
}
use portfolio_backend.Config.Load.{
  load_pool, load_http, load_database, env_at_most, load_comments, load_rates, load, load_api,
  second, hours,
}
use portfolio_backend.Config.Bounds.{
  HttpBounds, DatabaseBounds, CommentsBounds, RateBounds, Within, Ensures, Ensures-bind,
  Ensures-loaded, load_http-HttpBounds, load_database-DatabaseBounds, load_comments-CommentsBounds,
  load_rates-RateBounds, env_at_most-Within, load_pool-PoolSizes,
}

Ensures-any {ℓ} : {A : Type ℓ} (m : Loaded A) → Ensures (λ _. Unit {0}) m
Ensures-any (loaded a) = tt
Ensures-any (problem p) = tt

Loaded-cases {ℓ} :
    {A : Type ℓ} (m : Loaded A) → ((a : A) × (m ≡ loaded a)) ⊎ ((p : Problem) × (m ≡ problem p))
Loaded-cases (loaded a) = inl (a, refl)
Loaded-cases (problem p) = inr (p, refl)

module _ {Prefix : Type 0} (lib : Library Prefix) where
  -- Unset, or an HTTPS origin.
  abbrev pub OriginOrNone : Text → Type 0
  OriginOrNone domain = (text_eq domain [] ≡ true) ⊎ (is_origin (lib.parse_url domain) ≡ true)

  pub record IsValid (c : Config Prefix) : Type 0 where
    pub http : HttpBounds c.http
    pub database : DatabaseBounds c.database
    pub comments : CommentsBounds c.comments
    pub rates : RateBounds c.rates
    pub window_low : pos (3600 * second) ≤ℤ c.views.deduplication_window
    pub window_high : c.views.deduplication_window ≤ℤ pos (24 * 365 * (3600 * second))
    pub domain : OriginOrNone c.access.team_domain

  -- The API needs a key of 32 bytes or more, and who its administrator is.
  pub record IsApiValid (c : Config Prefix) : Type 0 where
    pub valid : IsValid c
    pub key_length : 32 ≤ length c.security.visitor_hmac_key
    pub has_origin : is_origin (lib.parse_url c.access.team_domain) ≡ true
    pub has_audience : text_eq c.access.audience [] ≡ false
    pub has_admin : text_eq c.access.admin_email [] ≡ false

  access_team_domain-OriginOrNone :
      (value : Text) → Ensures OriginOrNone (access_team_domain lib value)
  unfolding access_team_domain
  access_team_domain-OriginOrNone value =
      let domain = trim_slashes (trim_space value) in
      elim (Bool-cases (text_eq domain [])) [
        | inl unset ↦ rw unset (inl (unfold text_eq in refl))
        | inr given ↦ elim (Bool-cases (is_origin (lib.parse_url domain))) [
          | inl origin ↦ rw (given, origin) (inr origin)
          | inr other ↦ rw (given, other) tt
        ]
      ]

  hours-window :
      (n : ℤ)
      → Within (24 * 365) n
      → (pos (3600 * second) ≤ℤ hours n) × (hours n ≤ℤ pos (24 * 365 * (3600 * second)))
  hours-window (pos n) w = omega arith
  hours-window (negsuc n) w = absurd (omega arith)

  Ensures-require {ℓ} :
      {B : Type ℓ} (P : B → Type 0) (test : Bool) (p : Problem) (m : Loaded B)
      → (test ≡ true → Ensures P m)
      → Ensures P (require test p >> m)
  Ensures-require P true p m k = k refl
  Ensures-require P false p m k = tt

  not_empty : (t : Text) → not (text_eq t []) ≡ true → text_eq t [] ≡ false
  not_empty t h = ground arith

  load-Ensures : Ensures IsValid (load lib)
  unfolding load
  load-Ensures = Ensures-require IsValid (not (text_eq (trimmed_env lib _) [])) _ _ (λ given.
      Ensures-bind _ IsValid (load_pool lib) _ (load_pool-PoolSizes lib) (λ sizes ok_sizes.
        Ensures-bind HttpBounds IsValid (load_http lib) _ (load_http-HttpBounds lib)
          (λ http ok_http.
            Ensures-bind DatabaseBounds IsValid (load_database lib _ sizes) _
              (load_database-DatabaseBounds lib _ sizes (not_empty _ given) ok_sizes)
              (λ database ok_database.
                Ensures-bind CommentsBounds IsValid (load_comments lib) _
                  (load_comments-CommentsBounds lib)
                  (λ comments ok_comments.
                    Ensures-bind (λ _. Unit {0}) IsValid (env_prefixes lib _) _
                      (Ensures-any (env_prefixes lib _))
                      (λ proxies _.
                        Ensures-bind (Within (24 * 365)) IsValid (env_at_most lib _ (pos 24) _) _
                          (env_at_most-Within lib _ 23 (24 * 365))
                          (λ window ok_window.
                            Ensures-bind OriginOrNone IsValid (access_team_domain lib _) _
                              (access_team_domain-OriginOrNone _)
                              (λ domain ok_domain.
                                Ensures-bind RateBounds IsValid (load_rates lib) _
                                  (load_rates-RateBounds lib)
                                  (λ rates ok_rates. record {
                                    http = ok_http;
                                    database = ok_database;
                                    comments = ok_comments;
                                    rates = ok_rates;
                                    window_low = (hours-window window ok_window).0;
                                    window_high = (hours-window window ok_window).1;
                                    domain = ok_domain;
                                  })))))))))

  -- A configuration that Load returns is within its bounds: positive timeouts, pool sizes in order and in 32 bits,
  -- text limits between 1 and those of the database, a page size that the maximum allows, positive rates, a view
  -- window of an hour to a year, and a team domain that is unset or an HTTPS origin.
  pub load-IsValid : {c : Config Prefix} → load lib ≡ loaded c → IsValid c
  load-IsValid e = Ensures-loaded IsValid (load lib) load-Ensures e

  -- LoadAPI returns exactly the configurations of Load that have a key of 32 bytes or more and a
  -- team domain, an audience and an administrator.
  pub load_api_iff :
      (c : Config Prefix)
      → (load_api lib ≡ loaded c) ↔ (
          (load lib ≡ loaded c)
          × (32 ≤ length c.security.visitor_hmac_key)
          × (text_eq c.access.team_domain [] ≡ false)
          × (text_eq c.access.audience [] ≡ false)
          × (text_eq c.access.admin_email [] ≡ false))
  unfolding load_api
  load_api_iff c = elim (Loaded-cases (load lib)) [
    | inl (d, e) ↦ (λ h. ground arith, λ h. ground arith)
    | inr (p, e) ↦ (λ h. ground arith, λ h. ground arith)
  ]

  pub load_api-IsApiValid : {c : Config Prefix} → load_api lib ≡ loaded c → IsApiValid c
  load_api-IsApiValid {c = c} e =
      let parts = (load_api_iff c).0 e in
      let valid = load-IsValid (parts.0) in
      record {
        valid = valid;
        key_length = parts.1;
        has_audience = parts.3;
        has_admin = parts.4;
        has_origin = elim (valid.domain) [ inl unset ↦ cc | inr origin ↦ origin ];
      }
