-- ===== src/Config.antt =====
-- internal/config/config.go: the configuration that the environment gives. Parsing of durations,
-- URLs and address prefixes, and strings.ToLower, are the standard library's.
pub mod Env
pub mod Load
pub mod Bounds
pub mod Validity
use portfolio_backend.Base.{List}
use portfolio_backend.Base.Int.{ℤ}
use portfolio_backend.Base.Text.{Text}

-- time.Duration, in nanoseconds
abbrev pub Duration : Type 0
Duration = ℤ

pub record HttpConfig : Type 0 where
  pub address : Text
  pub read_header_timeout : Duration
  pub read_timeout : Duration
  pub write_timeout : Duration
  pub idle_timeout : Duration
  pub shutdown_timeout : Duration

pub record DatabaseConfig : Type 0 where
  pub url : Text
  pub password : Text
  pub max_conns : ℤ
  pub min_conns : ℤ
  pub connect_timeout : Duration
  pub readiness_timeout : Duration
  pub query_timeout : Duration

pub record CommentsConfig : Type 0 where
  pub max_author_chars : ℤ
  pub max_comment_chars : ℤ
  pub max_comments_per_post : ℤ
  pub default_page_size : ℤ
  pub maximum_page_size : ℤ

pub record SecurityConfig (Prefix : Type 0) : Type 0 where
  pub visitor_hmac_key : Text
  pub trusted_proxy_cidrs : List Prefix

pub record ViewsConfig : Type 0 where
  pub deduplication_window : Duration

pub record AccessConfig : Type 0 where
  pub team_domain : Text
  pub audience : Text
  pub admin_email : Text

pub record RateLimitConfig : Type 0 where
  pub comments_per_minute : ℤ
  pub likes_per_minute : ℤ
  pub reads_per_minute : ℤ
  pub max_keys_per_limiter : ℤ

pub record Config (Prefix : Type 0) : Type 0 where
  pub http : HttpConfig
  pub database : DatabaseConfig
  pub comments : CommentsConfig
  pub security : SecurityConfig Prefix
  pub views : ViewsConfig
  pub access : AccessConfig
  pub rates : RateLimitConfig
