-- ===== src/Config/Load.antt =====
-- internal/config/config.go: Load and LoadAPI. Contiguous parts of Load are functions of their own.
use portfolio_backend.Base.{[], not, ◌||◌, ◌*◌, ◌+◌, ◌-◌, length, ltb, ℕ}
use portfolio_backend.Base.Int.{ℤ, pos, negsuc, leb_ℤ, ltb_ℤ}
use portfolio_backend.Base.Text.{Text, bytes, text_eq}
use portfolio_backend.Config.{
  Duration, HttpConfig, DatabaseConfig, CommentsConfig, RateLimitConfig, Config,
}
use portfolio_backend.Config.Env.{
  required, too_large, too_short, pool_sizes, Loaded, loaded, ◌>>=◌, ◌>>◌, require, Library,
  trimmed_env, env_string, env_int32, env_positive_int, env_duration, env_prefixes,
  access_team_domain,
}

abbrev pub database_author_limit_chars : ℤ
database_author_limit_chars = pos 80

abbrev pub database_comment_limit_chars : ℤ
database_comment_limit_chars = pos 2000

abbrev pub maximum_view_window_hours : ℤ
maximum_view_window_hours = pos (24 * 365)

abbrev pub second : ℕ
second = 1000000000

-- time.Duration(hours) * time.Hour; the bound on the hours excludes an overflow.
abbrev pub hours : ℤ → Duration
hours (pos n) = pos (n * (3600 * second))
hours (negsuc n) = negsuc ((n + 1) * (3600 * second) - 1)

module _ {Prefix : Type 0} (lib : Library Prefix) where
  -- The two pool sizes, maximum first, with the check on them.
  unfoldable pub load_pool : Loaded (ℤ × ℤ)
  load_pool = do
    max_conns ← env_int32 lib (bytes "DB_MAX_CONNS") (pos 5)
    min_conns ← env_int32 lib (bytes "DB_MIN_CONNS") (pos 0)
    require (not (ltb_ℤ min_conns (pos 0) || ltb_ℤ max_conns (pos 1) || ltb_ℤ max_conns min_conns))
        pool_sizes
    loaded (max_conns, min_conns)

  unfoldable pub load_http : Loaded HttpConfig
  load_http = do
    read_header_timeout ← env_duration lib (bytes "HTTP_READ_HEADER_TIMEOUT") (pos (5 * second))
    read_timeout ← env_duration lib (bytes "HTTP_READ_TIMEOUT") (pos (10 * second))
    write_timeout ← env_duration lib (bytes "HTTP_WRITE_TIMEOUT") (pos (10 * second))
    idle_timeout ← env_duration lib (bytes "HTTP_IDLE_TIMEOUT") (pos (60 * second))
    shutdown_timeout ← env_duration lib (bytes "HTTP_SHUTDOWN_TIMEOUT") (pos (15 * second))
    loaded (record {
      address = env_string lib (bytes "HTTP_ADDR") (bytes ":8080");
      read_header_timeout = read_header_timeout;
      read_timeout = read_timeout;
      write_timeout = write_timeout;
      idle_timeout = idle_timeout;
      shutdown_timeout = shutdown_timeout;
    })

  unfoldable pub load_database : Text → ℤ × ℤ → Loaded DatabaseConfig
  load_database url pool = do
    connect_timeout ← env_duration lib (bytes "DB_CONNECT_TIMEOUT") (pos (5 * second))
    readiness_timeout ← env_duration lib (bytes "DB_READINESS_TIMEOUT") (pos 750000000)
    query_timeout ← env_duration lib (bytes "DB_QUERY_TIMEOUT") (pos (3 * second))
    loaded (record {
      url = url;
      password = lib.getenv (bytes "DB_PASSWORD");
      max_conns = pool.0;
      min_conns = pool.1;
      connect_timeout = connect_timeout;
      readiness_timeout = readiness_timeout;
      query_timeout = query_timeout;
    })

  -- A positive integer that must not exceed a maximum.
  unfoldable pub env_at_most : Text → ℤ → ℤ → Loaded ℤ
  env_at_most name fallback maximum = do
    n ← env_positive_int lib name fallback
    require (leb_ℤ n maximum) (too_large name)
    loaded n

  unfoldable pub load_comments : Loaded CommentsConfig
  load_comments = do
    max_author_chars ← env_at_most (bytes "MAX_AUTHOR_CHARS") (pos 80) database_author_limit_chars
    max_comment_chars ←
        env_at_most (bytes "MAX_COMMENT_CHARS") (pos 2000) database_comment_limit_chars
    max_comments_per_post ← env_positive_int lib (bytes "MAX_COMMENTS_PER_POST") (pos 1000)
    loaded (record {
      max_author_chars = max_author_chars;
      max_comment_chars = max_comment_chars;
      max_comments_per_post = max_comments_per_post;
      default_page_size = pos 25;
      maximum_page_size = pos 100;
    })

  unfoldable pub load_rates : Loaded RateLimitConfig
  load_rates = do
    comments_per_minute ← env_positive_int lib (bytes "RATE_COMMENTS_PER_MIN") (pos 5)
    likes_per_minute ← env_positive_int lib (bytes "RATE_LIKES_PER_MIN") (pos 30)
    reads_per_minute ← env_positive_int lib (bytes "RATE_READS_PER_MIN") (pos 60)
    max_keys_per_limiter ← env_positive_int lib (bytes "RATE_LIMIT_MAX_KEYS") (pos 10000)
    loaded (record {
      comments_per_minute = comments_per_minute;
      likes_per_minute = likes_per_minute;
      reads_per_minute = reads_per_minute;
      max_keys_per_limiter = max_keys_per_limiter;
    })

  unfoldable pub load : Loaded (Config Prefix)
  load = do
    let database_url = trimmed_env lib (bytes "DATABASE_URL")
    require (not (text_eq database_url [])) (required (bytes "DATABASE_URL"))
    pool ← load_pool
    http ← load_http
    database ← load_database database_url pool
    comments ← load_comments
    trusted_proxy_cidrs ← env_prefixes lib (bytes "TRUSTED_PROXY_CIDRS")
    view_window_hours ←
        env_at_most (bytes "VIEW_DEDUP_WINDOW_HOURS") (pos 24) maximum_view_window_hours
    team_domain ← access_team_domain lib (lib.getenv (bytes "CF_ACCESS_TEAM_DOMAIN"))
    rates ← load_rates
    loaded (record {
      http = http;
      database = database;
      comments = comments;
      security = record {
        visitor_hmac_key = lib.getenv (bytes "VISITOR_HMAC_KEY");
        trusted_proxy_cidrs = trusted_proxy_cidrs;
      };
      views = record { deduplication_window = hours view_window_hours };
      access = record {
        team_domain = team_domain;
        audience = trimmed_env lib (bytes "CF_ACCESS_AUD");
        admin_email = lib.to_lower (trimmed_env lib (bytes "ADMIN_EMAIL"));
      };
      rates = rates;
    })

  unfoldable pub load_api : Loaded (Config Prefix)
  load_api = do
    config ← load
    require (not (ltb (length config.security.visitor_hmac_key) 32))
        (too_short (bytes "VISITOR_HMAC_KEY"))
    require (not (text_eq config.access.team_domain [])) (required (bytes "CF_ACCESS_TEAM_DOMAIN"))
    require (not (text_eq config.access.audience [])) (required (bytes "CF_ACCESS_AUD"))
    require (not (text_eq config.access.admin_email [])) (required (bytes "ADMIN_EMAIL"))
    loaded config
