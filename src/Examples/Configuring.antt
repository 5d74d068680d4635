-- ===== src/Examples/Configuring.antt =====
-- internal/config and what internal/app makes of it: a loaded configuration.
use portfolio_backend.Base.{true, ◌≡◌, ◌*◌, ◌+◌, refl, [], ◌∷◌, none, some, if◌then◌else◌}
use portfolio_backend.Base.Int.{pos}
use portfolio_backend.Base.Text.{Text, bytes, text_eq, split}
use portfolio_backend.Base.Utf8.{
  decode_rune, runes, runes_after, rune_count, text_of, no_errors, valid_string, is_space,
  skip_spaces, trim_space,
}
use portfolio_backend.Base.Decimal.{digits_value, unsigned, parse_int}
use portfolio_backend.Errors.{ok}
use portfolio_backend.Comments.Store.{CreateInput, new_comment, insert_comment}
use portfolio_backend.Comments.Service.{valid_text, trimmed}
use portfolio_backend.Config.{Config}
use portfolio_backend.Config.Env.{
  Library, loaded, problem, too_large, skip_slashes, trim_slashes, trimmed_env, env_string,
  env_int32, env_positive_int, env_duration, parse_prefixes, env_prefixes, access_team_domain,
}
use portfolio_backend.Config.Load.{
  second, load_pool, load_http, load_database, env_at_most, load_comments, load_rates, load,
  load_api,
}
use portfolio_backend.Config.Validity.{IsValid, IsApiValid, load-IsValid}
use portfolio_backend.App.Limits.{NoZero, insert_comment-trimmed}
use portfolio_backend.Database.Pool.{PoolConfig, Driver, open_pool}
use portfolio_backend.App.Serve.{clean}
use portfolio_backend.Commands.Api.{run, api_main}
use portfolio_backend.Commands.Api.Starts.{api_main-Starts}
use portfolio_backend.Examples.Commenting.{at_noon}

abbrev pub domain : Text
domain = bytes "https://team.example"

-- The environment of a deployment, with one more limit.
abbrev pub environment : Text → Text → Text
environment view_hours name =
    if text_eq name (bytes "DATABASE_URL")
    then bytes "postgres://db"
    else if text_eq name (bytes "CF_ACCESS_TEAM_DOMAIN")
    then bytes "https://team.example/"
    else if text_eq name (bytes "CF_ACCESS_AUD")
    then bytes "aud"
    else if text_eq name (bytes "ADMIN_EMAIL")
    then bytes "me@example"
    else if text_eq name (bytes "VISITOR_HMAC_KEY")
    then bytes "0123456789abcdef0123456789abcdef"
    else if text_eq name (bytes "MAX_AUTHOR_CHARS")
    then bytes " 40 "
    else if text_eq name (bytes "VIEW_DEDUP_WINDOW_HOURS")
    then view_hours
    else []

-- The parsers know the inputs of these runs.
abbrev pub library : Text → Library Text
library view_hours = record {
  getenv = environment view_hours;
  parse_duration = λ t. none;
  parse_url = λ t.
      if text_eq t domain
      then some (record {
        scheme = bytes "https";
        host = bytes "team.example";
        path = [];
        raw_query = [];
        fragment = [];
      })
      else none;
  parse_prefix = λ t. some t;
  masked = λ p. p;
  to_lower = λ t. t;
}

unfoldable pub program : Unit {0}
unfolding text_eq split decode_rune runes runes_after rune_count text_of no_errors valid_string
    is_space skip_spaces trim_space digits_value unsigned parse_int skip_slashes trim_slashes
    trimmed_env env_string env_int32 env_positive_int env_duration parse_prefixes env_prefixes
    access_team_domain load_pool load_http load_database env_at_most load_comments load_rates load
    load_api
program = tt

abbrev pub configuration : Config Text
configuration = record {
  http = record {
    address = bytes ":8080";
    read_header_timeout = pos (5 * second);
    read_timeout = pos (10 * second);
    write_timeout = pos (10 * second);
    idle_timeout = pos (60 * second);
    shutdown_timeout = pos (15 * second);
  };
  database = record {
    url = bytes "postgres://db";
    password = [];
    max_conns = pos 5;
    min_conns = pos 0;
    connect_timeout = pos (5 * second);
    readiness_timeout = pos 750000000;
    query_timeout = pos (3 * second);
  };
  comments = record {
    max_author_chars = pos 40;
    max_comment_chars = pos 2000;
    max_comments_per_post = pos 1000;
    default_page_size = pos 25;
    maximum_page_size = pos 100;
  };
  security = record {
    visitor_hmac_key = bytes "0123456789abcdef0123456789abcdef";
    trusted_proxy_cidrs = [];
  };
  views = record { deduplication_window = pos (48 * (3600 * second)) };
  access = record {
    team_domain = domain;
    audience = bytes "aud";
    admin_email = bytes "me@example";
  };
  rates = record {
    comments_per_minute = pos 5;
    likes_per_minute = pos 30;
    reads_per_minute = pos 60;
    max_keys_per_limiter = pos 10000;
  };
}

pub configuration-loaded : load (library (bytes "48")) ≡ loaded configuration
unfolding program
configuration-loaded = refl

api-loaded : load_api (library (bytes "48")) ≡ loaded configuration
unfolding program
api-loaded = refl

-- A year and an hour.
window_refused :
    load (library (bytes "8761")) ≡ problem (too_large (bytes "VIEW_DEDUP_WINDOW_HOURS"))
unfolding program
window_refused = refl

load-IsValid_example : IsValid (library (bytes "48")) configuration
load-IsValid_example = load-IsValid (library (bytes "48")) configuration-loaded

abbrev greeting : CreateInput
greeting = record {
  post_slug = bytes "a-post";
  author_name = bytes " Ada ";
  body = bytes "Hello";
  visitor_hash = 7;
}

name_valid : valid_text (trim_space greeting.author_name) (pos 40) ≡ true
unfolding program valid_text
name_valid = refl

body_valid : valid_text (trim_space greeting.body) (pos 2000) ≡ true
unfolding program valid_text
body_valid = refl

name_clean : NoZero (trim_space greeting.author_name)
unfolding program
name_clean = refl

body_clean : NoZero (trim_space greeting.body)
unfolding program
body_clean = refl

insert_comment-trimmed_example :
    let row = new_comment (trimmed greeting) 12 at_noon.db in
    insert_comment (trimmed greeting) 12 at_noon.db
    ≡ ok (
      row,
      record at_noon.db {
        comments = row ∷ at_noon.db.comments;
        next_comment_id = at_noon.db.next_comment_id + 1;
      },
    )
insert_comment-trimmed_example =
    insert_comment-trimmed (library (bytes "48")) {c = configuration} configuration-loaded greeting
      12 at_noon.db name_valid body_valid name_clean body_clean

-- The driver takes any address, and every address can be listened on.
abbrev driver : Driver (Unit {0}) (PoolConfig (Unit {0}))
driver = record {
  parse_config = λ url. some (record {
    max_conns = pos 4;
    min_conns = pos 0;
    connect_timeout = pos 0;
    password = [];
    rest = tt;
  });
  new_with_config = λ pool. some pool;
}

exits :
    api_main driver (λ address. true) (λ server timeout. clean) (some (library (bytes "48"))) ≡ 0
unfolding program api_main run open_pool
exits = refl

api_main-Starts_example :
    (c : Config Text) × (load_api (library (bytes "48")) ≡ loaded c)
    × IsApiValid (library (bytes "48")) c
    × ((pool : PoolConfig (Unit {0})) × (open_pool driver c.database ≡ some pool))
    × (true ≡ true)
    × (clean ≡ clean)
api_main-Starts_example =
    api_main-Starts driver (λ address. true) (λ server timeout. clean) (library (bytes "48")) exits
