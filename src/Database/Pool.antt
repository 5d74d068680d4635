-- ===== src/Database/Pool.antt =====
-- internal/platform/postgres/pool.go: Open. pgx parses the address of the database, and creates the pool: both
-- are parameters, as is the rest of its configuration.
use portfolio_backend.Base.{[], Option, none, some, if◌then◌else◌}
use portfolio_backend.Base.Int.{ℤ}
use portfolio_backend.Base.Text.{Text, text_eq}
use portfolio_backend.Config.{Duration, DatabaseConfig}

-- pgxpool.Config, with what the function sets.
pub record PoolConfig (Rest : Type 0) : Type 0 where
  pub max_conns : ℤ
  pub min_conns : ℤ
  pub connect_timeout : Duration
  pub password : Text
  pub rest : Rest

-- pgxpool.ParseConfig and pgxpool.NewWithConfig
pub record Driver (Rest Pool : Type 0) : Type 0 where
  pub parse_config : Text → Option (PoolConfig Rest)
  pub new_with_config : PoolConfig Rest → Option Pool

-- The configuration with the fields that the function sets; a password that is empty leaves the one of the address.
unfoldable pub configured : {Rest : Type 0} → DatabaseConfig → PoolConfig Rest → PoolConfig Rest
configured c pool = record pool {
  max_conns = c.max_conns;
  min_conns = c.min_conns;
  connect_timeout = c.connect_timeout;
  password = if text_eq c.password [] then pool.password else c.password;
}

unfoldable pub open_pool : {Rest Pool : Type 0} → Driver Rest Pool → DatabaseConfig → Option Pool
open_pool driver c = elim (driver.parse_config c.url) [
  | none ↦ none
  | some pool ↦ driver.new_with_config (configured c pool)
]
