-- ===== src/Config/Bounds.antt =====
-- What a configuration that loads is known to satisfy.
use portfolio_backend.Base.{
  ◌-◌, ◌∷◌, suc, ℕ, ◌*◌, ◌<◌, ◌≡◌, inl, inr, [], false, arith, Bool-cases, Option-cases, some,
}
use mathlib.Core.Path.{subst}
use portfolio_backend.Base.Int.{ℤ, pos, negsuc, ◌≤ℤ◌}
use portfolio_backend.Base.Text.{Text, text_eq}
use portfolio_backend.Base.Decimal.{parse_int, int32_bound}
use portfolio_backend.Config.{Duration, HttpConfig, DatabaseConfig, CommentsConfig, RateLimitConfig}
use portfolio_backend.Config.Env.{
  Loaded, loaded, problem, ◌>>=◌, Library, trimmed_env, env_int32, env_positive_int, env_duration,
}
use portfolio_backend.Config.Load.{
  load_pool, load_http, load_database, env_at_most, load_comments, load_rates, second,
}

abbrev pub IsPositive : ℤ → Type 0
IsPositive n = pos 1 ≤ℤ n

-- A positive integer at most the maximum.
abbrev pub Within : ℕ → ℤ → Type 0
Within maximum n = IsPositive n × (n ≤ℤ pos maximum)

-- What holds of a value if it is loaded.
abbrev pub Ensures {ℓ κ} : {A : Type ℓ} → (A → Type κ) → Loaded A → Type κ
Ensures P (loaded a) = P a
Ensures P (problem p) = Unit

pub Ensures-bind {ℓ κ} :
    {A B : Type ℓ} (Q : A → Type κ) (P : B → Type κ) (m : Loaded A) (f : A → Loaded B)
    → Ensures Q m
    → ((a : A) → Q a → Ensures P (f a))
    → Ensures P (m >>= f)
Ensures-bind Q P (loaded a) f q k = k a q
Ensures-bind Q P (problem p) f q k = tt

pub Ensures-loaded {ℓ κ} :
    {A : Type ℓ} (P : A → Type κ) (m : Loaded A) {a : A} → Ensures P m → m ≡ loaded a → P a
Ensures-loaded P (loaded b) q e = subst (Ensures P) e q
Ensures-loaded P (problem p) q e = cc

-- The integers of `bound`: 2 ^ 31 for 32 bits.
abbrev pub InRange : ℕ → ℤ → Type 0
InRange bound n = (n ≤ℤ pos (bound - 1)) × (negsuc (bound - 1) ≤ℤ n)

parse_int-InRange :
    (bound : ℕ) (t : Text) {n : ℤ} → 0 < bound → parse_int bound t ≡ some n → InRange bound n
unfolding parse_int
parse_int-InRange bound [] h e = cc
parse_int-InRange bound (b ∷ bs) h e = ground arith

-- 0 <= minimum <= maximum, and 1 <= maximum, in 32 bits.
pub record PoolSizes (max_conns min_conns : ℤ) : Type 0 where
  pub nonnegative : pos 0 ≤ℤ min_conns
  pub ordered : min_conns ≤ℤ max_conns
  pub some_conns : IsPositive max_conns
  pub narrow : max_conns ≤ℤ pos (int32_bound - 1)

pub record HttpBounds (c : HttpConfig) : Type 0 where
  pub read_header : IsPositive c.read_header_timeout
  pub read : IsPositive c.read_timeout
  pub write : IsPositive c.write_timeout
  pub idle : IsPositive c.idle_timeout
  pub shutdown : IsPositive c.shutdown_timeout

pub record DatabaseBounds (c : DatabaseConfig) : Type 0 where
  pub connect : IsPositive c.connect_timeout
  pub readiness : IsPositive c.readiness_timeout
  pub query : IsPositive c.query_timeout
  pub pool : PoolSizes c.max_conns c.min_conns
  pub has_url : text_eq c.url [] ≡ false

pub record CommentsBounds (c : CommentsConfig) : Type 0 where
  pub author : Within 80 c.max_author_chars
  pub comment : Within 2000 c.max_comment_chars
  pub per_post : IsPositive c.max_comments_per_post
  pub page : IsPositive c.default_page_size
  pub pages : c.default_page_size ≤ℤ c.maximum_page_size

pub record RateBounds (c : RateLimitConfig) : Type 0 where
  pub comment : IsPositive c.comments_per_minute
  pub like : IsPositive c.likes_per_minute
  pub read : IsPositive c.reads_per_minute
  pub max_keys : IsPositive c.max_keys_per_limiter

module _ {Prefix : Type 0} (lib : Library Prefix) where
  env_positive_int-IsPositive :
      (name : Text) (n : ℕ) → Ensures IsPositive (env_positive_int lib name (pos (suc n)))
  unfolding env_positive_int
  env_positive_int-IsPositive name n = ground arith

  env_duration-IsPositive :
      (name : Text) (n : ℕ) → 0 < n → Ensures IsPositive (env_duration lib name (pos n))
  unfolding env_duration
  env_duration-IsPositive name n h = ground arith

  env_int32-InRange :
      (name : Text) (n : ℕ)
      → n < int32_bound
      → Ensures (InRange int32_bound) (env_int32 lib name (pos n))
  unfolding env_int32
  env_int32-InRange name n h = elim (Bool-cases (text_eq (trimmed_env lib name) [])) [
    | inl unset ↦ rw unset (omega arith)
    | inr set ↦ elim (Option-cases (parse_int int32_bound (trimmed_env lib name))) [
      | inl bad ↦ rw (set, bad) tt
      | inr (n, good) ↦
          rw (set, good) (parse_int-InRange int32_bound (trimmed_env lib name) (omega arith) good)
    ]
  ]

  pub env_at_most-Within :
      (name : Text) (n maximum : ℕ)
      → Ensures (Within maximum) (env_at_most lib name (pos (suc n)) (pos maximum))
  unfolding env_at_most
  env_at_most-Within name n maximum =
      Ensures-bind IsPositive (Within maximum) (env_positive_int lib name (pos (suc n))) _
        (env_positive_int-IsPositive name n) (λ a positive. ground arith)

  pub load_pool-PoolSizes : Ensures (λ sizes. PoolSizes sizes.0 sizes.1) (load_pool lib)
  unfolding load_pool
  load_pool-PoolSizes =
      Ensures-bind (InRange int32_bound) _ (env_int32 lib _ (pos 5)) _
        (env_int32-InRange _ 5 (omega arith))
        (λ hi in_range.
          Ensures-bind (InRange int32_bound) _ (env_int32 lib _ (pos 0)) _
            (env_int32-InRange _ 0 (omega arith)) (λ lo _. ground arith))

  module _ {B : Type 0} (P : B → Type 0) where
    with_duration :
        (name : Text) (n : ℕ) (f : Duration → Loaded B)
        → 0 < n
        → ((a : Duration) → IsPositive a → Ensures P (f a))
        → Ensures P (env_duration lib name (pos n) >>= f)
    with_duration name n f h k =
        Ensures-bind IsPositive P (env_duration lib name (pos n)) f
          (env_duration-IsPositive name n h) k

    with_int :
        (name : Text) (n : ℕ) (f : ℤ → Loaded B)
        → ((a : ℤ) → IsPositive a → Ensures P (f a))
        → Ensures P (env_positive_int lib name (pos (suc n)) >>= f)
    with_int name n f k =
        Ensures-bind IsPositive P (env_positive_int lib name (pos (suc n))) f
          (env_positive_int-IsPositive name n) k

  pub load_http-HttpBounds : Ensures HttpBounds (load_http lib)
  unfolding load_http
  load_http-HttpBounds = with_duration HttpBounds _ (5 * second) _ (omega arith) (λ a pa.
      with_duration HttpBounds _ (10 * second) _ (omega arith) (λ b pb.
        with_duration HttpBounds _ (10 * second) _ (omega arith) (λ c pc.
          with_duration HttpBounds _ (60 * second) _ (omega arith) (λ d pd.
            with_duration HttpBounds _ (15 * second) _ (omega arith) (λ e pe. record {
              read_header = pa;
              read = pb;
              write = pc;
              idle = pd;
              shutdown = pe;
            })))))

  pub load_database-DatabaseBounds :
      (url : Text) (sizes : ℤ × ℤ)
      → text_eq url [] ≡ false
      → PoolSizes sizes.0 sizes.1
      → Ensures DatabaseBounds (load_database lib url sizes)
  unfolding load_database
  load_database-DatabaseBounds url sizes given ok_sizes =
      with_duration DatabaseBounds _ (5 * second) _ (omega arith) (λ a pa.
        with_duration DatabaseBounds _ 750000000 _ (omega arith) (λ b pb.
          with_duration DatabaseBounds _ (3 * second) _ (omega arith) (λ c pc. record {
            connect = pa;
            readiness = pb;
            query = pc;
            pool = ok_sizes;
            has_url = given;
          })))

  pub load_comments-CommentsBounds : Ensures CommentsBounds (load_comments lib)
  unfolding load_comments
  load_comments-CommentsBounds =
      Ensures-bind (Within 80) CommentsBounds (env_at_most lib _ (pos 80) _) _
        (env_at_most-Within _ 79 80)
        (λ a pa.
          Ensures-bind (Within 2000) CommentsBounds (env_at_most lib _ (pos 2000) _) _
            (env_at_most-Within _ 1999 2000)
            (λ b pb. with_int CommentsBounds _ 999 _ (λ c pc. record {
              author = pa;
              comment = pb;
              per_post = pc;
              page = omega arith;
              pages = omega arith;
            })))

  pub load_rates-RateBounds : Ensures RateBounds (load_rates lib)
  unfolding load_rates
  load_rates-RateBounds = with_int RateBounds _ 4 _ (λ a pa. with_int RateBounds _ 29 _ (λ b pb.
      with_int RateBounds _ 59 _ (λ c pc.
        with_int RateBounds _ 9999 _
          (λ d pd. record { comment = pa; like = pb; read = pc; max_keys = pd }))))
