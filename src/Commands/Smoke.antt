-- ===== src/Commands/Smoke.antt =====
-- cmd/smoke/main.go: the checks of a deployed backend. The server is a state that answers requests; parsing of URLs
-- and JSON, files, and the escaping of a path segment are parameters.
pub mod Workflow
use portfolio_backend.Base.{
  ℕ, List, [], ◌∷◌, ◌++◌, Bool, true, false, not, ◌&&◌, ◌||◌, ◌*◌, Option, none, some, any, length,
  ltb, leb, ◌==◌, if◌then◌else◌,
}
use portfolio_backend.Base.Int.{ℤ, pos, leb_ℤ, eq_ℤ}
use portfolio_backend.Base.Text.{Text, bytes, text_eq}
use portfolio_backend.Base.Utf8.{trim_space}
use portfolio_backend.Base.Decimal.Printing.{decimal}
use portfolio_backend.Config.Env.{Url, trim_slashes}
use portfolio_backend.Http.Router.{Method, get, post, put, delete}

abbrev pub max_response_bytes : ℕ
max_response_bytes = 64 * 1024

pub record SmokeConfig : Type 0 where
  pub public_url : Url
  pub admin_origin_url : Url
  pub admin_edge_url : Option Url
  pub post_slug : Text
  pub assertion : Text

-- How the HTTP client treats redirects: it follows them, or answers with the last response.
pub data Client : Type 0 where
  follows_redirects keeps_redirects : Client

pub record Requester : Type 0 where
  pub client : Client
  pub base : Url
  pub assertion : Text

-- The fields of a JSON object.
abbrev pub Fields : Type 0
Fields = List (Text × Text)

pub record Request : Type 0 where
  pub client : Client
  pub method : Method
  pub url : Url
  pub fields : Option Fields
  pub assertion : Text

pub record Answer : Type 0 where
  pub status : ℕ
  pub body : Text

-- strings.SplitN(path, "?", 2)
unfoldable pub cut_query : Text → Text × Option Text
cut_query [] = ([], none)
cut_query (b ∷ bs) =
    let rest = cut_query bs in if b == b'?' then ([], some bs) else (b ∷ rest.0, rest.1)

unfoldable pub endpoint : Url → Text → Url
endpoint base path = record base {
  path = trim_slashes base.path ++ (cut_query path).0;
  raw_query = elim (cut_query path).1 [ none ↦ base.raw_query | some query ↦ query ];
}

abbrev pub request_of : Requester → Method → Text → Option Fields → Request
request_of r method path fields = record {
  client = r.client;
  method = method;
  url = endpoint r.base path;
  fields = fields;
  assertion = r.assertion;
}

abbrev pub is_http : Url → Bool
is_http u = text_eq u.scheme (bytes "http") || text_eq u.scheme (bytes "https")

abbrev pub is_bare : Url → Bool
is_bare u =
    not (text_eq u.scheme [] || text_eq u.host [])
    && (text_eq u.raw_query [] && text_eq u.fragment [])

module _ (parse_url : Text → Option Url) where
  unfoldable pub parse_base_url : Text → Option Url
  parse_base_url raw = elim (parse_url raw) [
    | none ↦ none
    | some u ↦
        if is_bare u && is_http u then some (record u { path = trim_slashes u.path }) else none
  ]

  -- The optional edge URL: `none` inside says that it is not given.
  unfoldable pub parse_edge_url : Text → Option (Option Url)
  parse_edge_url raw =
      if text_eq raw []
      then some none
      else elim (parse_base_url raw) [ none ↦ none | some u ↦ some (some u) ]

-- The text of the assertion file.
unfoldable pub checked_assertion : Option Text → Option Text
checked_assertion none = none
checked_assertion (some contents) =
    let assertion = trim_space contents in
    if text_eq assertion [] || ltb (16 * 1024) (length assertion) then none else some assertion

infixl 5 ◌>>=◌
abbrev pub ◌>>=◌ {ℓ κ} : {A : Type ℓ} {B : Type κ} → Option A → (A → Option B) → Option B
◌>>=◌ none continue = none
◌>>=◌ (some a) continue = continue a

abbrev pub unless : Bool → Option (Unit {0})
unless failed = if failed then none else some tt

module _ (parse_url : Text → Option Url) (read_file : Text → Option Text) where
  unfoldable pub parse_config : Text → Text → Text → Text → Text → Option SmokeConfig
  parse_config public_raw admin_origin_raw admin_edge_raw post_slug assertion_file = do
    public_url ← parse_base_url parse_url public_raw
    admin_origin_url ← parse_base_url parse_url admin_origin_raw
    admin_edge_url ← parse_edge_url parse_url admin_edge_raw
    named ← unless (text_eq (trim_space post_slug) [] || text_eq assertion_file [])
    assertion ← checked_assertion (read_file assertion_file)
    some (record {
      public_url = public_url;
      admin_origin_url = admin_origin_url;
      admin_edge_url = admin_edge_url;
      post_slug = post_slug;
      assertion = assertion;
    })
