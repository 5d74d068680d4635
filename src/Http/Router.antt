-- ===== src/Http/Router.antt =====
-- internal/httpapi/router.go: the routes with their middleware, and internal/httpapi/middleware as they stand before
-- a handler. Which route a request takes is chi's.
pub mod Guards
use portfolio_backend.Base.{
  ℕ, List, [], ◌∷◌, ◌++◌, Bool, ◌&&◌, ◌||◌, Option, none, some, map, if◌then◌else◌,
}
use portfolio_backend.Base.Text.{Text, bytes}
use portfolio_backend.Errors.{Result}
use portfolio_backend.AdminAuth.Claims.{Principal}
use portfolio_backend.Http.{Response, plain_text, write_json, Handler}
use portfolio_backend.Http.Admin.{authenticate}

pub data Method : Type 0 where
  get post put delete any_method : Method

-- The middleware of a group.
pub data Guard : Type 0 where
  client_ip admin_access : Guard

pub data Endpoint : Type 0 where
  healthz readyz list_comments get_stats create_comment record_view like unlike : Endpoint
  admin_list admin_hide admin_unhide not_found : Endpoint

pub record Route : Type 0 where
  pub method : Method
  pub pattern : Text
  pub guards : List Guard
  pub endpoint : Endpoint

-- FeatureHandlers: which of them are not nil.
pub record FeatureHandlers : Type 0 where
  pub has_client_ip : Bool
  pub has_admin_access : Bool
  pub has_admin_comments : Bool
  pub has_comments : Bool
  pub has_views : Bool
  pub has_reactions : Bool

abbrev pub route : Method → Text → Endpoint → Route
route method pattern endpoint = record {
  method = method;
  pattern = pattern;
  guards = [];
  endpoint = endpoint;
}

-- Router.Route, Router.Group and Router.Use
abbrev pub mounted : Text → List Guard → Route → Route
mounted prefix guards r = record r { pattern = prefix ++ r.pattern; guards = guards ++ r.guards }

abbrev pub under : Text → List Guard → List Route → List Route
under prefix guards = map (mounted prefix guards)

abbrev pub when : Bool → List Route → List Route
when present routes = if present then routes else []

unfoldable pub write_routes : FeatureHandlers → List Route
write_routes f =
    when f.has_comments (route post (bytes "/comments") create_comment ∷ [])
    ++ (when f.has_views (route post (bytes "/view") record_view ∷ [])
        ++ when f.has_reactions
            (route put (bytes "/like") like ∷ route delete (bytes "/like") unlike ∷ []))

unfoldable pub post_routes : FeatureHandlers → List Route
post_routes f =
    when f.has_comments (route get (bytes "/comments") list_comments ∷ [])
    ++ (when f.has_reactions (route get (bytes "/stats") get_stats ∷ [])
        ++ when f.has_client_ip (under [] (client_ip ∷ []) (write_routes f)))

unfoldable pub admin_routes : List Route
admin_routes =
    route get (bytes "/comments") admin_list
    ∷ route post (bytes "/comments/{id}/hide") admin_hide
    ∷ route post (bytes "/comments/{id}/unhide") admin_unhide
    ∷ []

unfoldable pub feature_routes : FeatureHandlers → List Route
feature_routes f =
    when (f.has_comments || f.has_views || f.has_reactions)
      (under (bytes "/api/posts/{slug}") [] (post_routes f))
    ++ when (f.has_admin_access && f.has_admin_comments)
        (under (bytes "/api/admin") (admin_access ∷ []) admin_routes)

-- newRouter with its additional routes.
unfoldable pub application_routes : List Route → List Route
application_routes additional =
    route get (bytes "/api/healthz") healthz ∷ route get (bytes "/api/readyz") readyz ∷ additional
    ++ (route any_method (bytes "/*") not_found ∷ [])

module _ {Address : Type 0} (resolved : Option Address) (verify : Text → Result Principal)
    (assertion : Text) where
  -- The middleware around a handler, which reads the address and the principal of its context.
  unfoldable pub run_guards :
      List Guard
      → (Option Address → Option Principal → Handler)
      → Option Address
      → Option Principal
      → Handler
  run_guards [] next ip principal w = next ip principal w
  run_guards (client_ip ∷ guards) next ip principal w = elim resolved [
    | none ↦ (write_json 400 (plain_text (bytes "Bad Request")), w)
    | some address ↦ run_guards guards next (some address) principal w
  ]
  run_guards (admin_access ∷ guards) next ip principal w =
      authenticate verify assertion (λ p. run_guards guards next ip p) w

  unfoldable pub serve_route :
      (Endpoint → Option Address → Option Principal → Handler) → Route → Handler
  serve_route handlers r = run_guards r.guards (handlers r.endpoint) none none
