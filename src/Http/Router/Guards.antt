-- ===== src/Http/Router/Guards.antt =====
-- internal/httpapi/router.go: which handlers a request reaches.
use portfolio_backend.Base.{
  ◌≡◌, ◌⊎◌, inl, inr, refl, List, [], ◌∷◌, ◌++◌, Bool, true, false, ◌&&◌, ◌||◌, Option, none, some,
  All, All-append, All-weaken, Option-cases,
}
use portfolio_backend.Base.Text.{Text, bytes}
use portfolio_backend.Errors.{Result, ok}
use portfolio_backend.AdminAuth.Claims.{Principal}
use portfolio_backend.Http.{World, Response, plain_text, write_json, write_error, Handler}
use portfolio_backend.Http.Admin.Access.{authenticate-cases}
use portfolio_backend.Http.Router.{
  get, post, put, delete, Guard, client_ip, admin_access, Endpoint, list_comments, get_stats,
  create_comment, record_view, like, unlike, admin_list, admin_hide, admin_unhide, Route, mounted,
  FeatureHandlers, route, under, when, write_routes, post_routes, admin_routes, feature_routes,
  application_routes, run_guards, serve_route,
}

-- Who may use an endpoint: anyone, a visitor with an address, or the administrator.
pub data Access : Type 0 where
  open_to_all visitors administrator : Access

abbrev pub access_of : Endpoint → Access
access_of create_comment = visitors
access_of record_view = visitors
access_of like = visitors
access_of unlike = visitors
access_of admin_list = administrator
access_of admin_hide = administrator
access_of admin_unhide = administrator
access_of e = open_to_all

-- What must stand before a handler.
abbrev pub required_guards : Access → List Guard
required_guards open_to_all = []
required_guards visitors = client_ip ∷ []
required_guards administrator = admin_access ∷ []

abbrev pub IsGuarded : Route → Type 0
IsGuarded r = r.guards ≡ required_guards (access_of r.endpoint)

All-when :
    (P : Route → Type 0) (present : Bool) (routes : List Route)
    → All P routes
    → All P (when present routes)
All-when P true routes h = h
All-when P false routes h = tt

-- A group keeps what the routes need beyond the guards that it puts before them.
under-All :
    (P Q : Route → Type 0) (prefix : Text) (guards : List Guard) (routes : List Route)
    → ((r : Route) → P r → Q (mounted prefix guards r))
    → All P routes
    → All Q (under prefix guards routes)
under-All P Q prefix guards [] f h = tt
under-All P Q prefix guards (r ∷ routes) f h = (f r h.0, under-All P Q prefix guards routes f h.1)

-- The guards of a group's own, where the route has none yet.
abbrev Lacks : List Guard → Route → Type 0
Lacks guards r = guards ++ r.guards ≡ required_guards (access_of r.endpoint)

write_routes-Lacks : (f : FeatureHandlers) → All (Lacks (client_ip ∷ [])) (write_routes f)
unfolding write_routes
write_routes-Lacks f =
    let P = Lacks (client_ip ∷ []) in
    let comments = route post (bytes "/comments") create_comment ∷ [] in
    let views = route post (bytes "/view") record_view ∷ [] in
    let likes = route put (bytes "/like") like ∷ route delete (bytes "/like") unlike ∷ [] in
    All-append P (when f.has_comments comments) _ (All-when P f.has_comments comments (refl, tt)) (
      All-append P (when f.has_views views) _ (All-when P f.has_views views (refl, tt))
        (All-when P f.has_reactions likes (refl, (refl, tt))))

post_routes-IsGuarded : (f : FeatureHandlers) → All IsGuarded (post_routes f)
unfolding post_routes
post_routes-IsGuarded f =
    let P = IsGuarded in
    let comments = route get (bytes "/comments") list_comments ∷ [] in
    let reactions = route get (bytes "/stats") get_stats ∷ [] in
    let writes = under [] (client_ip ∷ []) (write_routes f) in
    All-append P (when f.has_comments comments) _ (All-when P f.has_comments comments (refl, tt)) (
      All-append P (when f.has_reactions reactions) _
        (All-when P f.has_reactions reactions (refl, tt))
        (All-when P f.has_client_ip writes (
          under-All (Lacks (client_ip ∷ [])) P [] (client_ip ∷ []) (write_routes f) (λ r h. h)
            (write_routes-Lacks f))))

feature_routes-IsGuarded : (f : FeatureHandlers) → All IsGuarded (feature_routes f)
unfolding feature_routes admin_routes
feature_routes-IsGuarded f =
    let posts = under (bytes "/api/posts/{slug}") [] (post_routes f) in
    let has_posts = f.has_comments || f.has_views || f.has_reactions in
    let admin = under (bytes "/api/admin") (admin_access ∷ []) admin_routes in
    All-append IsGuarded (when has_posts posts) _
      (All-when IsGuarded has_posts posts (
        under-All IsGuarded IsGuarded (bytes "/api/posts/{slug}") [] (post_routes f) (λ r h. h)
          (post_routes-IsGuarded f)))
      (All-when IsGuarded (f.has_admin_access && f.has_admin_comments) admin
        (refl, (refl, (refl, tt))))

application_routes-IsGuarded :
    (f : FeatureHandlers) → All IsGuarded (application_routes (feature_routes f))
unfolding application_routes
application_routes-IsGuarded f = (
  refl,
  (refl, All-append IsGuarded (feature_routes f) _ (feature_routes-IsGuarded f) (refl, tt)),
)

module _ {Address : Type 0} (resolved : Option Address) (verify : Text → Result Principal)
    (assertion : Text) where
  -- What a handler answers to those who may use it, and what others get.
  abbrev pub Answers :
      Access → (Option Address → Option Principal → Handler) → World → Response × World → Type 0
  Answers open_to_all handler w answer = answer ≡ handler none none w
  Answers visitors handler w answer =
      ((a : Address) × (resolved ≡ some a) × (answer ≡ handler (some a) none w))
      ⊎ ((resolved ≡ none) × (answer ≡ (write_json 400 (plain_text (bytes "Bad Request")), w)))
  Answers administrator handler w answer =
      ((p : Principal) × (verify assertion ≡ ok p) × (answer ≡ handler none (some p) w))
      ⊎ (answer ≡ (write_error 401 (bytes "unauthorized"), w))

  run_guards-Answers :
      (access : Access) (handler : Option Address → Option Principal → Handler) (w : World)
      → Answers access handler w
          (run_guards resolved verify assertion (required_guards access) handler none none w)
  unfolding run_guards
  run_guards-Answers open_to_all handler w = refl
  run_guards-Answers visitors handler w = elim (Option-cases resolved) [
    | inl missing ↦ inr (missing, rw missing refl)
    | inr (a, found) ↦ inl (a, found, rw found refl)
  ]
  run_guards-Answers administrator handler w =
      elim (authenticate-cases verify assertion (λ p. handler none p) w) [
        | inl (p, given, verified, passed) ↦ inl (p, verified, passed)
        | inr (cause, refused) ↦ inr refused
      ]

  -- Every route of the application: the writes on posts reach their handler only with the client's address, and
  -- answer 400 without one; moderation only with a principal that the verifier accepted, and answers 401 without;
  -- where a request is turned away, nothing has changed. All other routes are open.
  pub serve_route-Answers :
      (handlers : Endpoint → Option Address → Option Principal → Handler) (f : FeatureHandlers)
      (w : World)
      → All
          (λ r.
            Answers
              (access_of r.endpoint)
              (handlers r.endpoint)
              w
              (serve_route resolved verify assertion handlers r w))
          (application_routes (feature_routes f))
  unfolding serve_route
  serve_route-Answers handlers f w =
      All-weaken IsGuarded _ (application_routes (feature_routes f))
        (λ r h. rw h (run_guards-Answers (access_of r.endpoint) (handlers r.endpoint) w))
        (application_routes-IsGuarded f)
