-- ===== src/Api/Routes.antt =====
-- The route tables: the macro `queue_scope_factory!` of sonya-meta/src/api.rs and the application of
-- sonya-proxy/src/main.rs, with the handlers by their names. How actix-web picks a route is a
-- parameter.
pub mod Guards
use web_queue.Common.{
  Bytes, codes, List, [], ◌∷◌, ◌++◌, Bool, true, false, ◌&&◌, Option, none, some, ◌≡◌, ◌⊎◌, map,
  if◌then◌else◌,
}
use web_queue.Api.{Secure, RequestHead, Web, service_token_guard, jwt_token_guard}

pub data Handler : Type 0 where
  create_queue : Handler
  delete_from_queue : Handler
  send_to_queue : Handler
  close_queue : Handler
  generate_jwt : Handler
  subscribe_queue_longpoll : Handler
  subscribe_queue_ws : Handler
  subscribe_queue_by_id_longpoll : Handler
  subscribe_queue_by_id_ws : Handler
  service_registry_api : Handler

pub data HttpMethod : Type 0 where
  get : HttpMethod
  post : HttpMethod
  other : HttpMethod

-- A handler with the pattern of its path, its method, where only one is served, and its guards.
pub record Route (HeaderValue : Type 0) : Type 0 where
  pub path : Bytes
  pub method : Option HttpMethod
  pub guards : List (RequestHead HeaderValue → Bool)
  pub to : Handler

pub record Request (HeaderValue : Type 0) : Type 0 where
  pub method : HttpMethod
  pub head : RequestHead HeaderValue

-- actix-web's choice of a handler, and the test of a path by a pattern.
pub record Router (HeaderValue : Type 0) : Type 0 where
  pub dispatch : List (Route HeaderValue) → Request HeaderValue → Option Handler
  pub matches : Bytes → Bytes → Bool

unfoldable pub same_method : HttpMethod → HttpMethod → Bool
same_method get get = true
same_method post post = true
same_method other other = true
same_method _ _ = false

abbrev serves : Option HttpMethod → HttpMethod → Bool
serves none m = true
serves (some n) m = same_method n m

abbrev pub all_pass {ℓ} : {A : Type ℓ} → List (A → Bool) → A → Bool
all_pass [] a = true
all_pass (g ∷ gs) a = g a && all_pass gs a

module _ {HeaderValue : Type 0} (router : Router HeaderValue) where
  abbrev pub admits : Route HeaderValue → Request HeaderValue → Bool
  admits route r =
      router.matches route.path r.head.path
      && serves route.method r.method
      && all_pass route.guards r.head

  -- Some route of the table leads to this handler and admits the request.
  abbrev pub Reached : List (Route HeaderValue) → Request HeaderValue → Handler → Type 0
  Reached [] r h = ⊥
  Reached (route ∷ routes) r h = ((route.to ≡ h) × (admits route r ≡ true)) ⊎ Reached routes r h

  -- A handler is called only by a route whose pattern, method and guards admit the request.
  abbrev pub IsGuarded : Type 0
  IsGuarded =
      (routes : List (Route HeaderValue)) (r : Request HeaderValue) (h : Handler)
      → router.dispatch routes r ≡ some h
      → Reached routes r h

module _ {HeaderValue : Type 0} where
  -- `web::scope`
  abbrev pub scope : Bytes → List (Route HeaderValue) → List (Route HeaderValue)
  scope prefix [] = []
  scope prefix (route ∷ routes) = record route { path = prefix ++ route.path } ∷ scope prefix routes

  unfoldable pub at :
      Bytes
      → Option HttpMethod
      → List (RequestHead HeaderValue → Bool)
      → Handler
      → Route HeaderValue
  at path method guards to = record { path = path; method = method; guards = guards; to = to }

module _ {HeaderValue : Type 0} (web : Web HeaderValue) where
  -- the resource of `generate_jwt_method_factory`
  unfoldable pub generate_jwt_method_factory : Secure → Route HeaderValue
  unfolding at
  generate_jwt_method_factory secure =
      at (codes "/generate_jwt/{queue}/{uniq_id}") (some post) (service_token_guard web secure ∷ [])
        generate_jwt

  unfoldable pub queue_scope_factory : Option Secure → List (Route HeaderValue)
  unfolding at generate_jwt_method_factory
  queue_scope_factory none = scope (codes "/queue") (
      at (codes "/create/{queue_name}") (some post) [] create_queue
      ∷ at (codes "/delete/{queue_name}/{uniq_id}") (some post) [] delete_from_queue
      ∷ at (codes "/send/{queue_name}") (some post) [] send_to_queue
      ∷ at (codes "/close/{queue_name}") (some post) [] close_queue
      ∷ scope (codes "/listen") (
          at (codes "/longpoll/{queue_name}") (some get) [] subscribe_queue_longpoll
          ∷ at (codes "/ws/{queue_name}") none [] subscribe_queue_ws
          ∷ at (codes "/longpoll/{queue_name}/{uniq_id}") (some get) []
              subscribe_queue_by_id_longpoll
          ∷ at (codes "/ws/{queue_name}/{uniq_id}") none [] subscribe_queue_by_id_ws
          ∷ []))
  queue_scope_factory (some st) = scope (codes "/queue") (
      at (codes "/create/{queue_name}") (some post) (service_token_guard web st ∷ []) create_queue
      ∷ at (codes "/delete/{queue_name}/{uniq_id}") (some post) (service_token_guard web st ∷ [])
          delete_from_queue
      ∷ at (codes "/send/{queue_name}") (some post) (service_token_guard web st ∷ []) send_to_queue
      ∷ at (codes "/close/{queue_name}") (some post) (service_token_guard web st ∷ []) close_queue
      ∷ generate_jwt_method_factory st
      ∷ scope (codes "/listen") (
          at (codes "/longpoll/{queue_name}") (some get) (service_token_guard web st ∷ [])
            subscribe_queue_longpoll
          ∷ at (codes "/ws/{queue_name}") none (service_token_guard web st ∷ []) subscribe_queue_ws
          ∷ at (codes "/longpoll/{queue_name}/{uniq_id}") (some get) (jwt_token_guard web st ∷ [])
              subscribe_queue_by_id_longpoll
          ∷ at (codes "/ws/{queue_name}/{uniq_id}") none (jwt_token_guard web st ∷ [])
              subscribe_queue_by_id_ws
          ∷ []))

  -- the route of "/registry"
  unfoldable pub registry_route : Option Secure → Route HeaderValue
  unfolding at
  registry_route none = at (codes "/registry") (some post) [] service_registry_api
  registry_route (some s) =
      at (codes "/registry") (some post) (service_token_guard web s ∷ []) service_registry_api

  -- The application of the proxy: the flag says whether the service discovery is by this API.
  unfoldable pub proxy_routes : Bool → Option Secure → List (Route HeaderValue)
  proxy_routes by_api secure =
      if by_api
      then queue_scope_factory secure ++ (registry_route secure ∷ [])
      else queue_scope_factory secure
