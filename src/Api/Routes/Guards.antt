-- ===== src/Api/Routes/Guards.antt =====
-- Which guard stands before which handler (the macro `queue_scope_factory!` of sonya-meta/src/api.rs
-- and the "/registry" route of sonya-proxy/src/main.rs).
use web_queue.Common.{
  List, [], ◌∷◌, Bool, true, false, ◌&&◌, Option, none, some, ◌≡◌, refl, inl, inr, arith,
  if◌then◌else◌, is_some, ◌++◌,
}
use web_queue.Api.{
  Secure, RequestHead, Web, service_token_guard, jwt_token_guard, extract_access_token, filter,
  and_then,
}
use web_queue.Api.Routes.{
  Handler, subscribe_queue_by_id_longpoll, subscribe_queue_by_id_ws, Route, Request, Router,
  Reached, IsGuarded, queue_scope_factory, registry_route, proxy_routes, all_pass,
}

unfoldable pub listens_by_id : Handler → Bool
listens_by_id subscribe_queue_by_id_longpoll = true
listens_by_id subscribe_queue_by_id_ws = true
listens_by_id _ = false

is_some-filter :
    {A : Type 0} (p : A → Bool) (o : Option A) → is_some (filter p o) ≡ true → is_some o ≡ true
unfolding filter
is_some-filter p none h = h
is_some-filter p (some a) h = refl

is_some-and_then :
    {A B : Type 0} (o : Option A) (f : A → Option B)
    → is_some (and_then o f) ≡ true
    → is_some o ≡ true
unfolding and_then
is_some-and_then none f h = h
is_some-and_then (some a) f h = refl

one_guard : (b : Bool) → (b && true) ≡ true → b ≡ true
one_guard b h = ground arith

module _ {HeaderValue : Type 0} (web : Web HeaderValue) (secure : Secure) where
  -- The guard that a handler should stand behind: the listeners of one id take a token of their own.
  unfoldable pub guard_of : Handler → RequestHead HeaderValue → Bool
  unfolding listens_by_id
  guard_of h head =
      if listens_by_id h
      then jwt_token_guard web secure head
      else service_token_guard web secure head

  abbrev Guards : Route HeaderValue → Type 0
  Guards route =
      (head : RequestHead HeaderValue)
      → all_pass route.guards head ≡ true
      → guard_of route.to head ≡ true

  abbrev AllGuard : List (Route HeaderValue) → Type 0
  AllGuard [] = Unit
  AllGuard (route ∷ routes) = Guards route × AllGuard routes

  by_service :
      (head : RequestHead HeaderValue)
      → (service_token_guard web secure head && true) ≡ true
      → service_token_guard web secure head ≡ true
  by_service head h = one_guard (service_token_guard web secure head) h

  by_jwt :
      (head : RequestHead HeaderValue)
      → (jwt_token_guard web secure head && true) ≡ true
      → jwt_token_guard web secure head ≡ true
  by_jwt head h = one_guard (jwt_token_guard web secure head) h

  AllGuard-append :
      (xs ys : List (Route HeaderValue)) → AllGuard xs → AllGuard ys → AllGuard (xs ++ ys)
  AllGuard-append [] ys g h = h
  AllGuard-append (x ∷ xs) ys g h = (g.0, AllGuard-append xs ys g.1 h)

  queue_guards : AllGuard (queue_scope_factory web (some secure))
  unfolding queue_scope_factory guard_of
  queue_guards = (
    by_service,
    (
      by_service,
      (by_service, (by_service, (by_service, (by_service, (by_service, (by_jwt, (by_jwt, tt))))))),
    ),
  )

  proxy_routes-guard : (by_api : Bool) → AllGuard (proxy_routes web by_api (some secure))
  unfolding proxy_routes registry_route guard_of
  proxy_routes-guard true =
      AllGuard-append (queue_scope_factory web (some secure))
        (registry_route web (some secure) ∷ []) queue_guards (by_service, tt)
  proxy_routes-guard false = queue_guards

  needed_guard :
      (router : Router HeaderValue) (routes : List (Route HeaderValue)) (r : Request HeaderValue)
      (h : Handler)
      → AllGuard routes
      → Reached router routes r h
      → guard_of h r.head ≡ true
  needed_guard router [] r h gs m = elim m [ ]
  needed_guard router (route ∷ routes) r h gs (inl m) = rw (← m.0) (gs.0 r.head (ground arith))
  needed_guard router (route ∷ routes) r h gs (inr m) = needed_guard router routes r h gs.1 m

  token_of :
      (by_id : Bool) (head : RequestHead HeaderValue)
      → (if by_id then jwt_token_guard web secure head else service_token_guard web secure head)
        ≡ true
      → is_some (extract_access_token web head) ≡ true
  unfolding service_token_guard jwt_token_guard
  token_of true head e = is_some-and_then (extract_access_token web head) _ e
  token_of false head e = is_some-filter _ (extract_access_token web head) e

  has_token :
      (head : RequestHead HeaderValue) (h : Handler)
      → guard_of h head ≡ true
      → is_some (extract_access_token web head) ≡ true
  unfolding guard_of
  has_token head h e = token_of (listens_by_id h) head e

  -- With a service token configured, no handler is called, by the queue service's table or the proxy's,
  -- unless its guard passes, which for the listeners of one id, websockets too, is the guard of their
  -- own token and for all others, the listeners of a whole queue too, that of the service token, and
  -- then the request carries a token; given that a handler is called only by a route that admits the
  -- request.
  pub proxy_routes-guards :
      (router : Router HeaderValue) (by_api : Bool) (r : Request HeaderValue) (h : Handler)
      → IsGuarded router
      → router.dispatch (proxy_routes web by_api (some secure)) r ≡ some h
      → (guard_of h r.head ≡ true) × (is_some (extract_access_token web r.head) ≡ true)
  proxy_routes-guards router by_api r h law e =
      let g =
        needed_guard router (proxy_routes web by_api (some secure)) r h (proxy_routes-guard by_api)
          (law (proxy_routes web by_api (some secure)) r h e) in
      (g, has_token r.head h g)
