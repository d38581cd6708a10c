-- ===== src/Tests/Routes.antt =====
-- The guards of the routes at a concrete router: the first route that admits the request.
use web_queue.Common.{
  Bytes, codes, List, [], ◌∷◌, true, Option, none, some, ◌≡◌, refl, inl, inr, arith, if◌then◌else◌,
  same, Bool-cases, ok, is_some, has_prefix,
}
use web_queue.Api.{
  Secure, Web, extract_access_token, extract_access_token_from_header,
  extract_access_token_from_query, and_then, or_else, filter, trim_on, service_token_guard,
}
use web_queue.Api.Routes.{
  Handler, create_queue, post, Route, Request, Router, admits, IsGuarded, proxy_routes,
  queue_scope_factory, same_method,
}
use web_queue.Api.Routes.Guards.{guard_of, proxy_routes-guards}

abbrev pub web : Web Bytes
web = record {
  to_str = some;
  access_token_query = λ q. none;
  decode = λ t s. none;
  encode = λ c s. ok [];
}

abbrev routed : List (Route Bytes) → Request Bytes → Option Handler
routed [] r = none
routed (route ∷ routes) r =
    if admits (record { dispatch = λ rs q. none; matches = same }) route r
    then some route.to
    else routed routes r

abbrev pub first_route : Router Bytes
first_route = record { dispatch = routed; matches = same }

pub first_route-IsGuarded : IsGuarded first_route
first_route-IsGuarded [] r h e = absurd (ground arith)
first_route-IsGuarded (route ∷ routes) r h e = elim (Bool-cases (admits first_route route r)) [
  | inl yes_it ↦ inl (ground (arith, e, yes_it))
  | inr not_it ↦ inr (first_route-IsGuarded routes r h (ground (arith, e, not_it)))
]

abbrev pub secure : Secure
secure = record { service_token = codes "key"; jwt_token_expiration = 60 }

-- The path is the pattern itself, as this router compares them.
abbrev request : Request Bytes
request = record {
  method = post;
  head = record {
    authorization = some (codes "Bearer key");
    path = codes "/queue/create/{queue_name}";
    query = none;
  };
}

reaches_create : routed (proxy_routes web true (some secure)) request ≡ some create_queue
unfolding proxy_routes queue_scope_factory same same_method service_token_guard extract_access_token
    extract_access_token_from_header extract_access_token_from_query and_then or_else filter trim_on
    has_prefix
reaches_create = refl

proxy_routes-guards_example :
    (guard_of web secure create_queue request.head ≡ true)
    × (is_some (extract_access_token web request.head) ≡ true)
proxy_routes-guards_example =
    proxy_routes-guards web secure first_route true request create_queue first_route-IsGuarded
      reaches_create
