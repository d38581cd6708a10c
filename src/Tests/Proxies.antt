-- ===== src/Tests/Proxies.antt =====
-- The theorems on tokens and on the proxy at concrete inputs.
use web_queue.Common.{
  ℕ, ◌+◌, ◌≤◌, ◌≡◌, refl, Bytes, codes, List, [], ◌∷◌, ◌++◌, map, Bool, true, Option, none, some,
  Result, ok, err, arith, length, take, drop, take-length-append, ap, sym, ◌∙◌, has_prefix, ◌==◌,
  same_refl, if◌then◌else◌, ltb, ◌<◌, false,
}
use web_queue.Broadcast.{Broadcast}
use web_queue.Broadcast.Memory.{Channel, in_memory}
use web_queue.Message.{last}
use web_queue.Server.Http.{gone}
use web_queue.Api.{
  Web, Secure, Claims, RequestHead, JwtTokenResponse, jwt_token_guard, extract_access_token,
  generate_jwt, bearer, sleep_between_reconnects, extract_access_token_from_header, and_then,
  or_else, filter, trim_on, ends_with, with_expiration, answered,
}
use web_queue.Api.Paths.{jwt_token_guard-own_queue, route, is_segment}
use web_queue.Api.Tokens.{generate_jwt-opens}
use web_queue.Proxy.Discovery
use web_queue.Proxy.Discovery.{
  ServiceDiscoveryActor, new, poll_during, subscribe, pending, ready, Poll,
}
use web_queue.Proxy.Discovery.Attempts.{finished-bounded, finished_times}
use web_queue.Proxy.Discovery.Updates.{
  updated, ended, run, elem, has_update, new-IsOpen, poll-wakes, step,
}
use web_queue.Proxy.Registry.{Maglev, IsMaglev, contains}
use web_queue.Proxy.Forwarding.{
  WebSocketActorResponse, message, stopped, text, continuation, stop, handle_stream, shown, passed,
  closing, handle_stream_lem,
}
use web_queue.Proxy.Client
use web_queue.Proxy.Client.{finished-restarts, finished, started}
use web_queue.Proxy.Client.Storage.{WebSocketProxyClientsStorageKey}
use web_queue.Proxy.Client.Aggregator.{
  poll_next, polled as polled_once, none_left, waits, poll_next_lem,
}
use web_queue.Proxy.Shards.{ShardResponse, base_diagonal_proxy}
use web_queue.Proxy.Shards.Answers.{base_diagonal_proxy_lem}

abbrev claims : Claims
claims = record { sub = codes "7"; exp = 60; iss = codes "news" }

-- Tokens that name one listener, whatever the secret.
abbrev web : Web Bytes
web = record {
  to_str = some;
  access_token_query = some;
  decode = λ token secret. some claims;
  encode = λ c secret. err (codes "off");
}

abbrev secure : Secure
secure = record { service_token = codes "secret"; jwt_token_expiration = 60 }

abbrev head : RequestHead Bytes
head = record {
  authorization = some (bearer ++ codes "t");
  path = route (codes "/ws") (codes "news") (codes "7");
  query = none;
}

jwt_token_guard-own_queue_example : (codes "news" ≡ codes "news") × (codes "7" ≡ codes "7")
jwt_token_guard-own_queue_example =
    jwt_token_guard-own_queue web secure head (codes "/ws") (codes "news") (codes "7") (codes "t")
      claims refl (unfold is_segment in refl) (unfold is_segment in refl)
      (unfold is_segment in refl) (unfold is_segment in refl)
      (unfold extract_access_token extract_access_token_from_header and_then or_else filter
          has_prefix trim_on in
        refl)
      refl
      (unfold jwt_token_guard extract_access_token extract_access_token_from_header and_then or_else
          filter has_prefix trim_on ends_with in
        refl)

-- A token that holds its claims, and is read up to their end: a stand-in for the crate's encoding.
abbrev written : Claims → Bytes
written c = c.exp ∷ length c.sub ∷ (c.sub ++ c.iss)

abbrev read : Bytes → Option Claims
read (e ∷ n ∷ rest) =
    if ltb 120 e then some (record { sub = take n rest; exp = e; iss = drop n rest }) else none
read _ = none

abbrev tokens : Web Bytes
tokens = record web { decode = λ t secret. read t; encode = λ c secret. ok (written c) }

drop-length-append : (xs ys : Bytes) → drop (length xs) (xs ++ ys) ≡ ys
drop-length-append [] ys = refl
drop-length-append (x ∷ xs) ys = drop-length-append xs ys

reads :
    (c : Claims) (t : Bytes)
    → ◌≡◌ {A = Result Bytes Bytes} (ok (written c)) (ok t)
    → 120 < c.exp
    → read t ≡ some c
reads c t e early =
    ap (λ r. read (token r)) (sym e)
    ∙ rw (take-length-append c.sub c.iss, drop-length-append c.sub c.iss) (ground (arith, early))
  where
    token : Result Bytes Bytes → Bytes
    token (ok t) = t
    token (err x) = t

abbrev response : JwtTokenResponse
response = record { token = 160 ∷ 1 ∷ (codes "7" ++ codes "news"); expiration = 160 }

generate_jwt-opens_example :
    jwt_token_guard tokens secure (record head { authorization = some (bearer ++ response.token) })
    ≡ true
generate_jwt-opens_example =
    generate_jwt-opens tokens secure (codes "news") (codes "7") 120 (λ s. some (ok (100 + s)))
      response (record head { authorization = some (bearer ++ response.token) })
      (bearer ++ response.token) (codes "/ws") reads
      (unfold generate_jwt with_expiration answered in refl) (omega arith) refl refl
      (unfold has_prefix in refl) refl

abbrev actor : ServiceDiscoveryActor (List Bytes)
actor = new

finished-bounded_example :
    ((finished_times 12 actor).attempts ≤ 10)
    × (length (finished_times 12 actor).streams + 0 ≡ 0 + (finished_times 12 actor).attempts)
finished-bounded_example = finished-bounded 12 actor (omega arith)

poll-wakes_example :
    elem 6
      (run
        (updated [] ∷ [])
        (poll_during (run (ended ∷ [])) 6 (subscribe actor) (run (ended ∷ []) actor)).2).woken
    ≡ true
unfolding has_update
poll-wakes_example =
    poll-wakes actor 6 new-IsOpen (ended ∷ []) (ended ∷ []) (updated [] ∷ [])
      (unfold poll_during subscribe run step Discovery.finished Discovery.started in refl) refl

-- A table that sends every key to its first node.
abbrev first_node : List Bytes → Option Bytes
first_node [] = none
first_node (x ∷ xs) = some x

abbrev pub table : Maglev (List Bytes)
table = record {
  new = λ l. l;
  with_capacity = λ l n. l;
  nodes = λ l. l;
  capacity = length;
  get = λ l key. first_node l;
}

pub table-IsMaglev : IsMaglev table
unfolding contains
table-IsMaglev = record {
  nodes-new = λ l. refl;
  nodes-with_capacity = λ l n. refl;
  get-found = λ t x xs key e. (x, ap first_node e, ground (arith, same_refl x));
}

abbrev pub two_shards : List Bytes
two_shards = codes "a" ∷ codes "b" ∷ []

-- A text, a frame that is left out, and the end.
abbrev frames : List WebSocketActorResponse
frames =
    message (text (codes "x"))
    ∷ message (continuation (codes "y"))
    ∷ stopped
    ∷ message (text (codes "z"))
    ∷ []

handle_stream_lem_example :
    handle_stream ok (stop ∷ []) frames false
    ≡ map (shown ok) (passed frames) ++ closing frames false
handle_stream_lem_example = handle_stream_lem ok (stop ∷ []) refl frames false

abbrev channels : Broadcast (Channel WebSocketActorResponse) ℕ WebSocketActorResponse
channels = in_memory WebSocketActorResponse

finished-restarts_example :
    let c =
      Client.run channels
        (Client.received (err (codes "refused")) ∷ Client.stream_ended ∷ [])
        (Client.new channels (codes "news") none none (some last)) in
    (finished channels c ≡ started channels c) × (sleep_between_reconnects c.attempts ≡ 0)
finished-restarts_example =
    finished-restarts channels (Client.received (err (codes "refused")) ∷ Client.stream_ended ∷ [])
      (codes "news") none none (some last)

abbrev pub news_key : WebSocketProxyClientsStorageKey
news_key = record { queue_name = codes "news"; id = none }

abbrev pub stored : List (WebSocketProxyClientsStorageKey × ℕ)
stored = (news_key, 1) ∷ []

abbrev pub is_one : ℕ → Bool
is_one n = n == 1

-- Connections that are what they answer next.
abbrev poll_once : Poll (Option ℕ) → Poll (Option ℕ) × Poll (Option ℕ)
poll_once r = (r, pending)

poll_next_lem_example :
    (poll_next poll_once (pending ∷ []) ≡ (pending, map (polled_once poll_once) (pending ∷ [])))
    × ((s : Poll (Option ℕ)) (after : List (Poll (Option ℕ))) (x : Option ℕ)
        → s ≡ ready x
        → poll_next poll_once (pending ∷ s ∷ after) ≡ (ready x, pending ∷ pending ∷ after))
poll_next_lem_example = poll_next_lem poll_once (pending ∷ []) (waits refl none_left)

abbrev replies : List (Result Bytes ℕ)
replies = ok 500 ∷ err (codes "refused") ∷ []

base_diagonal_proxy_lem_example :
    base_diagonal_proxy replies ≡ err (gone (codes "One of shards is not responding"))
base_diagonal_proxy_lem_example = base_diagonal_proxy_lem replies

abbrev first_answer : ShardResponse ℕ
first_answer = record { status = 200; body = ok []; json = ok (1 ∷ []) }
