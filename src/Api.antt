-- ===== src/Api.antt =====
-- sonya-meta/src/api.rs: who may call a route, the tokens of listeners, and the pause between two
-- attempts to reconnect. The parsers of headers and queries, the JSON web tokens (jsonwebtoken) and
-- the system's clock are parameters.
pub mod Tokens
pub mod Paths
pub mod Pauses
pub mod Routes
use web_queue.Common.{
  ℕ, zero, suc, ◌*◌, ◌/◌, Bytes, codes, same, has_prefix, leb, length, drop, reverse, ◌++◌, Option,
  none, some, Bool, true, false, is_some, Result, ok, err, if◌then◌else◌,
}
use web_queue.Server.Http.{HttpError, forbidden, internal_server_error}

abbrev pub bearer : Bytes
bearer = codes "Bearer "

-- `str::ends_with`
unfoldable pub ends_with : Bytes → Bytes → Bool
ends_with suffix s = has_prefix (reverse suffix) (reverse s)

-- `str::trim_start_matches`, at most as many times as the text has bytes
unfoldable pub trim_on : ℕ → Bytes → Bytes → Bytes
trim_on zero p s = s
trim_on (suc n) p s =
    let rest = trim_on n p (drop (length p) s) in if has_prefix p s then rest else s

abbrev pub trim_start_matches : Bytes → Bytes → Bytes
trim_start_matches p s = trim_on (length s) p s

pub record Claims : Type 0 where
  pub sub : Bytes
  pub exp : ℕ
  pub iss : Bytes

pub record Secure : Type 0 where
  pub service_token : Bytes
  pub jwt_token_expiration : ℕ

pub record RequestHead (HeaderValue : Type 0) : Type 0 where
  pub authorization : Option HeaderValue
  pub path : Bytes
  pub query : Option Bytes

-- What the code calls of other libraries.
pub record Web (HeaderValue : Type 0) : Type 0 where
  -- `HeaderValue::to_str`
  pub to_str : HeaderValue → Option Bytes
  -- `serde_urlencoded::from_str` of an `AccessTokenQuery`
  pub access_token_query : Bytes → Option Bytes
  -- `decode` and `encode` of a token with a secret
  pub decode : Bytes → Bytes → Option Claims
  pub encode : Claims → Bytes → Result Bytes Bytes

unfoldable pub filter : {A : Type 0} → (A → Bool) → Option A → Option A
filter p none = none
filter p (some a) = if p a then some a else none

unfoldable pub and_then : {A B : Type 0} → Option A → (A → Option B) → Option B
and_then none f = none
and_then (some a) f = f a

unfoldable pub or_else : {A : Type 0} → Option A → Option A → Option A
or_else none b = b
or_else (some a) b = some a

pub record JwtTokenResponse : Type 0 where
  pub token : Bytes
  pub expiration : ℕ

unfoldable pub answered : ℕ → Result Bytes Bytes → Result HttpError JwtTokenResponse
answered expiration (ok token) = ok (record { token = token; expiration = expiration })
answered expiration (err e) = err (forbidden e)

-- `format!("/{}/{}", iss, sub)`
abbrev pub claimed_path : Claims → Bytes
claimed_path c = codes "/" ++ (c.iss ++ (codes "/" ++ c.sub))

module _ {HeaderValue : Type 0} (web : Web HeaderValue) where
  unfoldable pub extract_access_token_from_header : RequestHead HeaderValue → Option Bytes
  extract_access_token_from_header head = and_then head.authorization λ value.
      and_then (filter (has_prefix bearer) (web.to_str value))
        λ t. some (trim_start_matches bearer t)

  unfoldable pub extract_access_token_from_query : RequestHead HeaderValue → Option Bytes
  extract_access_token_from_query head = and_then head.query web.access_token_query

  unfoldable pub extract_access_token : RequestHead HeaderValue → Option Bytes
  extract_access_token head =
      or_else (extract_access_token_from_header head) (extract_access_token_from_query head)

  unfoldable pub service_token_guard : Secure → RequestHead HeaderValue → Bool
  service_token_guard secure head =
      is_some (filter (λ token. same token secure.service_token) (extract_access_token head))

  unfoldable pub jwt_token_guard : Secure → RequestHead HeaderValue → Bool
  jwt_token_guard secure head = is_some (
      and_then (extract_access_token head) λ token.
        filter (λ c. ends_with (claimed_path c) head.path) (web.decode token secure.service_token))

  module _ (secure : Secure) (queue_name id : Bytes) where
    unfoldable pub with_expiration :
        Option (Result Bytes ℕ) → Option (Result HttpError JwtTokenResponse)
    with_expiration none = none
    with_expiration (some (err e)) = some (err (internal_server_error e))
    with_expiration (some (ok expiration)) = some (
        answered expiration (
          web.encode (record { sub = id; exp = expiration; iss = queue_name })
            secure.service_token))

    -- The handler of "/generate_jwt": `time_after` is the time since the epoch so many seconds from
    -- now, an error before the epoch, `none` where the sum panics.
    unfoldable pub generate_jwt :
        (ℕ → Option (Result Bytes ℕ)) → Option (Result HttpError JwtTokenResponse)
    generate_jwt time_after = with_expiration (time_after secure.jwt_token_expiration)

abbrev pub max_reconnect_attempts : ℕ
max_reconnect_attempts = 10

-- The integer part of a square root, at most the first argument.
unfoldable pub sqrt_on : ℕ → ℕ → ℕ
sqrt_on zero n = 0
sqrt_on (suc r) n = let rest = sqrt_on r n in if leb (suc r * suc r) n then suc r else rest

-- The seconds of `sleep_between_reconnects`: the integer part of the root of 1.5 * attempt
unfoldable pub sleep_between_reconnects : ℕ → ℕ
sleep_between_reconnects attempt = sqrt_on 20 ((3 * attempt) / 2)
