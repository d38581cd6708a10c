-- ===== src/Api/Tokens.antt =====
-- How the token of a request is read, and the tokens of `generate_jwt` (sonya-meta/src/api.rs).
use web_queue.Common.{
  ℕ, ◌<◌, zero, suc, Bytes, has_prefix, length, reverse, ◌++◌, [], ◌∷◌, ◌≡◌, refl, ap, ◌∙◌, true,
  false, Option, none, some, Result, ok, err, arith,
}
use web_queue.Api.{
  bearer, ends_with, trim_on, trim_start_matches, Claims, Secure, RequestHead, Web, filter,
  and_then, or_else, extract_access_token, extract_access_token_from_header, jwt_token_guard,
  generate_jwt, answered, with_expiration, JwtTokenResponse,
}
use web_queue.Server.Http.{HttpError}
use web_queue.Api.Paths.{route, backwards}

given : Option (Result HttpError JwtTokenResponse) → JwtTokenResponse → JwtTokenResponse
given (some (ok r)) d = r
given _ d = d

has_prefix-appends : (xs ps ys : Bytes) → has_prefix (xs ++ ps) (xs ++ ys) ≡ has_prefix ps ys
unfolding has_prefix
has_prefix-appends [] ps ys = refl
has_prefix-appends (x ∷ xs) ps ys = ground (arith, has_prefix-appends xs ps ys)

ends_with-route : (p a b : Bytes) → ends_with (route [] a b) (route p a b) ≡ true
unfolding ends_with has_prefix
ends_with-route p a b =
    ap (λ t. has_prefix t (reverse (route p a b))) (backwards [] a b)
    ∙ ap (has_prefix (route (reverse b) (reverse a) [])) (backwards p a b)
    ∙ has_prefix-appends (reverse b) (47 ∷ (reverse a ++ (47 ∷ [])))
        (47 ∷ (reverse a ++ (47 ∷ reverse p)))
    ∙ has_prefix-appends (reverse a) (47 ∷ []) (47 ∷ reverse p)

trim_on-other : (n : ℕ) (p s : Bytes) → has_prefix p s ≡ false → trim_on n p s ≡ s
unfolding trim_on
trim_on-other zero p s h = refl
trim_on-other (suc n) p s h = ground (arith, h)

trim_start_matches-bearer :
    (t : Bytes) → has_prefix bearer t ≡ false → trim_start_matches bearer (bearer ++ t) ≡ t
unfolding trim_on has_prefix
trim_start_matches-bearer t h =
    trim_on-other (suc (suc (suc (suc (suc (suc (length t))))))) bearer t h

module _ {HeaderValue : Type 0} (web : Web HeaderValue) where
  read_from_header :
      (head : RequestHead HeaderValue) (v : HeaderValue) (t : Bytes)
      → head.authorization ≡ some v
      → web.to_str v ≡ some (bearer ++ t)
      → has_prefix bearer t ≡ false
      → extract_access_token web head ≡ some t
  unfolding extract_access_token extract_access_token_from_header and_then or_else filter has_prefix
  read_from_header head v t e f h = rw (e, f) (ap some (trim_start_matches-bearer t h))

  module _ (secure : Secure) (queue id : Bytes) where
    was_encoded :
        (exp : ℕ) (t : Result Bytes Bytes) (r : JwtTokenResponse)
        → some (answered exp t) ≡ some (ok r)
        → web.encode (record { sub = id; exp = exp; iss = queue }) secure.service_token ≡ t
        → web.encode (record { sub = id; exp = r.expiration; iss = queue }) secure.service_token
          ≡ ok r.token
    unfolding answered given
    was_encoded exp (ok t) r h k =
        rw (← ap (λ m. (given m r).expiration) h) (k ∙ ap (λ m. ok (given m r).token) h)
    was_encoded exp (err x) r h k = cc

    -- What the handler answered with was encoded from these claims.
    generated :
        (m : Option (Result Bytes ℕ)) (r : JwtTokenResponse)
        → with_expiration web secure queue id m ≡ some (ok r)
        → web.encode (record { sub = id; exp = r.expiration; iss = queue }) secure.service_token
          ≡ ok r.token
    unfolding with_expiration
    generated none r h = cc
    generated (some (err e)) r h = cc
    generated (some (ok exp)) r h =
        was_encoded exp
          (web.encode (record { sub = id; exp = exp; iss = queue }) secure.service_token) r h refl

    -- A token that generate_jwt handed out for a queue and an id, sent back as the header "Bearer
    -- token" on a route that ends in this queue and this id, passes jwt_token_guard before the time of
    -- its expiration, given that an encoded token decodes to its claims before the time that they
    -- name as their end, and does not itself start with "Bearer ".
    pub generate_jwt-opens :
        (now : ℕ) (time_after : ℕ → Option (Result Bytes ℕ)) (r : JwtTokenResponse)
        (head : RequestHead HeaderValue) (v : HeaderValue) (scope : Bytes)
        → ((c : Claims) (t : Bytes)
            → web.encode c secure.service_token ≡ ok t
            → now < c.exp
            → web.decode t secure.service_token ≡ some c)
        → generate_jwt web secure queue id time_after ≡ some (ok r)
        → now < r.expiration
        → head.authorization ≡ some v
        → web.to_str v ≡ some (bearer ++ r.token)
        → has_prefix bearer r.token ≡ false
        → head.path ≡ route scope queue id
        → jwt_token_guard web secure head ≡ true
    unfolding generate_jwt jwt_token_guard and_then filter
    generate_jwt-opens now time_after r head v scope decodes g early e f bare path =
        rw
          (
            read_from_header head v r.token e f bare,
            decodes (record { sub = id; exp = r.expiration; iss = queue }) r.token
                (generated (time_after secure.jwt_token_expiration) r g) early,
            path,
            ends_with-route scope queue id,
          )
          refl
