-- ===== src/Api/Paths.antt =====
-- Which paths a listener's token opens: `jwt_token_guard` compares the end of the path only.
use web_queue.Common.{
  ℕ, Bytes, has_prefix, reverse, ◌++◌, [], ◌∷◌, ◌≡◌, refl, sym, ap, ◌∙◌, Bool, true, Option, none,
  some, arith, ◌==◌, is_some, ◌&&◌, not,
}
use mathlib.Core.List.{reverse-append, reverse-reverse, reverse-cons, append_assoc}
use web_queue.Api.{
  ends_with, Claims, Secure, RequestHead, Web, filter, and_then, extract_access_token, claimed_path,
  jwt_token_guard,
}

-- A segment of a path: no "/" in it.
unfoldable pub is_segment : Bytes → Bool
is_segment [] = true
is_segment (b ∷ bs) = not (b == 47) && is_segment bs

is_segment-append : (xs ys : Bytes) → is_segment (xs ++ ys) ≡ is_segment xs && is_segment ys
unfolding is_segment
is_segment-append [] ys = refl
is_segment-append (x ∷ xs) ys = ground (arith, is_segment-append xs ys)

is_segment-reverse : (xs : Bytes) → is_segment (reverse xs) ≡ is_segment xs
unfolding is_segment
is_segment-reverse [] = refl
is_segment-reverse (x ∷ xs) =
    ap is_segment (reverse-cons x xs)
    ∙ is_segment-append (reverse xs) (x ∷ [])
    ∙ ground (arith, is_segment-reverse xs)

-- Of two texts cut at their first "/", the one in front of the other.
first_segments :
    (a b xs ys : Bytes)
    → is_segment a ≡ true
    → is_segment b ≡ true
    → has_prefix (a ++ (47 ∷ xs)) (b ++ (47 ∷ ys)) ≡ true
    → (a ≡ b) × (has_prefix xs ys ≡ true)
unfolding is_segment has_prefix
first_segments [] [] xs ys h k e = (refl, e)
first_segments [] (y ∷ b) xs ys h k e = ground arith
first_segments (x ∷ a) [] xs ys h k e = ground arith
first_segments (x ∷ a) (y ∷ b) xs ys h k e = ground (arith, first_segments a b xs ys)

-- A path that ends in two segments.
abbrev pub route : Bytes → Bytes → Bytes → Bytes
route p a b = p ++ (47 ∷ (a ++ (47 ∷ b)))

snoc-append : (xs ys : Bytes) (x : ℕ) → (xs ++ (x ∷ [])) ++ ys ≡ xs ++ (x ∷ ys)
snoc-append xs ys x = append_assoc xs (x ∷ []) ys

-- The end of a path, read backwards.
pub backwards : (p a b : Bytes) → reverse (route p a b) ≡ route (reverse b) (reverse a) (reverse p)
backwards p a b =
    reverse-append p (47 ∷ (a ++ (47 ∷ b)))
    ∙ ap (λ t. t ++ reverse p)
        (reverse-cons 47 (a ++ (47 ∷ b))
          ∙ ap (λ t. t ++ (47 ∷ []))
              (reverse-append a (47 ∷ b)
                ∙ ap (λ t. t ++ reverse a) (reverse-cons 47 b)
                ∙ snoc-append (reverse b) (reverse a) 47))
    ∙ snoc-append (reverse b ++ (47 ∷ reverse a)) (reverse p) 47
    ∙ append_assoc (reverse b) (47 ∷ reverse a) (47 ∷ reverse p)

reverse_inj : (a b : Bytes) → reverse a ≡ reverse b → a ≡ b
reverse_inj a b e = sym (reverse-reverse a) ∙ ap reverse e ∙ reverse-reverse b

ends_with-segments :
    (p a b c d : Bytes)
    → is_segment a ≡ true
    → is_segment b ≡ true
    → is_segment c ≡ true
    → is_segment d ≡ true
    → ends_with (route [] a b) (route p c d) ≡ true
    → (a ≡ c) × (b ≡ d)
unfolding ends_with
ends_with-segments p a b c d ha hb hc hd e =
    let (eb, rest) =
      first_segments (reverse b) (reverse d) (reverse a ++ (47 ∷ []))
        (reverse c ++ (47 ∷ reverse p)) (is_segment-reverse b ∙ hb) (is_segment-reverse d ∙ hd)
        (sym (ap (λ t. has_prefix t (route (reverse d) (reverse c) (reverse p))) (backwards [] a b))
          ∙ sym (ap (has_prefix (reverse (route [] a b))) (backwards p c d))
          ∙ e) in
    let (ea, nothing) =
      first_segments (reverse a) (reverse c) [] (reverse p) (is_segment-reverse a ∙ ha)
        (is_segment-reverse c ∙ hc) rest in
    (reverse_inj a c ea, reverse_inj b d eb)

filter-is_some :
    {A : Type 0} (p : A → Bool) (m : Option A) (a : A)
    → m ≡ some a
    → is_some (filter p m) ≡ true
    → p a ≡ true
unfolding filter
filter-is_some p none a e h = cc
filter-is_some p (some x) a e h = ground arith

module _ {HeaderValue : Type 0} (web : Web HeaderValue) (secure : Secure) where
  -- A request on prefix/queue/id that passes jwt_token_guard with a token that decodes to some
  -- claims: where the claims name a queue and an id without a slash, they are this queue and this
  -- id.
  pub jwt_token_guard-own_queue :
      (head : RequestHead HeaderValue) (scope queue id token : Bytes) (c : Claims)
      → head.path ≡ route scope queue id
      → is_segment queue ≡ true
      → is_segment id ≡ true
      → is_segment c.iss ≡ true
      → is_segment c.sub ≡ true
      → extract_access_token web head ≡ some token
      → web.decode token secure.service_token ≡ some c
      → jwt_token_guard web secure head ≡ true
      → (c.iss ≡ queue) × (c.sub ≡ id)
  unfolding jwt_token_guard and_then
  jwt_token_guard-own_queue head scope queue id token c path hq hi hiss hsub found decoded h =
      ends_with-segments scope c.iss c.sub queue id hiss hsub hq hi (
        sym (ap (ends_with (claimed_path c)) path)
        ∙ filter-is_some (λ c. ends_with (claimed_path c) head.path)
            (web.decode token secure.service_token) c decoded
            (sym (
                ap
                  (λ t. is_some (
                    and_then t λ token.
                      filter (λ c. ends_with (claimed_path c) head.path)
                        (web.decode token secure.service_token)))
                  found)
              ∙ h))
