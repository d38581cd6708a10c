-- ===== src/Server/Service/Access.antt =====
-- What a request to the queue service asks for, the tokens it gives out and the table of its routes,
-- written out beside `get_sequence_from_req` of sonya/src/main.rs and `generate_jwt` and
-- `queue_scope_factory!` of sonya-meta/src/api.rs.
use web_queue.Common.{
  ℕ, Bytes, String, codes, Bool, Option, none, some, List, [], ◌∷◌, ◌++◌, Result, ok, err, ◌≡◌,
  refl,
}
use web_queue.Message.{RequestSequence}
use web_queue.Api.{Secure, Web, RequestHead, service_token_guard, jwt_token_guard}
use web_queue.Api
use web_queue.Api.Routes.{
  Handler, create_queue, delete_from_queue, send_to_queue, close_queue, generate_jwt,
  subscribe_queue_longpoll, subscribe_queue_ws, subscribe_queue_by_id_longpoll,
  subscribe_queue_by_id_ws, Route, HttpMethod, get, post, queue_scope_factory,
  generate_jwt_method_factory, at,
}
use web_queue.Server.Http.{internal_server_error, forbidden}
use web_queue.Server.Service.{
  Extractors, Outcome, token, unrouted, token_for, get_sequence_from_req,
}

-- The sequence that a request asks for: none where its query is not read.
unfoldable pub requested : Option RequestSequence → RequestSequence
requested none = none
requested (some sequence) = sequence

-- Who may call a route: anyone without tokens, else who has the service's token or the id's own.
pub data Access : Type 0 where
  service own : Access

module _ {HeaderValue : Type 0} (web : Web HeaderValue) where
  abbrev pub token_encoded : {Socket T : Type 0} → ℕ → Result Bytes Bytes → Outcome Socket T
  token_encoded end (ok t) = token (some (ok (record { token = t; expiration = end })))
  token_encoded end (err e) = token (some (err (forbidden e)))

  -- The token for a queue and an id, with the clock's time of its end: a panic where there is no such
  -- time, else an error of the clock or the encoder, or the encoded claims; no route without tokens.
  unfoldable pub token_until :
      {Socket T : Type 0} → Bytes → Bytes → Bytes → Option (Result Bytes ℕ) → Outcome Socket T
  token_until key queue_name id none = token none
  token_until key queue_name id (some (err e)) = token (some (err (internal_server_error e)))
  token_until key queue_name id (some (ok end)) =
      token_encoded end (web.encode (record { sub = id; exp = end; iss = queue_name }) key)

  unfoldable pub token_specified :
      {Socket T : Type 0}
      → (ℕ → Option (Result Bytes ℕ))
      → Option Secure
      → Bytes
      → Bytes
      → Outcome Socket T
  token_specified time_after none queue_name id = unrouted
  token_specified time_after (some st) queue_name id =
      token_until st.service_token queue_name id (time_after st.jwt_token_expiration)

  abbrev pub guards_of : Option Secure → Access → List (RequestHead HeaderValue → Bool)
  guards_of none a = []
  guards_of (some st) service = service_token_guard web st ∷ []
  guards_of (some st) own = jwt_token_guard web st ∷ []

  abbrev pub row : Option Secure → String → Option HttpMethod → Access → Handler → Route HeaderValue
  row secure path method access handler = record {
    path = codes path;
    method = method;
    guards = guards_of secure access;
    to = handler;
  }

  abbrev pub token_row : Option Secure → List (Route HeaderValue)
  token_row none = []
  token_row (some st) =
      row (some st) "/queue/generate_jwt/{queue}/{uniq_id}" (some post) service generate_jwt ∷ []

  -- The routes of the service, with their whole paths.
  unfoldable pub table : Option Secure → List (Route HeaderValue)
  table secure =
      row secure "/queue/create/{queue_name}" (some post) service create_queue
      ∷ row secure "/queue/delete/{queue_name}/{uniq_id}" (some post) service delete_from_queue
      ∷ row secure "/queue/send/{queue_name}" (some post) service send_to_queue
      ∷ row secure "/queue/close/{queue_name}" (some post) service close_queue
      ∷ (token_row secure
          ++ (row secure "/queue/listen/longpoll/{queue_name}" (some get) service
                subscribe_queue_longpoll
              ∷ row secure "/queue/listen/ws/{queue_name}" none service subscribe_queue_ws
              ∷ row secure "/queue/listen/longpoll/{queue_name}/{uniq_id}" (some get) own
                  subscribe_queue_by_id_longpoll
              ∷ row secure "/queue/listen/ws/{queue_name}/{uniq_id}" none own
                  subscribe_queue_by_id_ws
              ∷ []))

  pub table_lem : (secure : Option Secure) → queue_scope_factory web secure ≡ table secure
  unfolding queue_scope_factory table generate_jwt_method_factory at
  table_lem none = refl
  table_lem (some st) = refl

pub requested_lem : (query : Option RequestSequence) → get_sequence_from_req query ≡ requested query
unfolding get_sequence_from_req requested
requested_lem none = refl
requested_lem (some sequence) = refl

module _ {R HeaderValue T : Type 0} (x : Extractors R HeaderValue T) (web : Web HeaderValue)
    (time_after : ℕ → Option (Result Bytes ℕ)) where
  encoded_lem :
      {Socket : Type 0} (end : ℕ) (t : Result Bytes Bytes)
      → ◌≡◌ {A = Outcome Socket T} (token (some (Api.answered end t))) (token_encoded web end t)
  unfolding Api.answered
  encoded_lem end (ok t) = refl
  encoded_lem end (err e) = refl

  until_lem :
      {Socket : Type 0} (key queue_name id : Bytes) (end : Option (Result Bytes ℕ)) (st : Secure)
      → st.service_token ≡ key
      → ◌≡◌ {A = Outcome Socket T}
          (token (Api.with_expiration web st queue_name id end))
          (token_until web key queue_name id end)
  unfolding token_until Api.with_expiration Api.answered
  until_lem key queue_name id none st e = refl
  until_lem key queue_name id (some (err x)) st e = refl
  until_lem key queue_name id (some (ok end)) st e =
      rw e (encoded_lem end (web.encode (record { sub = id; exp = end; iss = queue_name }) key))

  pub token_lem :
      {Socket : Type 0} (r : R) (secure st : Option Secure)
      → ◌≡◌ {A = Outcome Socket T}
          (token_for x web time_after secure r st)
          (token_specified web time_after st (x.queue_name r) (x.uniq_id r))
  unfolding token_specified Api.generate_jwt
  token_lem r secure none = refl
  token_lem r secure (some st) =
      until_lem st.service_token (x.queue_name r) (x.uniq_id r) (time_after st.jwt_token_expiration)
        st refl
