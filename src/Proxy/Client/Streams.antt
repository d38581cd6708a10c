-- ===== src/Proxy/Client/Streams.antt =====
-- The streams of sonya-proxy/src/websocket_proxy_client.rs by which an actor follows one shard or all
-- of them. The answers of the registry, the connections and the service discovery are parameters; a
-- panic is `none`.
use web_queue.Common.{Bytes, List, [], ◌∷◌, ◌++◌, Option, none, some, Result, ok, err}
use web_queue.Common.Map.{Map}
use web_queue.Api.{and_then}
use web_queue.Proxy.Forwarding.{Frame}

-- `client.ws(address + path)` with the headers, and `connect`
pub record Upgrade : Type 0 where
  pub url : Bytes
  pub headers : Map Bytes

module _ {Error : Type 0} where
  -- The loop over a reloading stream, `?` at each frame: the first error is the last item.
  unfoldable pub until_error : List (Result Error Frame) → List (Result Error Frame)
  until_error [] = []
  until_error (ok frame ∷ rest) = ok frame ∷ until_error rest
  until_error (err e ∷ rest) = err e ∷ []

  -- What is read of a stream until the service discovery has news, none where it is down.
  abbrev pub items : Option (List (Result Error Frame)) → List (Result Error Frame)
  items none = []
  items (some frames) = until_error frames

  abbrev pub from_connection :
      {C : Type 0}
      → (C → Option (List (Result Error Frame)))
      → Result Error C
      → List (Result Error Frame)
  from_connection frames (ok c) = items (frames c)
  from_connection frames (err e) = err e ∷ []

module _ {Error Connection : Type 0} where
  unfoldable pub connect_all : List (Result Error Connection) → Result Error (List Connection)
  connect_all [] = ok []
  connect_all (err e ∷ rest) = err e
  connect_all (ok c ∷ rest) = elim (connect_all rest) [ ok cs ↦ ok (c ∷ cs) | err e ↦ err e ]

  module _ (headers : Map Bytes) (connect : Upgrade → Result Error Connection) where
    -- `try_stream!` of `add_stream`, given the address of the id's shard
    unfoldable pub stream_of :
        Option Bytes
        → Bytes
        → (Connection → Option (List (Result Error Frame)))
        → Option (List (Result Error Frame))
    stream_of address path frames =
        and_then address λ a.
          some (from_connection frames (connect (record { url = a ++ path; headers = headers })))

    abbrev requests : List Bytes → Bytes → List (Result Error Connection)
    requests [] path = []
    requests (a ∷ addresses) path =
        connect (record { url = a ++ path; headers = headers }) ∷ requests addresses path

    -- `try_stream!` of `add_stream_all`: the frames are those of the aggregate of the connections
    unfoldable pub stream_of_all :
        Option (List Bytes)
        → Bytes
        → (List Connection → Option (List (Result Error Frame)))
        → Option (List (Result Error Frame))
    stream_of_all addresses path frames =
        and_then addresses λ all. some (from_connection frames (connect_all (requests all path)))
