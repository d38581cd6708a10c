-- ===== src/Proxy/Cluster/Transparent.antt =====
-- The requests for one id through sonya-proxy/src/main.rs: they all reach one shard.
use web_queue.Common.{
  Bytes, List, [], ◌∷◌, false, same, Option, none, some, Result, ◌≡◌, if◌then◌else◌,
}
use web_queue.Message.{EventMessage}
use web_queue.Api.{and_then}
use web_queue.Proxy.Registry.{Maglev, get_address}
use web_queue.Proxy.Shards.{Reply}
use web_queue.Proxy.Cluster.Seen.{Seen, seen_sent, seen_listened, message_answer, poll_answer}
use web_queue.Proxy.Cluster.{
  ShardRequest, Client, HttpRequest, request_from, answered, send_to_queue,
  subscribe_queue_by_id_longpoll,
}

-- What a client asks for one queue and one id.
pub data Call (Head Value : Type 0) : Type 0 where
  sending : HttpRequest Head → EventMessage Value → Call Head Value
  listening : HttpRequest Head → Call Head Value

-- The messages among the calls have this id.
abbrev pub AllFor : {Head Value : Type 0} → Bytes → List (Call Head Value) → Type 0
AllFor id [] = Unit
AllFor id (sending req message ∷ calls) = (message.id ≡ id) × AllFor id calls
AllFor id (listening req ∷ calls) = AllFor id calls

module _ {Head Value : Type 0} where
  abbrev pub request_of : Call Head Value → ShardRequest Head (EventMessage Value)
  request_of (sending req message) = request_from req (some message)
  request_of (listening req) = request_from req none

  -- What the client of a call is to see of the shard's answer.
  abbrev pub response_of : Call Head Value → Result Bytes Reply → Seen
  response_of (sending req message) r = message_answer r
  response_of (listening req) r = poll_answer r

module _ {World Shard Head Value : Type 0} (client : Client World Head (EventMessage Value))
    (serve : ShardRequest Head (EventMessage Value) → Shard → Result Bytes Reply × Shard)
    (shard_at : World → Bytes → Shard) where
  -- A request reaches the shard at its address and no other, and the shard's answer comes back.
  pub record IsDelivering : Type 0 where
    pub answer_of :
        (address : Bytes) (r : ShardRequest Head (EventMessage Value)) (w : World)
        → (client.send address r w).0 ≡ (serve r (shard_at w address)).0
    pub state_of :
        (address : Bytes) (r : ShardRequest Head (EventMessage Value)) (w : World) (b : Bytes)
        → shard_at (client.send address r w).1 b
          ≡ (if same address b then (serve r (shard_at w address)).1 else shard_at w b)

  -- The same calls made to one shard without the proxy.
  abbrev pub direct : List (Call Head Value) → Shard → List Seen × Shard
  direct [] s = ([], s)
  direct (c ∷ cs) s =
      let (r, s') = serve (request_of c) s in
      let (rs, s'') = direct cs s' in (response_of c r ∷ rs, s'')

  module _ {M : Type 0} (m : Maglev M) (registry : M) (queue_name id : Bytes) where
    abbrev pub call : Call Head Value → World → Option (Seen × World)
    call (sending req message) w =
        and_then (send_to_queue client m registry queue_name req message w)
          λ p. some (answered seen_sent p)
    call (listening req) w =
        and_then (subscribe_queue_by_id_longpoll client m registry queue_name id req w)
          λ p. some (answered seen_listened p)

    abbrev pub proxied : List (Call Head Value) → World → Option (List Seen × World)
    proxied [] w = some ([], w)
    proxied (c ∷ cs) w =
        and_then (call c w) λ p. and_then (proxied cs p.1) λ q. some (p.0 ∷ q.0, q.1)

    module _ (node : Bytes) (found : get_address m queue_name id registry ≡ some node) where
      module _ (net : IsDelivering) where
        -- What the proxy answers, and where the shards stand after it.
        abbrev Same : List (Call Head Value) → World → Type 0
        Same cs w =
            (w' : World) × (proxied cs w ≡ some ((direct cs (shard_at w node)).0, w'))
            × (shard_at w' node ≡ (direct cs (shard_at w node)).1)
            × ((b : Bytes) → same node b ≡ false → shard_at w' b ≡ shard_at w b)
