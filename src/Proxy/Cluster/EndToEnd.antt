-- ===== src/Proxy/Cluster/EndToEnd.antt =====
-- The proxy of sonya-proxy/src/main.rs before shards that run the queue service of
-- sonya/src/main.rs. How an outcome of a shard travels back (actix-web, awc) is a parameter.
use web_queue.Common.{ℕ, Bytes, Option, List, [], ◌∷◌, false, same, Result, ◌≡◌}
use web_queue.Message.{EventMessage}
use web_queue.Api.{Secure, Web}
use web_queue.Api.Routes.{Router}
use web_queue.Queue.State.{Runtime, Queue}
use web_queue.Queue.Abstract.{Store}
use web_queue.Queue.Abstract.Represents.{Represents}
use web_queue.Server.Service.{Extractors, Outcome, serve}
use web_queue.Server.Service.Access.{table}
use web_queue.Server.Service.Specified.{Opening, observed, specified_routed}
use web_queue.Proxy.Shards.{Reply}
use web_queue.Proxy.Cluster.{ShardRequest}
use web_queue.Proxy.Cluster.Seen.{Seen}
use web_queue.Proxy.Cluster.Transparent.{Call, request_of, response_of}

module _ {Head HeaderValue Value : Type 0}
    (x : Extractors (ShardRequest Head (EventMessage Value)) HeaderValue (EventMessage Value))
    (web : Web HeaderValue) (time_after : ℕ → Option (Result Bytes ℕ)) (secure : Option Secure)
    (router : Router HeaderValue)
    (reply_of : Outcome (Opening (EventMessage Value)) (EventMessage Value) → Result Bytes Reply)
    {Db DbError JsonError Sender Receiver : Type 0}
    (rt : Runtime Db DbError JsonError Sender Receiver (EventMessage Value)) where
  -- A shard, which answers a request that the proxy sends on.
  abbrev pub shard :
      ShardRequest Head (EventMessage Value)
      → Queue Db Sender
      → Result Bytes Reply × Queue Db Sender
  shard r q =
      let (o, q') = serve x web time_after secure rt router r q in (reply_of (observed o), q')

  -- The answers to the calls by the abstract store of one shard.
  unfoldable pub specified_calls :
      List (Call Head Value) → Store (EventMessage Value) → List Seen × Store (EventMessage Value)
  specified_calls [] s = ([], s)
  specified_calls (c ∷ cs) s =
      let r = request_of c in
      let (o, s') =
        specified_routed x web time_after secure rt.uniq
          (router.dispatch (table web secure) (x.request r)) r s in
      let (l, s'') = specified_calls cs s' in (response_of c (reply_of o) ∷ l, s'')

  -- No call is about the database's own default tree.
  abbrev pub NoneDefault : List (Call Head Value) → Type 0
  NoneDefault [] = Unit
  NoneDefault (c ∷ cs) =
      (same (x.queue_name (request_of c)) rt.sled.default_tree ≡ false) × NoneDefault cs
