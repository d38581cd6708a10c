-- ===== src/Tests/Clusters.antt =====
-- Two shards behind the proxy, at concrete requests.
use web_queue.Common.{
  ℕ, zero, suc, Bytes, codes, same, List, [], ◌∷◌, ◌++◌, length, Option, none, some, Result, ok,
  ◌≡◌, refl, if◌then◌else◌,
}
use web_queue.Message.{EventMessage}
use web_queue.Proxy.Registry.{Maglev, get_address}
use web_queue.Proxy.Shards.{Reply}
use web_queue.Proxy.Cluster.{ShardRequest, Client, HttpRequest}
use web_queue.Proxy.Cluster.Transparent.{Call, sending, listening}

-- A shard keeps the payloads that it was sent, and answers with them.
abbrev Shard : Type 0
Shard = List ℕ

abbrev served : Option (EventMessage ℕ) → Shard → Result Bytes Reply × Shard
served none s = (ok (record { status = 200; headers = []; body = ok s }), s)
served (some m) s = (ok (record { status = 201; headers = []; body = ok [] }), s ++ m.payload ∷ [])

abbrev serve : ShardRequest Unit (EventMessage ℕ) → Shard → Result Bytes Reply × Shard
serve r = served r.message

abbrev World : Type 0
World = Bytes → Shard

abbrev client : Client World Unit (EventMessage ℕ)
client = record {
  send = λ a r w. ((serve r (w a)).0, λ b. if same a b then (serve r (w a)).1 else w b);
}

-- The shard whose place in the list is the length of the id.
abbrev pub nth : ℕ → List Bytes → Option Bytes
nth n [] = none
nth zero (x ∷ xs) = some x
nth (suc n) (x ∷ xs) = nth n xs

abbrev pub table : Maglev (List Bytes)
table = record {
  new = λ l. l;
  with_capacity = λ l n. l;
  nodes = λ l. l;
  capacity = length;
  get = λ l key. nth (length key.1) l;
}

abbrev pub shards : List Bytes
shards = codes "http://a" ∷ codes "http://b" ∷ []

abbrev request : HttpRequest Unit
request = record { path = codes "/queue"; path_and_query = none; head = tt }

abbrev calls : List (Call Unit ℕ)
calls =
    sending request (record { id = codes "7"; sequence = none; payload = 5 })
    ∷ listening request
    ∷ []

abbrev start : World
start b = []

pub seven_at_b : get_address table (codes "news") (codes "7") shards ≡ some (codes "http://b")
unfolding get_address
seven_at_b = refl
