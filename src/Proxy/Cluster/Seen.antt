-- ===== src/Proxy/Cluster/Seen.antt =====
-- What a client sees of the answer of a shard that comes back through sonya-proxy/src/main.rs.
use web_queue.Common.{
  ℕ, Bytes, codes, List, [], ◌∷◌, Option, none, some, Result, ok, err, same, ◌≡◌, refl, ap, ◌∙◌,
  if◌then◌else◌, arith, Option-cases, inl, inr,
}
use web_queue.Common.Map
use web_queue.Common.Map.{Map, get-insert}
use web_queue.Server.Http.{HttpError, gone}
use web_queue.Proxy.Shards.{Reply, Forwarded}
use web_queue.Proxy.Shards
use web_queue.Proxy.Cluster.{Streamed, streaming, insert_headers}

-- The answer to a message: a status, what each name of a header stands for, and the body as far as it
-- is read. The answer to a long poll: a status, the headers and the whole body. Or an error.
pub data Seen : Type 0 where
  sent : ℕ → (Bytes → Option Bytes) → Result Bytes Bytes → Seen
  listened : ℕ → List (Bytes × Bytes) → Bytes → Seen
  refused : HttpError → Seen

abbrev pub seen_sent : Result HttpError Streamed → Seen
seen_sent (ok s) = sent s.status (λ name. Map.get name s.headers) s.body
seen_sent (err e) = refused e

abbrev pub seen_listened : Result HttpError Forwarded → Seen
seen_listened (ok f) = listened f.status f.headers f.body
seen_listened (err e) = refused e

abbrev pub or : Option Bytes → Option Bytes → Option Bytes
or (some v) o = some v
or none o = o

-- The last header with this name.
unfoldable pub last_value : List (Bytes × Bytes) → Bytes → Option Bytes
last_value [] name = none
last_value ((key, value) ∷ rest) name =
    let later = last_value rest name in or later (if same key name then some value else none)

-- The shard's answer to a message: its status and body, and the last value of each header; an error
-- where the shard is not reached.
unfoldable pub message_answer : Result Bytes Reply → Seen
message_answer (ok r) = sent r.status (last_value r.headers) r.body
message_answer (err e) = refused (gone (codes "One of shards is not responding"))

abbrev whole : ℕ → List (Bytes × Bytes) → Result Bytes Bytes → Seen
whole status headers (ok body) = listened status headers body
whole status headers (err e) = refused (gone e)

-- The shard's answer to a long poll: its status, headers and body; an error where the shard is not
-- reached or its body is not read to its end.
unfoldable pub poll_answer : Result Bytes Reply → Seen
poll_answer (ok r) = whole r.status r.headers r.body
poll_answer (err e) = refused (gone e)

get-insert_headers :
    (headers : List (Bytes × Bytes)) (m : Map Bytes) (name : Bytes)
    → Map.get name (insert_headers headers m) ≡ or (last_value headers name) (Map.get name m)
unfolding insert_headers last_value
get-insert_headers [] m name = refl
get-insert_headers ((key, value) ∷ rest) m name =
    get-insert_headers rest (Map.insert key value m) name
    ∙ ap (or (last_value rest name)) (get-insert key name value m)
    ∙ elim (Option-cases (last_value rest name)) [
      | inl e ↦ rw e (ground arith)
      | inr (v, e) ↦ rw e refl
    ]

or_none : (o : Option Bytes) → or o none ≡ o
or_none none = refl
or_none (some v) = refl

pub streaming-seen : (r : Result Bytes Reply) → seen_sent (streaming r) ≡ message_answer r
unfolding streaming message_answer Map.get
streaming-seen (ok r) =
    let values : (λ name. Map.get name (insert_headers r.headers [])) ≡ last_value r.headers =
      λ i name. (get-insert_headers r.headers [] name ∙ or_none (last_value r.headers name)) i in
    ap (λ f. sent r.status f r.body) values
streaming-seen (err e) = refl

body_seen :
    (status : ℕ) (headers : List (Bytes × Bytes)) (body : Result Bytes Bytes)
    → seen_listened (
        Shards.subscribe_queue_by_id_longpoll
          (ok (record { status = status; headers = headers; body = body })))
      ≡ whole status headers body
unfolding Shards.subscribe_queue_by_id_longpoll
body_seen status headers (ok b) = refl
body_seen status headers (err e) = refl

pub longpoll-seen :
    (r : Result Bytes Reply)
    → seen_listened (Shards.subscribe_queue_by_id_longpoll r) ≡ poll_answer r
unfolding poll_answer Shards.subscribe_queue_by_id_longpoll
longpoll-seen (ok r) = body_seen r.status r.headers r.body
longpoll-seen (err e) = refl
