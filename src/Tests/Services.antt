-- ===== src/Tests/Services.antt =====
-- The queue service as a whole, alone and behind the proxy, at concrete requests.
use web_queue.Common.{
  ℕ, Bytes, codes, same, List, [], ◌∷◌, has_prefix, none, some, is_some, Result, ok, err, refl,
  if◌then◌else◌,
}
use web_queue.Message.{last}
use web_queue.Message.Interface.{event_message-IsUniqId}
use web_queue.Sled.Memory.{Db, memory, memory-IsReliable}
use web_queue.Broadcast.Memory.{Channel}
use web_queue.Api.{
  service_token_guard, extract_access_token, extract_access_token_from_header,
  extract_access_token_from_query, and_then, or_else, filter, trim_on,
}
use web_queue.Api.Routes.{post, get}
use web_queue.Queue.State.{Queue}
use web_queue.Queue.Abstract.Represents.{Represents}
use web_queue.Server.Service.{Extractors, Outcome, responds, serve_all}
use web_queue.Server.Service.Specified.{Opening}
use web_queue.Server.Service.Guarded.{serve_all-unauthorized}
use web_queue.Proxy.Shards.{Reply}
use web_queue.Proxy.Cluster.{ShardRequest, Client, HttpRequest}
use web_queue.Proxy.Cluster.Transparent.{Call, sending, listening}
use web_queue.Proxy.Cluster.EndToEnd.{shard}
use web_queue.Tests.Fixtures.{Message, news, fresh, message}
use web_queue.Tests.Refining.{written, reads, tagged, one_queue, fresh-Represents}
use web_queue.Tests.Routes.{web, first_route, secure, first_route-IsGuarded}

abbrev Asked : Type 0
Asked = ShardRequest Unit Message

-- Requests about the queue "news" and the id "7", with this header.
abbrev pub about_news : Bytes → Extractors Asked Bytes Message
about_news authorization = record {
  request = λ r. record {
    method = if is_some r.message then post else get;
    head = record { authorization = some authorization; path = r.path; query = none };
  };
  queue_name = λ r. news;
  uniq_id = λ r. codes "7";
  sequence_query = λ r. some (some last);
  message = λ r. r.message;
  received = λ r. [];
}

abbrev pub asked : List Asked
asked =
    record {
      path = codes "/queue/send/{queue_name}";
      head = tt;
      message = some (message (codes "7") 5);
    }
    ∷ record {
      path = codes "/queue/listen/longpoll/{queue_name}/{uniq_id}";
      head = tt;
      message = none;
    }
    ∷ []

serve_all-unauthorized_example :
    Represents tagged memory-IsReliable written
      (serve_all
        (about_news (codes "Bearer guess"))
        web
        (λ n. none)
        (some secure)
        tagged
        first_route
        asked
        (fresh (some 3))).1
      one_queue
unfolding memory same service_token_guard extract_access_token extract_access_token_from_header
    extract_access_token_from_query and_then or_else filter trim_on has_prefix
serve_all-unauthorized_example =
    serve_all-unauthorized (about_news (codes "Bearer guess")) web secure (λ n. none) tagged
      memory-IsReliable (event_message-IsUniqId ℕ) written (λ m. refl) reads first_route
      first_route-IsGuarded asked (fresh (some 3)) one_queue (refl, (refl, tt)) (refl, (refl, tt))
      fresh-Represents

abbrev Shard : Type 0
Shard = Queue Db (Channel Message)

abbrev World : Type 0
World = Bytes → Shard

abbrev reply_of : Outcome (Opening Message) Message → Result Bytes Reply
reply_of (responds (ok r)) = ok (record { status = 200; headers = []; body = ok [] })
reply_of _ = err (codes "timeout")

abbrev serving : Asked → Shard → Result Bytes Reply × Shard
serving = shard (about_news (codes "Bearer key")) web (λ n. none) none first_route reply_of tagged

abbrev client : Client World Unit Message
client = record {
  send = λ a r w. ((serving r (w a)).0, λ b. if same a b then (serving r (w a)).1 else w b);
}

abbrev on_path : Bytes → HttpRequest Unit
on_path path = record { path = path; path_and_query = none; head = tt }

abbrev calls : List (Call Unit ℕ)
calls =
    sending (on_path (codes "/queue/send/{queue_name}")) (message (codes "7") 5)
    ∷ listening (on_path (codes "/queue/listen/longpoll/{queue_name}/{uniq_id}"))
    ∷ []
