-- ===== src/Tests/Starts.antt =====
-- The start of the queue service, and its configuration, at concrete values.
use web_queue.Common.{
  ℕ, Bytes, codes, same, map, Option, none, some, unwrap_or, Result, ok, ◌≡◌, refl,
}
use web_queue.Message.{event_message}
use web_queue.Message.Interface.{event_message-IsUniqId}
use web_queue.Sled.Memory.{Db, memory, memory-IsReliable}
use web_queue.Queue.State.{Queue}
use web_queue.Queue.Methods.{DbConfig}
use web_queue.Queue.Abstract.Represents.{Represents}
use web_queue.Queue.Abstract.Starting.{restarted}
use web_queue.Broadcast.Memory.{Channel}
use web_queue.Config.{Tls}
use web_queue.Server.Service.{serve_all}
use web_queue.Server.Service.Specified.{observed, specified_all}
use web_queue.Startup.{registering}
use web_queue.Startup.Sonya.{Service, running, start, start-specified}
use web_queue.Tests.Fixtures.{Message, fresh}
use web_queue.Tests.Refining.{written, reads, tagged, one_queue, fresh-Represents}
use web_queue.Tests.Routes.{web, first_route}
use web_queue.Tests.Configs.{config}
use web_queue.Tests.Services.{about_news, asked}

abbrev free : Option Tls → Bytes → Option (Unit {0})
free tls address = none

-- The database as the earlier run left it.
abbrev reopened : DbConfig → Result (Unit {0}) Db
reopened c = ok (fresh (some 3)).map

start-specified_example :
    (service : Service Bytes (Queue Db (Channel Message))) × (start
        (codes "0.0.0.0:8080")
        free
        tagged
        reopened
        (codes "1f")
        (ok config)
      ≡ running service)
    × (service.address ≡ unwrap_or config.addr (codes "0.0.0.0:8080"))
    × (let (served, q) =
          serve_all
            (about_news (codes "Bearer key"))
            web
            (λ n. none)
            service.secure
            tagged
            first_route
            asked
            service.queue in
        let (told, s') =
          specified_all
            (about_news (codes "Bearer key"))
            web
            (λ n. none)
            config.secure
            (event_message ℕ)
            first_route
            asked
            (restarted config.queue one_queue) in
        (map observed served ≡ told) × Represents tagged memory-IsReliable written q s')
unfolding memory same registering
start-specified_example =
    start-specified (codes "0.0.0.0:8080") free (about_news (codes "Bearer key")) web (λ n. none)
      tagged memory-IsReliable (event_message-IsUniqId ℕ) written (λ m. refl) reads reopened
      (codes "1f") config (fresh (some 3)) one_queue fresh-Represents refl (λ e. cc) refl
      first_route asked (refl, (refl, tt))
