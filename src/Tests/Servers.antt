-- ===== src/Tests/Servers.antt =====
-- The theorems on the server's handlers at concrete inputs.
use web_queue.Common.{
  ℕ, ◌≡◌, refl, List, [], ◌∷◌, ◌++◌, map, false, if◌then◌else◌, some, ok, err, Result, unwrap_or,
}
use web_queue.Broadcast.{RecvError, lagged}
use web_queue.Queue.State.{PreparedStream}
use web_queue.Queue.Reads.{prepare_stream}
use web_queue.Server.Connection.{
  text, stop, handle_stream, taken, has_ended, handle_stream-prepare_stream,
}
use web_queue.Server.Handlers.{Progress}
use web_queue.Tests.Fixtures.{Message}

-- Two values, and then the receiver falls behind.
abbrev results : List (Result RecvError ℕ)
results = ok 7 ∷ ok 8 ∷ err (lagged 3) ∷ []

handle_stream-prepare_stream_example :
    handle_stream
      (λ n. ok (n ∷ []))
      (stop ∷ [])
      (prepare_stream results (some (6 ∷ [])))
      (has_ended results)
    ≡ map (λ n. text (n ∷ [])) (unwrap_or (some (6 ∷ [])) [] ++ taken results)
      ++ (if has_ended results then stop ∷ [] else [])
handle_stream-prepare_stream_example =
    handle_stream-prepare_stream (λ n. ok (n ∷ [])) (λ n. n ∷ []) (λ n. refl) (stop ∷ []) refl
      results (some (6 ∷ []))

abbrev receiver : ℕ
receiver = 0

abbrev waiting : PreparedStream ℕ Message → Progress Message
waiting s = record { yields = []; ended = false }
