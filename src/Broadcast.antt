-- ===== src/Broadcast.antt =====
-- The interface of `tokio::sync::broadcast`, which the queue and the proxy share messages through.
-- It is not part of the repository. A channel's state goes with its `Sender`, which the program
-- keeps in one place and never clones: dropping it closes the channel.
pub mod Memory
use web_queue.Common.{ℕ, ◌≤◌, ◌<◌, List, [], ◌∷◌, ◌++◌, Bool, true, false, Result, ◌≡◌, length}

pub data RecvError : Type 0 where
  closed : RecvError
  lagged : ℕ → RecvError

pub record Broadcast (Sender Receiver T : Type 0) : Type 0 where
  pub channel : ℕ → Sender
  pub subscribe : Sender → Receiver × Sender
  -- the number of receivers that the value went to, or the value back if there was none
  pub send : Sender → T → Result T ℕ × Sender
  pub receiver_count : Sender → ℕ

-- What is documented of a channel: a receiver gets the values sent since it subscribed, in order,
-- as long as it stays within the channel's capacity.
pub record IsChannel {Sender Receiver T : Type 0} (b : Broadcast Sender Receiver T) : Type 0 where
  pub capacity : Sender → ℕ
  pub joined : Sender → Receiver → Bool
  pub pending : Sender → Receiver → List T
  pub channel_capacity : (n : ℕ) → n ≤ capacity (b.channel n)
  pub subscribe_capacity : (s : Sender) → capacity (b.subscribe s).1 ≡ capacity s
  pub subscribe_joined : (s : Sender) → joined (b.subscribe s).1 (b.subscribe s).0 ≡ true
  pub subscribe_pending : (s : Sender) → pending (b.subscribe s).1 (b.subscribe s).0 ≡ []
  pub send_capacity : (s : Sender) (v : T) → capacity (b.send s v).1 ≡ capacity s
  pub send_joined :
      (s : Sender) (v : T) (r : Receiver) → joined s r ≡ true → joined (b.send s v).1 r ≡ true
  pub send_pending :
      (s : Sender) (v : T) (r : Receiver)
      → joined s r ≡ true
      → length (pending s r) < capacity s
      → pending (b.send s v).1 r ≡ pending s r ++ v ∷ []
