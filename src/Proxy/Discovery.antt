-- ===== src/Proxy/Discovery.antt =====
-- sonya-proxy/src/service_discovery/mod.rs: the actor that follows the list of shards, and the futures
-- by which open streams learn of a new list. A shared broadcaster (`Arc`) is its place in a store; a
-- waker is a number, and `woken` lists those that were woken.
pub mod Updates
pub mod Attempts
pub mod Following
pub mod Reloading
pub mod Etcd
use web_queue.Common.{
  ℕ, suc, List, [], ◌∷◌, ◌++◌, ◌==◌, Bool, true, false, Option, none, some, if◌then◌else◌,
}
use web_queue.Api.{max_reconnect_attempts, sleep_between_reconnects}

pub record ServiceDiscoveryUpdateBroadcast : Type 0 where
  pub waiters : List ℕ
  pub state : Bool

-- `Default`
abbrev pub default_broadcast : ServiceDiscoveryUpdateBroadcast
default_broadcast = record { waiters = []; state = false }

pub record ServiceDiscoveryUpdateSubscribeFuture : Type 0 where
  pub place : ℕ
  pub registered : Bool

-- The actor with the store of its broadcasters; `sent` are the lists sent to the registry, `streams`
-- the attempt numbers of the streams that were started, last first.
pub record ServiceDiscoveryActor (RegistryList : Type 0) : Type 0 where
  pub broadcasts : ℕ → ServiceDiscoveryUpdateBroadcast
  pub next : ℕ
  pub broadcaster : ℕ
  pub attempts : ℕ
  pub sent : List RegistryList
  pub streams : List ℕ
  pub woken : List ℕ
  -- whether the sender that ends the process is still held, and whether it was used
  pub closer : Bool
  pub closed : Bool

abbrev pub write :
    ℕ
    → ServiceDiscoveryUpdateBroadcast
    → (ℕ → ServiceDiscoveryUpdateBroadcast)
    → ℕ
    → ServiceDiscoveryUpdateBroadcast
write i b bs j = if j == i then b else bs j

-- `Poll`
pub data Poll (A : Type 0) : Type 0 where
  ready : A → Poll A
  pending : Poll A

module _ {RegistryList : Type 0} where
  -- `ServiceDiscoveryActor::new`
  abbrev pub new : ServiceDiscoveryActor RegistryList
  new = record {
    broadcasts = λ i. default_broadcast;
    next = 1;
    broadcaster = 0;
    attempts = 0;
    sent = [];
    streams = [];
    woken = [];
    closer = true;
    closed = false;
  }

  -- `StreamHandler<UpdateRegistry>::handle`
  unfoldable pub update :
      RegistryList → ServiceDiscoveryActor RegistryList → ServiceDiscoveryActor RegistryList
  update r a =
      let old = a.broadcasts a.broadcaster in
      record a {
        attempts = 0;
        sent = r ∷ a.sent;
        broadcaster = a.next;
        next = suc a.next;
        broadcasts =
            write a.broadcaster (record old { state = true })
              (write a.next default_broadcast a.broadcasts);
        woken = old.waiters ++ a.woken;
      }

  -- `Actor::started`: the stream of lists, which ends with a pause of this attempt
  unfoldable pub started : ServiceDiscoveryActor RegistryList → ServiceDiscoveryActor RegistryList
  started a = record a { streams = a.attempts ∷ a.streams }

  -- `Actor::stopped`
  unfoldable pub stopped : ServiceDiscoveryActor RegistryList → ServiceDiscoveryActor RegistryList
  stopped a = if a.closer then record a { closer = false; closed = true } else a

  -- `StreamHandler::finished`
  unfoldable pub finished : ServiceDiscoveryActor RegistryList → ServiceDiscoveryActor RegistryList
  finished a =
      if a.attempts == max_reconnect_attempts
      then a
      else (let b = started a in record b { attempts = suc b.attempts })

  -- `Handler<SubscribeUpdates>::handle`
  unfoldable pub subscribe :
      ServiceDiscoveryActor RegistryList → ServiceDiscoveryUpdateSubscribeFuture
  subscribe a = record { place = a.broadcaster; registered = false }

  -- the waker of a first poll
  abbrev pub registering :
      ℕ
      → ServiceDiscoveryUpdateSubscribeFuture
      → ServiceDiscoveryActor RegistryList
      → ServiceDiscoveryActor RegistryList
  registering waker f a =
      let b = a.broadcasts f.place in
      if f.registered then a else record a {
        broadcasts = write f.place (record b { waiters = waker ∷ b.waiters }) a.broadcasts;
      }

  -- `Future::poll` of a subscription: whether it is ready, the subscription and the actor after it.
  -- The waker is stored first and the state is loaded afterwards; what comes in between is done by the
  -- actor on its own thread.
  unfoldable pub poll_during :
      (ServiceDiscoveryActor RegistryList → ServiceDiscoveryActor RegistryList)
      → ℕ
      → ServiceDiscoveryUpdateSubscribeFuture
      → ServiceDiscoveryActor RegistryList
      → Poll Unit × ServiceDiscoveryUpdateSubscribeFuture × ServiceDiscoveryActor RegistryList
  poll_during meanwhile waker f a =
      let a' = meanwhile (registering waker f a) in
      (
        if (a'.broadcasts f.place).state then ready tt else pending,
        record f { registered = true },
        a',
      )

  -- a poll with nothing in between
  unfoldable pub poll :
      ℕ
      → ServiceDiscoveryUpdateSubscribeFuture
      → ServiceDiscoveryActor RegistryList
      → Poll Unit × ServiceDiscoveryUpdateSubscribeFuture × ServiceDiscoveryActor RegistryList
  unfolding poll_during
  poll = poll_during (λ a. a)
