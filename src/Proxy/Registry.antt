-- ===== src/Proxy/Registry.antt =====
-- sonya-proxy/src/registry.rs: the list of shards under a consistent hash (the crate maglev, a
-- parameter), with the messages that read and replace it.
use web_queue.Common.{
  ℕ, Bytes, List, [], ◌∷◌, Option, none, some, max, length, ◌≡◌, Bool, true, false, same, ◌||◌,
}

-- `Maglev<String, _>`
pub record Maglev (M : Type 0) : Type 0 where
  pub new : List Bytes → M
  pub with_capacity : List Bytes → ℕ → M
  pub nodes : M → List Bytes
  pub capacity : M → ℕ
  -- `get` of the hashed pair of a queue's name and an id
  pub get : M → Bytes × Bytes → Option Bytes

unfoldable pub contains : List Bytes → Bytes → Bool
contains [] x = false
contains (y ∷ ys) x = same y x || contains ys x

-- What is documented of it: it keeps its nodes, and a table with a node finds one of its nodes.
pub record IsMaglev {M : Type 0} (m : Maglev M) : Type 0 where
  pub nodes-new : (l : List Bytes) → m.nodes (m.new l) ≡ l
  pub nodes-with_capacity : (l : List Bytes) (n : ℕ) → m.nodes (m.with_capacity l n) ≡ l
  pub get-found :
      (t : M) (x : Bytes) (xs : List Bytes) (key : Bytes × Bytes)
      → m.nodes t ≡ x ∷ xs
      → (node : Bytes) × (m.get t key ≡ some node) × (contains (x ∷ xs) node ≡ true)

module _ {M : Type 0} (m : Maglev M) where
  -- `RegistryActor::new`
  unfoldable pub new_registry : List Bytes → M
  new_registry registry = m.new registry

  abbrev pub get_when : List Bytes → Option Bytes → Option Bytes
  get_when [] shard = none
  get_when (x ∷ xs) shard = shard

  -- `Handler<GetAddress>::handle`
  unfoldable pub get_address : Bytes → Bytes → M → Option Bytes
  get_address queue_name id registry = get_when (m.nodes registry) (m.get registry (queue_name, id))

  abbrev pub all_when : List Bytes → Option (List Bytes)
  all_when [] = none
  all_when (x ∷ xs) = some (x ∷ xs)

  -- `Handler<GetAllAddresses>::handle`
  unfoldable pub get_all_addresses : M → Option (List Bytes)
  get_all_addresses registry = all_when (m.nodes registry)

  -- `Handler<UpdateRegistry>::handle`
  unfoldable pub update_registry : List Bytes → M → M
  update_registry new_registry registry =
      m.with_capacity new_registry (max (m.capacity registry) (length new_registry))
