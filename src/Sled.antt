-- ===== src/Sled.antt =====
-- The interface of the embedded database that sonya/src/queue/map.rs calls (`sled::Db` and
-- `sled::Tree`). It is not part of the repository: its operations are parameters, and what the
-- program relies on in them are the laws of `IsReliable`. A `Tree` is named by its tree's name.
pub mod Ordered
pub mod Purge
pub mod Memory
use web_queue.Common.{
  Bytes, Option, none, some, List, [], Bool, true, false, not, ◌&&◌, Result, ok, Exec, ◌≡◌, map,
  same, has_prefix, lt_bytes, keep, is_some, unwrap_or, if◌then◌else◌,
}
use Ordered.{Entry, Entries, IsSorted, has_bytes, lookup, put, without, purge}

pub record Sled (Db Error : Type 0) : Type 0 where
  pub default_tree : Bytes
  pub tree_names : Db → List Bytes
  pub open_tree : Bytes → Exec Db Error (Unit {0})
  pub drop_tree : Bytes → Exec Db Error Bool
  pub insert : Bytes → Bytes → Bytes → Exec Db Error (Unit {0})
  -- the batch is the keys to remove: the program puts nothing else into one
  pub apply_batch : Bytes → List Bytes → Exec Db Error (Unit {0})
  -- the iterators, which can fail at each item
  pub iter : Bytes → Db → List (Result Error (Entry Bytes))
  pub scan_prefix : Bytes → Bytes → Db → List (Result Error (Entry Bytes))
  pub range : Bytes → Bytes → Bytes → Db → List (Result Error (Entry Bytes))
  -- on the default tree
  pub update_and_fetch : Bytes → (Option Bytes → Option Bytes) → Exec Db Error (Option Bytes)

abbrev pub in_range : Bytes → Bytes → Entry Bytes → Bool
in_range lo hi e = not (lt_bytes e.0 lo) && lt_bytes e.0 hi

-- `None` from the closure of `update_and_fetch` removes the key.
abbrev pub write : Bytes → Option Bytes → Entries Bytes → Entries Bytes
write k (some v) es = put k v es
write k none es = without k es

-- Storage on which no operation fails: a database is a family of named trees, a tree is its entries
-- in the order of their keys.
pub record IsReliable {Db Error : Type 0} (s : Sled Db Error) : Type 0 where
  pub trees : Db → Bytes → Option (Entries Bytes)
  pub names : (db : Db) (q : Bytes) → has_bytes q (s.tree_names db) ≡ is_some (trees db q)
  pub sorted : (db : Db) (q : Bytes) → IsSorted (unwrap_or (trees db q) [])
  pub iter_all : (db : Db) (q : Bytes) → s.iter q db ≡ map ok (unwrap_or (trees db q) [])
  pub scan :
      (db : Db) (q p : Bytes)
      → s.scan_prefix q p db ≡ map ok (keep (λ e. has_prefix p e.0) (unwrap_or (trees db q) []))
  pub ranged :
      (db : Db) (q lo hi : Bytes)
      → s.range q lo hi db ≡ map ok (keep (in_range lo hi) (unwrap_or (trees db q) []))
  pub open_ok : (db : Db) (q : Bytes) → (s.open_tree q db).0 ≡ ok tt
  pub open_trees :
      (db : Db) (q j : Bytes)
      → trees (s.open_tree q db).1 j
        ≡ (if same q j then some (unwrap_or (trees db q) []) else trees db j)
  pub drop_ok :
      (db : Db) (q : Bytes)
      → same q s.default_tree ≡ false
      → (s.drop_tree q db).0 ≡ ok (is_some (trees db q))
  pub drop_trees :
      (db : Db) (q j : Bytes)
      → same q s.default_tree ≡ false
      → trees (s.drop_tree q db).1 j ≡ (if same q j then none else trees db j)
  pub insert_ok :
      (db : Db) (q k v : Bytes) → is_some (trees db q) ≡ true → (s.insert q k v db).0 ≡ ok tt
  pub insert_trees :
      (db : Db) (q k v j : Bytes)
      → is_some (trees db q) ≡ true
      → trees (s.insert q k v db).1 j
        ≡ (if same q j then some (put k v (unwrap_or (trees db q) [])) else trees db j)
  pub batch_ok :
      (db : Db) (q : Bytes) (ks : List Bytes)
      → is_some (trees db q) ≡ true
      → (s.apply_batch q ks db).0 ≡ ok tt
  pub batch_trees :
      (db : Db) (q : Bytes) (ks : List Bytes) (j : Bytes)
      → is_some (trees db q) ≡ true
      → trees (s.apply_batch q ks db).1 j
        ≡ (if same q j then some (purge ks (unwrap_or (trees db q) [])) else trees db j)
  pub update_ok :
      (db : Db) (k : Bytes) (f : Option Bytes → Option Bytes)
      → (s.update_and_fetch k f db).0 ≡ ok (f (lookup k (unwrap_or (trees db s.default_tree) [])))
  pub update_trees :
      (db : Db) (k : Bytes) (f : Option Bytes → Option Bytes) (j : Bytes)
      → trees (s.update_and_fetch k f db).1 j ≡ (
          let es = unwrap_or (trees db s.default_tree) [] in
          if same s.default_tree j then some (write k (f (lookup k es)) es) else trees db j)
