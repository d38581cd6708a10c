-- ===== src/Sled/Memory.antt =====
-- A database in memory that keeps the laws of `IsReliable`: it shows that they can be met, and runs
-- the examples.
use web_queue.Common.{
  Bytes, codes, Option, none, some, List, [], ◌∷◌, not, ok, ◌≡◌, refl, ap, ◌∙◌, map, same,
  has_prefix, keep, is_some, unwrap_or, if◌then◌else◌, arith,
}
use web_queue.Common.Map
use web_queue.Common.Map.{Map, get-insert, get-remove}
use web_queue.Sled.{Sled, IsReliable, in_range, write}
use web_queue.Sled.Ordered.{
  Entries, IsSorted, has_bytes, lookup, put, without, purge, put-IsSorted, keep-IsSorted,
}

-- The trees by name, each sorted.
pub record Tree : Type 0 where
  pub entries : Entries Bytes
  pub sorted : IsSorted entries

abbrev pub Db : Type 0
Db = Map Tree

abbrev empty_tree : Tree
empty_tree = record { entries = []; sorted = tt }

abbrev tree : Bytes → Db → Tree
tree q d = unwrap_or (Map.get q d) empty_tree

abbrev pub contents : Option Tree → Option (Entries Bytes)
contents none = none
contents (some t) = some t.entries

put_in : Bytes → Bytes → Tree → Tree
put_in k v t = record { entries = put k v t.entries; sorted = put-IsSorted k v t.entries t.sorted }

pub IsSorted-purge : (ks : List Bytes) (t : Tree) → IsSorted (purge ks t.entries)
unfolding purge
IsSorted-purge ks t = keep-IsSorted (λ e. not (has_bytes e.0 ks)) t.entries t.sorted

purge_in : List Bytes → Tree → Tree
purge_in ks t = record { entries = purge ks t.entries; sorted = IsSorted-purge ks t }

pub IsSorted-write : (k : Bytes) (v : Option Bytes) (t : Tree) → IsSorted (write k v t.entries)
IsSorted-write k (some v) t = put-IsSorted k v t.entries t.sorted
IsSorted-write k none t = unfold without in keep-IsSorted (λ e. not (same k e.0)) t.entries t.sorted

write_in : Bytes → Option Bytes → Tree → Tree
write_in k v t = record { entries = write k v t.entries; sorted = IsSorted-write k v t }

abbrev pub default_name : Bytes
default_name = codes "__sled__default"

unfoldable pub memory : Sled Db (Unit {0})
unfolding put_in purge_in write_in
memory = record {
  default_tree = default_name;
  tree_names = map (λ e. e.0);
  open_tree = λ q d. (ok tt, Map.insert q (tree q d) d);
  drop_tree = λ q d. (ok (is_some (Map.get q d)), Map.remove q d);
  insert = λ q k v d. (ok tt, Map.insert q (put_in k v (tree q d)) d);
  apply_batch = λ q ks d. (ok tt, Map.insert q (purge_in ks (tree q d)) d);
  iter = λ q d. map ok (tree q d).entries;
  scan_prefix = λ q p d. map ok (keep (λ e. has_prefix p e.0) (tree q d).entries);
  range = λ q lo hi d. map ok (keep (in_range lo hi) (tree q d).entries);
  update_and_fetch = λ k f d.
      let v = f (lookup k (tree default_name d).entries) in
      (ok v, Map.insert default_name (write_in k v (tree default_name d)) d);
}

names_lem : (q : Bytes) (d : Db) → has_bytes q (map (λ e. e.0) d) ≡ is_some (contents (Map.get q d))
unfolding has_bytes Map.get
names_lem q [] = refl
names_lem q ((j, t) ∷ d) = ground (arith, names_lem q d)

entries_lem : (q : Bytes) (d : Db) → (tree q d).entries ≡ unwrap_or (contents (Map.get q d)) []
entries_lem q d = ground arith

insert_contents :
    (q j : Bytes) (t : Tree) (d : Db)
    → contents (Map.get j (Map.insert q t d))
      ≡ (if same q j then some t.entries else contents (Map.get j d))
insert_contents q j t d = ap contents (get-insert q j t d) ∙ ground arith

remove-contents :
    (q j : Bytes) (d : Db)
    → contents (Map.get j (Map.remove q d)) ≡ (if same q j then none else contents (Map.get j d))
remove-contents q j d = ap contents (get-remove q j d) ∙ ground arith

abbrev chosen : Bytes → Bytes → Db → Entries Bytes → Option (Entries Bytes)
chosen q j d es = if same q j then some es else contents (Map.get j d)

is_some-contents : (o : Option Tree) → is_some o ≡ is_some (contents o)
is_some-contents none = refl
is_some-contents (some t) = refl

-- The database in memory is reliable.
pub memory-IsReliable : IsReliable memory
unfolding memory put_in purge_in write_in
memory-IsReliable = record {
  trees = λ d q. contents (Map.get q d);
  names = λ d q. names_lem q d;
  sorted = λ d q. rw (← entries_lem q d) ((tree q d).sorted);
  iter_all = λ d q. ap (map ok) (entries_lem q d);
  scan = λ d q p. ap (λ es. map ok (keep (λ e. has_prefix p e.0) es)) (entries_lem q d);
  ranged = λ d q lo hi. ap (λ es. map ok (keep (in_range lo hi) es)) (entries_lem q d);
  open_ok = λ d q. refl;
  open_trees = λ d q j. insert_contents q j (tree q d) d ∙ ap (chosen q j d) (entries_lem q d);
  drop_ok = λ d q h. ap ok (is_some-contents (Map.get q d));
  drop_trees = λ d q j h. remove-contents q j d;
  insert_ok = λ d q k v h. refl;
  insert_trees = λ d q k v j h.
      insert_contents q j (put_in k v (tree q d)) d
      ∙ ap (λ es. chosen q j d (put k v es)) (entries_lem q d);
  batch_ok = λ d q ks h. refl;
  batch_trees = λ d q ks j h.
      insert_contents q j (purge_in ks (tree q d)) d
      ∙ ap (λ es. chosen q j d (purge ks es)) (entries_lem q d);
  update_ok = λ d k f. ap (λ es. ok (f (lookup k es))) (entries_lem default_name d);
  update_trees = λ d k f j.
      insert_contents default_name j _ d
      ∙ ap (λ es. chosen default_name j d (write k (f (lookup k es)) es))
          (entries_lem default_name d);
}

pub memory_trees : (d : Db) (q : Bytes) → memory-IsReliable.trees d q ≡ contents (Map.get q d)
unfolding memory-IsReliable
memory_trees d q = refl
