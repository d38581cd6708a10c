-- ===== src/Common/Map.antt =====
-- `HashMap<String, V>` and `BTreeMap<String, V>` as association lists by their keys' bytes.
use mathlib.Core.Path.{◌≡◌}
use mathlib.Core.Option.{Option, none, some}
use mathlib.Core.List.{List, [], ◌∷◌}
use native.Mathlib.Omega.{arith}
use web_queue.Common.Tests.{if◌then◌else◌}
use web_queue.Common.ByteStrings.{Bytes, same, same_iff}

abbrev pub Map {ℓ} : Type ℓ → Type ℓ
Map V = List (Bytes × V)

module _ {ℓ} {V : Type ℓ} where
  unfoldable pub get : Bytes → Map V → Option V
  get k [] = none
  get k ((j, v) ∷ m) = if same k j then some v else get k m

  unfoldable pub remove : Bytes → Map V → Map V
  remove k [] = []
  remove k ((j, v) ∷ m) = let rest = remove k m in if same k j then rest else (j, v) ∷ rest

  unfoldable pub insert : Bytes → V → Map V → Map V
  insert k v m = (k, v) ∷ remove k m

  pub get-remove :
      (k j : Bytes) (m : Map V) → get j (remove k m) ≡ (if same k j then none else get j m)
  unfolding get remove
  get-remove k j [] = ground arith
  get-remove k j ((i, v) ∷ m) =
      ground (arith, get-remove k j m, same_iff k i, same_iff j i, same_iff k j)

  pub get-insert :
      (k j : Bytes) (v : V) (m : Map V)
      → get j (insert k v m) ≡ (if same k j then some v else get j m)
  unfolding get insert
  get-insert k j v m = ground (arith, get-remove k j m, same_iff k j, same_iff j k)

pub ruleset map_laws = (get-insert, get-remove)
