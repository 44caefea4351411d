-- ===== src/Map.antt =====
-- std::map and std::multimap as association lists in the order of iteration. The key's order is
-- `compare_by` of a rank of bytes, so that keys of one rank are equivalent.
pub mod Laws
pub mod Order
use docker_plugin_cpp.Base.{
  ℕ, suc, List, [], ◌∷◌, Option, none, some, Bytes, Ordering, Bool, true, false, compare_by,
  if◌then◌else◌,
}

abbrev pub Map : Type 0 → Type 0
Map V = List (Bytes × V)

module _ (rank : ℕ → ℕ) where
  -- Neither key is less than the other.
  abbrev pub equivalent : Bytes → Bytes → Bool
  equivalent k j = elim (compare_by rank k j) [ Ordering.eq ↦ true | _ ↦ false ]

module _ (rank : ℕ → ℕ) {V : Type 0} where
  -- find: the first entry of an equivalent key
  unfoldable pub lookup : Bytes → Map V → Option V
  lookup k [] = none
  lookup k ((j, v) ∷ m) = if equivalent rank k j then some v else lookup k m

  -- count
  unfoldable pub count : Bytes → Map V → ℕ
  count k [] = 0
  count k ((j, v) ∷ m) = if equivalent rank k j then suc (count k m) else count k m

  -- m[k] = v on a std::map
  unfoldable pub assign : Bytes → V → Map V → Map V
  assign k v [] = (k, v) ∷ []
  assign k v ((j, w) ∷ m) = elim (compare_by rank k j) [
    | Ordering.lt ↦ (k, v) ∷ (j, w) ∷ m
    | Ordering.eq ↦ (j, v) ∷ m
    | Ordering.gt ↦ (j, w) ∷ assign k v m
  ]

  -- emplace on a std::multimap: behind the entries that are not greater
  unfoldable pub emplace : Bytes → V → Map V → Map V
  emplace k v [] = (k, v) ∷ []
  emplace k v ((j, w) ∷ m) = elim (compare_by rank k j) [
    | Ordering.lt ↦ (k, v) ∷ (j, w) ∷ m
    | _ ↦ (j, w) ∷ emplace k v m
  ]

  -- The place of the entry that `emplace` makes: the iterator that it returns.
  unfoldable pub emplace_at : Bytes → Map V → ℕ
  emplace_at k [] = 0
  emplace_at k ((j, w) ∷ m) = elim (compare_by rank k j) [
    | Ordering.lt ↦ 0
    | _ ↦ suc (emplace_at k m)
  ]

  -- erase(key): every entry of an equivalent key
  unfoldable pub erase : Bytes → Map V → Map V
  erase k [] = []
  erase k ((j, v) ∷ m) = if equivalent rank k j then erase k m else (j, v) ∷ erase k m

  -- equal_range
  unfoldable pub equal_range : Bytes → Map V → Map V
  equal_range k [] = []
  equal_range k ((j, v) ∷ m) =
      if equivalent rank k j then (j, v) ∷ equal_range k m else equal_range k m
