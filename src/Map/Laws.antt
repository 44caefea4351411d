-- ===== src/Map/Laws.antt =====
-- Laws of lookup, with the rank's equivalence of keys.
use docker_plugin_cpp.Base.{
  ℕ, suc, ◌≡◌, refl, ◌<◌, [], ◌∷◌, none, some, Bytes, false, arith, compare_by-eq_iff,
  compare_by_self, compare_by, All, Ordering, Bool-cases, inl, inr, if◌then◌else◌, length,
}
use docker_plugin_cpp.Map.{Map, equivalent, lookup, assign, emplace, emplace_at, erase, count}

module _ (rank : ℕ → ℕ) {V : Type 0} where
  pub lookup-assign :
      (k j : Bytes) (v : V) (m : Map V)
      → lookup rank j (assign rank k v m)
        ≡ (if equivalent rank j k then some v else lookup rank j m)
  unfolding lookup assign
  lookup-assign k j v [] = refl
  lookup-assign k j v ((i, w) ∷ m) = ground (
    arith,
    compare_by-eq_iff rank k j,
    compare_by-eq_iff rank j k,
    compare_by-eq_iff rank k i,
    compare_by-eq_iff rank j i,
    lookup-assign k j v m,
  )

  pub lookup-erase_self : (k : Bytes) (m : Map V) → lookup rank k (erase rank k m) ≡ none
  unfolding lookup erase
  lookup-erase_self k [] = refl
  lookup-erase_self k ((i, w) ∷ m) = ground (arith, lookup-erase_self k m)

  pub count-erase_self : (k : Bytes) (m : Map V) → count rank k (erase rank k m) ≡ 0
  unfolding count erase
  count-erase_self k [] = refl
  count-erase_self k ((i, w) ∷ m) = ground (arith, count-erase_self k m)

  pub lookup-emplace_of_none :
      (k : Bytes) (v : V) (m : Map V)
      → lookup rank k m ≡ none
      → lookup rank k (emplace rank k v m) ≡ some v
  unfolding lookup emplace
  lookup-emplace_of_none k v [] h = ground (arith, compare_by_self rank k)
  lookup-emplace_of_none k v ((i, w) ∷ m) h =
      ground (arith, compare_by_self rank k, lookup-emplace_of_none k v m)

  pub emplace_at-lt :
      (k : Bytes) (v : V) (m : Map V) → emplace_at rank k m < length (emplace rank k v m)
  unfolding emplace emplace_at
  emplace_at-lt k v [] = omega arith
  emplace_at-lt k v ((i, w) ∷ m) = ground (arith, emplace_at-lt k v m)

  pub count-emplace_self :
      (k : Bytes) (v : V) (m : Map V) → count rank k (emplace rank k v m) ≡ suc (count rank k m)
  unfolding count emplace
  count-emplace_self k v [] = ground (arith, compare_by_self rank k)
  count-emplace_self k v ((i, w) ∷ m) =
      ground (arith, compare_by_self rank k, count-emplace_self k v m)

  pub lookup-emplace_ne :
      (k j : Bytes) (v : V) (m : Map V)
      → equivalent rank j k ≡ false
      → lookup rank j (emplace rank k v m) ≡ lookup rank j m
  unfolding lookup emplace
  lookup-emplace_ne k j v [] h = ground arith
  lookup-emplace_ne k j v ((i, w) ∷ m) h = ground (arith, lookup-emplace_ne k j v m h)

  pub lookup-erase_ne :
      (k j : Bytes) (m : Map V)
      → equivalent rank j k ≡ false
      → lookup rank j (erase rank k m) ≡ lookup rank j m
  unfolding lookup erase
  lookup-erase_ne k j [] h = refl
  lookup-erase_ne k j ((i, w) ∷ m) h = ground (
    arith,
    compare_by-eq_iff rank j k,
    compare_by-eq_iff rank k i,
    compare_by-eq_iff rank j i,
    lookup-erase_ne k j m h,
  )

  pub All-erase :
      (P : Bytes × V → Type 0) (k : Bytes) (m : Map V) → All P m → All P (erase rank k m)
  unfolding erase
  All-erase P k [] h = tt
  All-erase P k ((j, v) ∷ m) (p, h) = elim (Bool-cases (equivalent rank k j)) [
    | inl same ↦ rw same (All-erase P k m h)
    | inr other ↦ rw other (p, All-erase P k m h)
  ]

  -- The two ways in which emplace goes on at an entry.
  All_of_order :
      (P : Bytes × V → Type 0) (k j : Bytes) (v w : V) (m emplaced : Map V)
      → P (k, v)
      → P (j, w)
      → All P m
      → All P emplaced
      → (o : Ordering)
      → All P (elim o [ Ordering.lt ↦ (k, v) ∷ (j, w) ∷ m | _ ↦ (j, w) ∷ emplaced ])
  All_of_order P k j v w m emplaced p q h l Ordering.lt = (p, (q, h))
  All_of_order P k j v w m emplaced p q h l Ordering.eq = (q, l)
  All_of_order P k j v w m emplaced p q h l Ordering.gt = (q, l)

  pub All-emplace :
      (P : Bytes × V → Type 0) (k : Bytes) (v : V) (m : Map V)
      → P (k, v)
      → All P m
      → All P (emplace rank k v m)
  unfolding emplace
  All-emplace P k v [] p h = (p, tt)
  All-emplace P k v ((j, w) ∷ m) p (q, h) =
      All_of_order P k j v w m (emplace rank k v m) p q h (All-emplace P k v m p h)
        (compare_by rank k j)
