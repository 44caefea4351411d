-- ===== src/Map/Order.antt =====
-- The order of keys, and assignments under different keys.
use docker_plugin_cpp.Base.{
  ℕ, ◌≡◌, refl, sym, [], ◌∷◌, Bytes, Ordering, false, arith, compare_by, compare_by_self,
}
use docker_plugin_cpp.Map.{Map, equivalent, assign}

module _ (rank : ℕ → ℕ) where
  pub compare_by_swap :
      (s t : Bytes) → compare_by rank s t ≡ Ordering.gt → compare_by rank t s ≡ Ordering.lt
  unfolding compare_by
  compare_by_swap [] [] e = cc
  compare_by_swap [] (b ∷ t) e = cc
  compare_by_swap (a ∷ s) [] e = refl
  compare_by_swap (a ∷ s) (b ∷ t) e = ground (arith, compare_by_swap s t)

  pub compare_by_swap_lt :
      (s t : Bytes) → compare_by rank s t ≡ Ordering.lt → compare_by rank t s ≡ Ordering.gt
  unfolding compare_by
  compare_by_swap_lt [] [] e = cc
  compare_by_swap_lt [] (b ∷ t) e = refl
  compare_by_swap_lt (a ∷ s) [] e = cc
  compare_by_swap_lt (a ∷ s) (b ∷ t) e = ground (arith, compare_by_swap_lt s t)

  pub compare_by_trans :
      (s t u : Bytes)
      → compare_by rank s t ≡ Ordering.lt
      → compare_by rank t u ≡ Ordering.lt
      → compare_by rank s u ≡ Ordering.lt
  unfolding compare_by
  compare_by_trans [] [] u e f = cc
  compare_by_trans (a ∷ s) [] u e f = cc
  compare_by_trans s (b ∷ t) [] e f = ground arith
  compare_by_trans [] (b ∷ t) (c ∷ u) e f = refl
  compare_by_trans (a ∷ s) (b ∷ t) (c ∷ u) e f = ground (arith, compare_by_trans s t u)

  -- A comparison sees a key up to equivalence only.
  pub compare_by_congr :
      (s t u : Bytes)
      → compare_by rank s t ≡ Ordering.eq
      → compare_by rank s u ≡ compare_by rank t u
  unfolding compare_by
  compare_by_congr [] [] u e = refl
  compare_by_congr [] (b ∷ t) u e = cc
  compare_by_congr (a ∷ s) [] u e = cc
  compare_by_congr (a ∷ s) (b ∷ t) [] e = refl
  compare_by_congr (a ∷ s) (b ∷ t) (c ∷ u) e = ground (arith, compare_by_congr s t u)

module _ (rank : ℕ → ℕ) {V : Type 0} where
  -- An assignment at an entry, by the comparison of the keys.
  assign_below :
      (k i : Bytes) (v x : V) (m : Map V)
      → compare_by rank k i ≡ Ordering.lt
      → assign rank k v ((i, x) ∷ m) ≡ (k, v) ∷ (i, x) ∷ m
  unfolding assign
  assign_below k i v x m e = cc e

  assign_same :
      (k i : Bytes) (v x : V) (m : Map V)
      → compare_by rank k i ≡ Ordering.eq
      → assign rank k v ((i, x) ∷ m) ≡ (i, v) ∷ m
  unfolding assign
  assign_same k i v x m e = cc e

  assign_above :
      (k i : Bytes) (v x : V) (m : Map V)
      → compare_by rank k i ≡ Ordering.gt
      → assign rank k v ((i, x) ∷ m) ≡ (i, x) ∷ assign rank k v m
  unfolding assign
  assign_above k i v x m e = cc e

  abbrev Commutes : Bytes → Bytes → V → V → Map V → Type 0
  Commutes k j v w m = assign rank k v (assign rank j w m) ≡ assign rank j w (assign rank k v m)

  -- The lesser key and the greater one at an entry, by the places of the two keys.
  cons-Commutes :
      (k j i : Bytes) (v w x : V) (m : Map V) (o o' : Ordering)
      → compare_by rank k j ≡ Ordering.lt
      → compare_by rank k i ≡ o
      → compare_by rank j i ≡ o'
      → Commutes k j v w m
      → Commutes k j v w ((i, x) ∷ m)
  cons-Commutes k j i v w x m Ordering.lt Ordering.lt below e e' ih = cc (
    assign_below k i v x m e,
    assign_below j i w x m e',
    assign_below k j v w ((i, x) ∷ m) below,
    assign_above j k w v ((i, x) ∷ m) (compare_by_swap_lt rank k j below),
  )
  cons-Commutes k j i v w x m Ordering.lt Ordering.eq below e e' ih = cc (
    assign_below k i v x m e,
    assign_below k i v w m e,
    assign_same j i w x m e',
    assign_above j k w v ((i, x) ∷ m) (compare_by_swap_lt rank k j below),
  )
  cons-Commutes k j i v w x m Ordering.lt Ordering.gt below e e' ih = cc (
    assign_below k i v x m e,
    assign_below k i v x (assign rank j w m) e,
    assign_above j i w x m e',
    assign_above j k w v ((i, x) ∷ m) (compare_by_swap_lt rank k j below),
  )
  cons-Commutes k j i v w x m Ordering.eq Ordering.gt below e e' ih = cc (
    assign_same k i v x m e,
    assign_same k i v x (assign rank j w m) e,
    assign_above j i w x m e',
    assign_above j i w v m e',
  )
  cons-Commutes k j i v w x m Ordering.gt Ordering.gt below e e' ih = cc (
    assign_above k i v x m e,
    assign_above k i v x (assign rank j w m) e,
    assign_above j i w x m e',
    assign_above j i w x (assign rank k v m) e',
    ih,
  )
  cons-Commutes k j i v w x m Ordering.eq Ordering.lt below e e' ih =
      absurd (cc (e, compare_by_trans rank k j i below e'))
  cons-Commutes k j i v w x m Ordering.gt Ordering.lt below e e' ih =
      absurd (cc (e, compare_by_trans rank k j i below e'))
  cons-Commutes k j i v w x m Ordering.eq Ordering.eq below e e' ih = absurd (
      cc (
        below,
        compare_by_congr rank k i j e,
        compare_by_congr rank j i j e',
        compare_by_self rank j,
      ))
  cons-Commutes k j i v w x m Ordering.gt Ordering.eq below e e' ih = absurd (
      cc (
        compare_by_swap_lt rank k j below,
        compare_by_congr rank j i k e',
        compare_by_swap rank k i e,
      ))

  assign_comm_lt :
      (k j : Bytes) (v w : V) (m : Map V) → compare_by rank k j ≡ Ordering.lt → Commutes k j v w m
  unfolding assign
  assign_comm_lt k j v w [] below = cc (below, compare_by_swap_lt rank k j below)
  assign_comm_lt k j v w ((i, x) ∷ m) below =
      cons-Commutes k j i v w x m (compare_by rank k i) (compare_by rank j i) below refl refl
        (assign_comm_lt k j v w m below)

  -- Assignments under keys that differ commute.
  pub assign_comm :
      (k j : Bytes) (v w : V) (m : Map V)
      → equivalent rank k j ≡ false
      → assign rank k v (assign rank j w m) ≡ assign rank j w (assign rank k v m)
  assign_comm k j v w m differ = by_order (compare_by rank k j) refl
    where
      by_order : (o : Ordering) → compare_by rank k j ≡ o → Commutes k j v w m
      by_order Ordering.lt e = assign_comm_lt k j v w m e
      by_order Ordering.eq e = absurd (cc (differ, e))
      by_order Ordering.gt e = sym (assign_comm_lt j k w v m (compare_by_swap rank k j e))
