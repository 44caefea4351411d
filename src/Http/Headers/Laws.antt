-- ===== src/Http/Headers/Laws.antt =====
-- set and get of http_header_set, and the equivalence of its keys.
use docker_plugin_cpp.Base.{
  ℕ, ◌≡◌, ◌<◌, ◌↔◌, inl, inr, refl, ap, ◌∙◌, [], ◌∷◌, Bytes, true, false, arith, map, All,
  compare_by-eq_iff, Bool-cases, if◌then◌else◌,
}
use docker_plugin_cpp.Map.{equivalent}
use docker_plugin_cpp.Map
use docker_plugin_cpp.Map.Laws.{
  lookup-emplace_of_none, lookup-emplace_ne, lookup-erase_self, lookup-erase_ne, count-emplace_self,
  count-erase_self, All-emplace, All-erase,
}
use docker_plugin_cpp.Http.Headers.{
  HeaderSet, to_lower, header_rank, signed_rank, set, get, has, erase, or_empty,
}

abbrev AreBytes : Bytes → Type 0
AreBytes = All (λ b. b < 256)

rank_injective :
    (a b : ℕ) → a < 256 → b < 256 → header_rank a ≡ header_rank b → to_lower a ≡ to_lower b
unfolding header_rank to_lower
rank_injective a b h k e = ground arith

rank_congruent : (a b : ℕ) → to_lower a ≡ to_lower b → header_rank a ≡ header_rank b
unfolding header_rank
rank_congruent a b e = ap signed_rank e

ranks-to_lower :
    (j k : Bytes)
    → AreBytes j
    → AreBytes k
    → (map header_rank j ≡ map header_rank k) ↔ (map to_lower j ≡ map to_lower k)
ranks-to_lower [] [] h k = ((λ _. refl), (λ _. refl))
ranks-to_lower [] (b ∷ t) h k = ground arith
ranks-to_lower (a ∷ s) [] h k = ground arith
ranks-to_lower (a ∷ s) (b ∷ t) (h, hs) (k, ks) = (
  λ e. ground (arith, rank_injective a b h k, ranks-to_lower s t hs ks),
  λ e. ground (arith, rank_congruent a b, ranks-to_lower s t hs ks),
)

-- Two names of a header are one key exactly when they are equal in lower case.
pub equivalent_iff :
    (j k : Bytes)
    → All (λ b. b < 256) j
    → All (λ b. b < 256) k
    → (equivalent header_rank j k ≡ true) ↔ (map to_lower j ≡ map to_lower k)
equivalent_iff j k h l = ground (arith, compare_by-eq_iff header_rank j k, ranks-to_lower j k)

lookup_same :
    (j k : Bytes) (hs : HeaderSet)
    → equivalent header_rank j k ≡ true
    → Map.lookup header_rank j hs ≡ Map.lookup header_rank k hs
unfolding Map.lookup
lookup_same j k [] e = refl
lookup_same j k ((i, v) ∷ hs) e = ground (
  arith,
  compare_by-eq_iff header_rank j k,
  compare_by-eq_iff header_rank j i,
  compare_by-eq_iff header_rank k i,
  lookup_same j k hs e,
)

-- A header that is set is found with its value under every equivalent key, and the headers of
-- other keys are as before.
pub get-set :
    (j k v : Bytes) (hs : HeaderSet)
    → get j (set k v true hs) ≡ (if equivalent header_rank j k then v else get j hs)
unfolding get set
get-set j k v hs = elim (Bool-cases (equivalent header_rank j k)) [
  | inl e ↦ rw e (
      ap or_empty (
        lookup_same j k _ e
        ∙ lookup-emplace_of_none header_rank k v _ (lookup-erase_self header_rank k hs)))
  | inr e ↦
      rw e (
        ap or_empty
          (lookup-emplace_ne header_rank k j v _ e ∙ lookup-erase_ne header_rank k j hs e))
]

pub has-set_self : (k v : Bytes) (hs : HeaderSet) → has k (set k v true hs) ≡ true
unfolding has set
has-set_self k v hs =
    ground (arith, count-emplace_self header_rank k v (Map.erase header_rank k hs))

-- An erased header is gone.
pub has-erase_self : (k : Bytes) (hs : HeaderSet) → has k (erase k hs) ≡ false
unfolding has erase
has-erase_self k hs = ground (arith, count-erase_self header_rank k hs)

-- What holds of the headers and of one that is set holds of the headers behind it.
pub All-set :
    (P : Bytes × Bytes → Type 0) (k v : Bytes) (hs : HeaderSet)
    → P (k, v)
    → All P hs
    → All P (set k v true hs)
unfolding set
All-set P k v hs p h = All-emplace header_rank P k v _ p (All-erase header_rank P k hs h)
