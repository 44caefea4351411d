-- ===== src/Base/Strings.antt =====
-- std::string as a list of bytes, and the comparison of two such by a rank of their bytes.
use Prim.Native.Nat.{ℕ, compare, Ordering}
use Prim.Native.Char.{code}
use Prim.Native.String.{String}
use mathlib.Core.Path.{◌≡◌, refl}
use mathlib.Core.Logic.{◌↔◌}
use mathlib.Core.Bool.{Bool, true, false, ◌&&◌}
use mathlib.Core.List.{List, [], ◌∷◌, map}
use native.Mathlib.Omega.{arith}
use docker_plugin_cpp.Base.Tests.{if◌then◌else◌, ◌==◌}

abbrev pub Bytes : Type 0
Bytes = List ℕ

-- An ASCII literal.
unfoldable pub text : String → Bytes
text String.[] = []
text (String.◌∷◌ c s) = code c ∷ text s

-- std::string::empty
abbrev pub is_empty {ℓ} : {A : Type ℓ} → List A → Bool
is_empty [] = true
is_empty (_ ∷ _) = false

-- operator== on std::string
unfoldable pub bytes_eq : Bytes → Bytes → Bool
bytes_eq [] [] = true
bytes_eq [] (b ∷ t) = false
bytes_eq (a ∷ s) [] = false
bytes_eq (a ∷ s) (b ∷ t) = a == b && bytes_eq s t

pub bytes_eq_iff : (s t : Bytes) → (bytes_eq s t ≡ true) ↔ (s ≡ t)
unfolding bytes_eq
bytes_eq_iff [] [] = ground arith
bytes_eq_iff [] (b ∷ t) = ground arith
bytes_eq_iff (a ∷ s) [] = ground arith
bytes_eq_iff (a ∷ s) (b ∷ t) = ground (arith, bytes_eq_iff s t)

-- What the C library reads of a text: up to its first NUL.
unfoldable pub c_str : Bytes → Bytes
c_str [] = []
c_str (b ∷ s) = if b == 0 then [] else b ∷ c_str s

-- Lexicographic order of the ranks of the bytes.
unfoldable pub compare_by : (ℕ → ℕ) → Bytes → Bytes → Ordering
compare_by rank [] [] = Ordering.eq
compare_by rank [] (b ∷ t) = Ordering.lt
compare_by rank (a ∷ s) [] = Ordering.gt
compare_by rank (a ∷ s) (b ∷ t) = elim (compare (rank a) (rank b)) [
  | Ordering.lt ↦ Ordering.lt
  | Ordering.eq ↦ compare_by rank s t
  | Ordering.gt ↦ Ordering.gt
]

pub compare_by-eq_iff :
    (rank : ℕ → ℕ) (s t : Bytes) → (compare_by rank s t ≡ Ordering.eq) ↔ (map rank s ≡ map rank t)
unfolding compare_by
compare_by-eq_iff rank [] [] = ground arith
compare_by-eq_iff rank [] (b ∷ t) = ground arith
compare_by-eq_iff rank (a ∷ s) [] = ground arith
compare_by-eq_iff rank (a ∷ s) (b ∷ t) = ground (arith, compare_by-eq_iff rank s t)

pub compare_by_self : (rank : ℕ → ℕ) (s : Bytes) → compare_by rank s s ≡ Ordering.eq
compare_by_self rank s = (compare_by-eq_iff rank s s).1 refl
