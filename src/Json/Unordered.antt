-- ===== src/Json/Unordered.antt =====
-- convert_map of an unordered_map, over its orders of iteration.
use mathlib.Core.List.{Permᴰ}
use mathlib.Core.Path.{subst}
use docker_plugin_cpp.Base.{
  ◌≡◌, refl, ap, ◌∙◌, List, [], ◌∷◌, Option, none, some, Bytes, true, false, All, arith, Bool-cases,
  inl, inr, compare_by-eq_iff,
}
use docker_plugin_cpp.Map.{Map, equivalent}
use docker_plugin_cpp.Map
use docker_plugin_cpp.Map.Laws.{lookup-assign}
use docker_plugin_cpp.Map.Order.{assign_comm}
use docker_plugin_cpp.Json.{Picojson, Strings, byte_rank, put, put_strings, write_map}

equivalent_comm :
    (k j : Bytes) → equivalent byte_rank k j ≡ false → equivalent byte_rank j k ≡ false
equivalent_comm k j h =
    ground (arith, compare_by-eq_iff byte_rank k j, compare_by-eq_iff byte_rank j k)

-- The keys of an unordered_map: none is there twice.
abbrev Apart : Bytes → Bytes × Bytes → Type 0
Apart k e = equivalent byte_rank k e.0 ≡ false

abbrev pub IsDistinct : Strings → Type 0
IsDistinct [] = Unit
IsDistinct ((k, s) ∷ m) = All (Apart k) m × IsDistinct m

reordered-All : {A : Type 0} (P : A → Type 0) {xs ys : List A} → Permᴰ xs ys → All P xs → All P ys
reordered-All P Permᴰ.nil h = h
reordered-All P (Permᴰ.cons e p) (h, hs) = (subst P e h, reordered-All P p hs)
reordered-All P (Permᴰ.swap e e') (h, (h', hs)) = (subst P e' h', (subst P e h, hs))
reordered-All P (Permᴰ.trans p q) h = reordered-All P q (reordered-All P p h)

reordered-IsDistinct : {m m' : Strings} → Permᴰ m m' → IsDistinct m → IsDistinct m'
reordered-IsDistinct Permᴰ.nil h = h
reordered-IsDistinct (Permᴰ.cons {a} {b} {l₂ = l} e p) (h, hs) = (
  subst (λ (d : Bytes × Bytes). All (Apart d.0) l) e (reordered-All (Apart a.0) p h),
  reordered-IsDistinct p hs,
)
reordered-IsDistinct (Permᴰ.swap {a} {b} {a'} {b'} {l} e e') ((h, hs), (k, ks)) =
    subst (λ (x : Bytes × Bytes). IsDistinct (x ∷ b' ∷ l)) e'
      (subst (λ (y : Bytes × Bytes). IsDistinct (b ∷ y ∷ l)) e
        ((equivalent_comm a.0 b.0 h, k), (hs, ks)))
reordered-IsDistinct (Permᴰ.trans p q) h = reordered-IsDistinct q (reordered-IsDistinct p h)

module _ (json : Picojson) where
  open json use {Value, of_string, of_object}

  -- The body of the loop of convert_map, on one entry.
  abbrev entered : Bytes × Bytes → Map Value → Map Value
  entered (key, s) obj = put json key (of_string s) obj

  put_strings_reordered :
      {m m' : Strings} (obj : Map Value)
      → Permᴰ m m'
      → IsDistinct m
      → put_strings json obj m ≡ put_strings json obj m'
  unfolding put_strings put
  put_strings_reordered obj Permᴰ.nil h = refl
  put_strings_reordered obj (Permᴰ.cons {a} {b} {l₁ = l} {l₂ = l'} e p) (h, hs) =
      put_strings_reordered (entered a obj) p hs ∙ ap (λ d. put_strings json (entered d obj) l') e
  put_strings_reordered obj (Permᴰ.swap {a} {b} {a'} {b'} {l} e e') ((h, hs), (k, ks)) =
      ap (λ o. put_strings json o l)
        (assign_comm byte_rank b.0 a.0 (of_string b.1) (of_string a.1) obj
          (equivalent_comm a.0 b.0 h))
      ∙ ap (λ d. put_strings json (entered d (entered b obj)) l) e
      ∙ ap (λ d. put_strings json (entered b' (entered d obj)) l) e'
  put_strings_reordered obj (Permᴰ.trans p q) h =
      put_strings_reordered obj p h ∙ put_strings_reordered obj q (reordered-IsDistinct p h)

  lookup_congr :
      {V : Type 0} (k j : Bytes) (m : Map V)
      → equivalent byte_rank k j ≡ true
      → Map.lookup byte_rank k m ≡ Map.lookup byte_rank j m
  unfolding Map.lookup
  lookup_congr k j [] e = refl
  lookup_congr k j ((i, v) ∷ m) e = ground (
    arith,
    compare_by-eq_iff byte_rank k j,
    compare_by-eq_iff byte_rank j i,
    compare_by-eq_iff byte_rank k i,
    lookup_congr k j m e,
  )

  lookup-Apart : (k : Bytes) (m : Strings) → All (Apart k) m → Map.lookup byte_rank k m ≡ none
  unfolding Map.lookup
  lookup-Apart k [] h = refl
  lookup-Apart k ((j, s) ∷ m) (h, hs) = ground (arith, lookup-Apart k m hs)

  -- The value under a key: that of the map, or else that of the object before.
  abbrev pub entry_or : Option Bytes → Option Value → Option Value
  entry_or none old = old
  entry_or (some s) old = some (of_string s)

  lookup-put_strings :
      (key : Bytes) (obj : Map Value) (m : Strings)
      → IsDistinct m
      → Map.lookup byte_rank key (put_strings json obj m)
        ≡ entry_or (Map.lookup byte_rank key m) (Map.lookup byte_rank key obj)
  unfolding put_strings put Map.lookup
  lookup-put_strings key obj [] h = refl
  lookup-put_strings key obj ((j, s) ∷ m) (h, hs) =
      let step = lookup-put_strings key (entered (j, s) obj) m hs in
      let assigned = lookup-assign byte_rank j key (of_string s) obj in
      elim (Bool-cases (equivalent byte_rank key j)) [
        | inl same ↦ cc (step, assigned, same, lookup_congr key j m same, lookup-Apart j m h)
        | inr other ↦ cc (step, assigned, other)
      ]

  -- In whichever order an unordered_map, in which no key is there twice, is iterated, convert_map
  -- makes the same object of it; and under every key that object has the string of the map's entry,
  -- and nothing where the map has none.
  pub write_map_reordered :
      (m m' : Strings)
      → IsDistinct m
      → Permᴰ m m'
      → (write_map json m ≡ write_map json m')
        × ((key : Bytes)
            → Map.lookup byte_rank key (put_strings json [] m)
              ≡ entry_or (Map.lookup byte_rank key m) none)
  unfolding write_map Map.lookup
  write_map_reordered m m' h p =
      (ap of_object (put_strings_reordered [] p h), λ key. lookup-put_strings key [] m h)
