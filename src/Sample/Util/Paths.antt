-- ===== src/Sample/Util/Paths.antt =====
-- The parents of a path, and the loop of make_dirs over them.
use mathlib.Core.Path.{subst}
use docker_plugin_cpp.Base.{
  ℕ, zero, suc, ◌+◌, ◌≤◌, ◌<◌, ◌≡◌, refl, sym, ap, ◌∙◌, ◌++◌, List, [], ◌∷◌, map, Option, none,
  some, Bytes, Bool, true, false, arith, ◌==◌, length, take, is_empty, Bool-cases, inl, inr,
  if◌then◌else◌,
}
use docker_plugin_cpp.Sample.Files.{Files}
use docker_plugin_cpp.Sample.Util.{
  find_slash, is_absolute, ends_in_slash, make_missing, make_dir, make_parents, make_dirs,
}

-- The parts of a path that a slash follows, the slash at a position or behind it.
unfoldable pub parents_from : Bytes → ℕ → List Bytes
parents_from [] pos = []
parents_from (b ∷ path) zero =
    (if b == b'/' then [] ∷ [] else []) ++ map (◌∷◌ b) (parents_from path 0)
parents_from (b ∷ path) (suc pos) = map (◌∷◌ b) (parents_from path pos)

-- The parents of a path: of /a/b/c they are /a and /a/b.
unfoldable pub parents : Bytes → List Bytes
parents path = parents_from path (if is_absolute path then 1 else 0)

module _ {W : Type 0} (files : Files W) where
  -- Each directory that is not there is made, up to one that cannot be made.
  unfoldable pub make_all : List Bytes → ℕ → W → Bool × W
  make_all [] mode w = (true, w)
  make_all (sub ∷ subs) mode w =
      let (made, w') = make_missing files sub mode w in
      let rest = make_all subs mode w' in if made then rest else (false, w')

-- What a search finds.
abbrev Found : Bytes → ℕ → Option ℕ → Type 0
Found path pos none = parents_from path pos ≡ []
Found path pos (some i) =
    (pos ≤ i)
    × (i < length path)
    × (parents_from path pos ≡ take i path ∷ parents_from path (suc i))

Found-suc :
    (b : ℕ) (path : Bytes) (pos : ℕ) (found : Option ℕ)
    → Found path pos found
    → Found (b ∷ path) (suc pos) (elim found [ none ↦ none | some i ↦ some (suc i) ])
unfolding parents_from
Found-suc b path pos none h = ap (map (◌∷◌ b)) h
Found-suc b path pos (some i) (above, below, e) = (omega arith, omega arith, ap (map (◌∷◌ b)) e)

-- A byte that is no slash has the first parents of what follows it.
Found-zero :
    (b : ℕ) (path : Bytes) (found : Option ℕ)
    → (b == b'/') ≡ false
    → Found path 0 found
    → Found (b ∷ path) 0 (elim found [ none ↦ none | some i ↦ some (suc i) ])
unfolding parents_from
Found-zero b path none other h = rw other (ap (map (◌∷◌ b)) h)
Found-zero b path (some i) other (above, below, e) =
    (omega arith, omega arith, rw other (ap (map (◌∷◌ b)) e))

find_slash-Found : (path : Bytes) (pos : ℕ) → Found path pos (find_slash path pos)
unfolding find_slash parents_from
find_slash-Found [] pos = refl
find_slash-Found (b ∷ path) zero = elim (Bool-cases (b == b'/')) [
  | inl slash ↦ rw slash (omega arith, omega arith, rw slash refl)
  | inr other ↦ rw other (Found-zero b path _ other (find_slash-Found path 0))
]
find_slash-Found (b ∷ path) (suc pos) = Found-suc b path pos _ (find_slash-Found path pos)

first_within : (absolute : Bool) (path : Bytes) → (if absolute then 1 else 0) ≤ suc (length path)
first_within true path = omega arith
first_within false path = omega arith

module _ {W : Type 0} (files : Files W) where
  make_parents-make_all :
      (fuel : ℕ) (path : Bytes) (pos mode : ℕ) (found : Option ℕ) (w : W)
      → find_slash path pos ≡ found
      → pos ≤ length path
      → length path + 1 < fuel + pos
      → make_parents files fuel path found mode w ≡ make_all files (parents_from path pos) mode w
  unfolding make_parents make_all
  make_parents-make_all zero path pos mode found w e within enough = absurd (omega arith)
  make_parents-make_all (suc fuel) path pos mode none w e within enough =
      let h : Found path pos none = subst (Found path pos) e (find_slash-Found path pos) in
      rw h refl
  make_parents-make_all (suc fuel) path pos mode (some i) w e within enough =
      let (above, below, h) : Found path pos (some i) =
        subst (Found path pos) e (find_slash-Found path pos) in
      let (made, w') = make_missing files (take i path) mode w in
      let later =
        make_parents-make_all fuel path (i + 1) mode (find_slash path (i + 1)) w' refl (omega arith)
          (omega arith) in
      let next : suc i ≡ i + 1 = omega arith in
      let split = h ∙ ap (λ j. take i path ∷ parents_from path j) next in
      ap (λ r. if made then r else (false, w')) later
      ∙ sym (ap (λ subs. make_all files subs mode w) split)

  abbrev pub finish : Bytes → ℕ → Bool × W → Bool × W
  finish path mode (made, w) =
      if made
      then (if ends_in_slash path then (true, w) else make_dir files path mode w)
      else (false, w)

  -- make_dirs makes the parents of a path that are not there, from the first to the last, and then,
  -- where it does not end in a slash, the path itself; it stops at one that cannot be made. Its
  -- loop has enough rounds for every path.
  pub make_dirs_lem :
      (path : Bytes) (mode : ℕ) (w : W)
      → make_dirs files path mode w ≡ (
          if is_empty path
          then (false, w)
          else finish path mode (make_all files (parents path) mode w))
  unfolding make_dirs parents
  make_dirs_lem [] mode w = refl
  make_dirs_lem (b ∷ path) mode w = ap (finish (b ∷ path) mode) (
      make_parents-make_all (length (b ∷ path) + 2) (b ∷ path)
        (if is_absolute (b ∷ path) then 1 else 0) mode _ w refl
        (first_within (is_absolute (b ∷ path)) path) (omega arith))
