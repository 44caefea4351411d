-- ===== src/Sample/Util/Directories.antt =====
-- The directories behind make_dirs.
use mathlib.Core.Path.{subst}
use docker_plugin_cpp.Base.{
  ℕ, zero, suc, ◌≤◌, ◌<◌, ◌≡◌, refl, sym, ap, ◌∙◌, ◌++◌, List, [], ◌∷◌, map, some, Bytes, text,
  c_str, Bool, true, false, arith, All, length, Bool-cases, Option-cases, inl, inr, if◌then◌else◌,
  ◌==◌, ◌||◌,
}
use docker_plugin_cpp.Sample.Files.{Files, Stat}
use docker_plugin_cpp.Sample.Util.{
  has_dir_bit, is_absolute, is_dir, make_dir, make_missing, make_dirs, ends_in_slash,
}
use docker_plugin_cpp.Sample.Util.Paths.{parents_from, parents, make_all, finish, make_dirs_lem}

-- mkdir, where it succeeds, makes a directory; and it takes no other directory away.
pub record MakesDirectories {W : Type 0} (files : Files W) : Type 0 where
  pub makes :
      (p : Bytes) (mode : ℕ) (w : W)
      → (files.mkdir p mode w).0 ≡ true
      → (made : Stat) × (files.stat p (files.mkdir p mode w).1 ≡ some made)
        × (has_dir_bit made.st_mode ≡ true)
  pub keeps :
      (p q : Bytes) (mode : ℕ) (w : W) (old : Stat)
      → files.stat q w ≡ some old
      → has_dir_bit old.st_mode ≡ true
      → (still : Stat) × (files.stat q (files.mkdir p mode w).1 ≡ some still)
        × (has_dir_bit still.st_mode ≡ true)

All_behind : {A : Type 0} (P : A → Type 0) (xs ys : List A) → All P (xs ++ ys) → All P ys
All_behind P [] ys h = h
All_behind P (x ∷ xs) ys (p, h) = All_behind P xs ys h

All_of_map :
    {A B : Type 0} (P : B → Type 0) (f : A → B) (xs : List A)
    → All P (map f xs)
    → All (λ x. P (f x)) xs
All_of_map P f [] h = tt
All_of_map P f (x ∷ xs) (p, h) = (p, All_of_map P f xs h)

-- The part of a path that the slash at its end follows is among its parents.
parents_from-last :
    (P : Bytes → Type 0) (path : Bytes) (pos : ℕ)
    → pos ≤ length path
    → All P (parents_from (path ++ text "/") pos)
    → P path
unfolding parents_from text
parents_from-last P [] zero within h = h.0
parents_from-last P [] (suc pos) within h = absurd (omega arith)
parents_from-last P (b ∷ path) zero within h =
    parents_from-last (λ p. P (b ∷ p)) path 0 (omega arith)
      (All_of_map P (◌∷◌ b) (parents_from (path ++ text "/") 0)
        (All_behind P (if b == b'/' then [] ∷ [] else []) _ h))
parents_from-last P (b ∷ path) (suc pos) within h =
    parents_from-last (λ p. P (b ∷ p)) path pos (omega arith)
      (All_of_map P (◌∷◌ b) (parents_from (path ++ text "/") pos) h)

first_within :
    (absolute : Bool) (path : Bytes) → 0 < length path → (if absolute then 1 else 0) ≤ length path
first_within true path nonempty = omega arith
first_within false path nonempty = omega arith

module _ {W : Type 0} where
  -- A step, and what goes on behind it only if the step succeeds.
  both_made :
      (r rest : Bool × W) (w' : W)
      → (if r.0 then rest else (false, r.1)) ≡ (true, w')
      → (r.0 ≡ true) × (rest ≡ (true, w'))
  both_made (true, v) rest w' e = (refl, e)
  both_made (false, v) rest w' e = ground (arith, ap (λ (r : Bool × W). r.0) e)

  either_way :
      (P : W → Type 0) (b : Bool) (r s : Bool × W) → P r.1 → P s.1 → P (if b then r else s).1
  either_way P true r s p q = p
  either_way P false r s p q = q

module _ {W : Type 0} (files : Files W) (making : MakesDirectories files) where
  abbrev pub AreDirs : W → List Bytes → Type 0
  AreDirs w paths = All (λ p. is_dir files p w ≡ true) paths

  make_dir-is_dir :
      (p : Bytes) (mode : ℕ) (w : W)
      → (make_dir files p mode w).0 ≡ true
      → is_dir files p (make_dir files p mode w).1 ≡ true
  unfolding is_dir make_dir
  make_dir-is_dir p mode w h =
      let (made, there, directory) = making.makes (c_str p) mode w h in cc (there, directory)

  is_dir-stat :
      (q : Bytes) (w : W)
      → is_dir files q w ≡ true
      → (old : Stat) × (files.stat (c_str q) w ≡ some old) × (has_dir_bit old.st_mode ≡ true)
  unfolding is_dir
  is_dir-stat q w h = elim (Option-cases (files.stat (c_str q) w)) [
    | inl none_there ↦ absurd (cc (none_there, h))
    | inr (old, there) ↦ (old, there, cc (there, h))
  ]

  is_dir-make_dir :
      (p q : Bytes) (mode : ℕ) (w : W)
      → is_dir files q w ≡ true
      → is_dir files q (make_dir files p mode w).1 ≡ true
  unfolding is_dir make_dir
  is_dir-make_dir p q mode w h =
      let (old, there, directory) = is_dir-stat q w h in
      let (still, kept, yet) = making.keeps (c_str p) (c_str q) mode w old there directory in
      cc (kept, yet)

  make_missing-is_dir :
      (p : Bytes) (mode : ℕ) (w : W)
      → (make_missing files p mode w).0 ≡ true
      → is_dir files p (make_missing files p mode w).1 ≡ true
  unfolding make_missing
  make_missing-is_dir p mode w made = elim (Bool-cases (is_dir files p w)) [
    | inl there ↦ rw there there
    | inr absent ↦
        let alone : (make_dir files p mode w).0 ≡ true = rw absent at made in
        rw absent (make_dir-is_dir p mode w alone)
  ]

  is_dir-make_missing :
      (p q : Bytes) (mode : ℕ) (w : W)
      → is_dir files q w ≡ true
      → is_dir files q (make_missing files p mode w).1 ≡ true
  unfolding make_missing
  is_dir-make_missing p q mode w h = elim (Bool-cases (is_dir files p w)) [
    | inl there ↦ rw there h
    | inr absent ↦ rw absent (is_dir-make_dir p q mode w h)
  ]

  is_dir-make_all :
      (q : Bytes) (subs : List Bytes) (mode : ℕ) (w : W)
      → is_dir files q w ≡ true
      → is_dir files q (make_all files subs mode w).1 ≡ true
  unfolding make_all
  is_dir-make_all q [] mode w h = h
  is_dir-make_all q (sub ∷ subs) mode w h =
      let h' = is_dir-make_missing sub q mode w h in
      either_way (λ v. is_dir files q v ≡ true) (make_missing files sub mode w).0
        (make_all files subs mode (make_missing files sub mode w).1)
        (false, (make_missing files sub mode w).1)
        (is_dir-make_all q subs mode (make_missing files sub mode w).1 h') h'

  make_all-AreDirs :
      (subs : List Bytes) (mode : ℕ) (w w' : W)
      → make_all files subs mode w ≡ (true, w')
      → AreDirs w' subs
  unfolding make_all
  make_all-AreDirs [] mode w w' e = tt
  make_all-AreDirs (sub ∷ subs) mode w w' e =
      let (made, rest) = both_made (make_missing files sub mode w) _ w' e in
      let kept =
        is_dir-make_all sub subs mode (make_missing files sub mode w).1
          (make_missing-is_dir sub mode w made) in
      (
        subst (λ v. is_dir files sub v ≡ true) (ap (λ r. r.1) rest) kept,
        make_all-AreDirs subs mode _ w' rest,
      )

  AreDirs-make_dir :
      (subs : List Bytes) (p : Bytes) (mode : ℕ) (w : W)
      → AreDirs w subs
      → AreDirs (make_dir files p mode w).1 subs
  AreDirs-make_dir [] p mode w h = tt
  AreDirs-make_dir (sub ∷ subs) p mode w (h, hs) =
      (is_dir-make_dir p sub mode w h, AreDirs-make_dir subs p mode w hs)

  finish-AreDirs :
      (path : Bytes) (mode : ℕ) (r : Bool × W) (w' : W) (subs : List Bytes)
      → ((v : W) → r ≡ (true, v) → AreDirs v subs)
      → finish files path mode r ≡ (true, w')
      → AreDirs w' subs × ((ends_in_slash path || is_dir files path w') ≡ true)
  finish-AreDirs path mode (false, v) w' subs h e = ground (arith, ap (λ (r : Bool × W). r.0) e)
  finish-AreDirs path mode (true, v) w' subs h e = elim (Bool-cases (ends_in_slash path)) [
    | inl slash ↦
        let same : (true, v) ≡ (true, w') = rw slash at e in
        (subst (λ v. AreDirs v subs) (ap (λ (r : Bool × W). r.1) same) (h v refl), rw slash refl)
    | inr open_ended ↦
        let last : make_dir files path mode v ≡ (true, w') = rw open_ended at e in
        let there = make_dir-is_dir path mode v (ap (λ (r : Bool × W). r.0) last) in
        let w'_lem = ap (λ (r : Bool × W). r.1) last in
        (
          subst (λ v. AreDirs v subs) w'_lem (AreDirs-make_dir subs path mode v (h v refl)),
          rw open_ended (subst (λ v. is_dir files path v ≡ true) w'_lem there),
        )
  ]

  -- The path before a slash at the end is one of the parents.
  pub parent_is_dir :
      (path : Bytes) (w : W)
      → 0 < length path
      → AreDirs w (parents (path ++ text "/"))
      → is_dir files path w ≡ true
  unfolding parents
  parent_is_dir path w nonempty h =
      parents_from-last (λ p. is_dir files p w ≡ true) path
        (if is_absolute (path ++ text "/") then 1 else 0)
        (first_within (is_absolute (path ++ text "/")) path nonempty) h

  -- Where make_dirs returns true, is_dir holds of every parent of the path, and of the path itself if
  -- it does not end in a slash; so each of them is a directory, or a block device or a socket, for
  -- which is_dir holds too. mkdir is assumed to make a directory where it succeeds, and to take none
  -- away.
  pub make_dirs-AreDirs :
      (path : Bytes) (mode : ℕ) (w w' : W)
      → make_dirs files path mode w ≡ (true, w')
      → AreDirs w' (parents path) × ((ends_in_slash path || is_dir files path w') ≡ true)
  make_dirs-AreDirs [] mode w w' e =
      ground (arith, ap (λ (r : Bool × W). r.0) (sym (make_dirs_lem files [] mode w) ∙ e))
  make_dirs-AreDirs (b ∷ path) mode w w' e =
      finish-AreDirs (b ∷ path) mode (make_all files (parents (b ∷ path)) mode w) w'
        (parents (b ∷ path)) (λ v made. make_all-AreDirs (parents (b ∷ path)) mode w v made)
        (sym (make_dirs_lem files (b ∷ path) mode w) ∙ e)
