-- ===== src/Sample/Util/EmbeddedNul.antt =====
-- remove_dir on a path with a NUL in it.
use docker_plugin_cpp.Base.{
  ℕ, zero, suc, ◌+◌, ◌<◌, ◌≡◌, ltb, Bool-cases, inl, inr, refl, ap, ◌∙◌, ◌++◌, List, [], ◌∷◌,
  Option, some, Bytes, text, c_str, Bool, true, false, arith, All, append_assoc,
}
use docker_plugin_cpp.Sample.Files.{Files, DirEntry}
use docker_plugin_cpp.Sample.Util.{
  is_dot, loop_entries, loop_dir, loop_dir_within, remove_entry, remove_emptied, remove_within,
  remove_dir,
}

-- The C library does not see what follows the NUL.
c_str_nul : (before after later : Bytes) → c_str (before ++ 0 ∷ after) ≡ c_str (before ++ 0 ∷ later)
unfolding c_str
c_str_nul [] after later = refl
c_str_nul (b ∷ before) after later = ground (arith, c_str_nul before after later)

module _ {W : Type 0} (files : Files W) where
  -- An entry that is a directory and cannot be removed, behind . and .. only.
  loop_stuck :
      (remove_below : Bytes → W → Option (Bool × W)) (path : Bytes) (dots es : List DirEntry)
      (e : DirEntry) (w : W)
      → All (λ (d : DirEntry). is_dot d.d_name ≡ true) dots
      → e.is_dir ≡ true
      → is_dot e.d_name ≡ false
      → remove_below (path ++ text "/" ++ e.d_name) w ≡ some (false, w)
      → loop_entries (remove_entry files remove_below path) (dots ++ e ∷ es) (some w)
        ≡ (false, some w)
  unfolding loop_entries remove_entry
  loop_stuck remove_below path [] es e w h directory other stuck = cc (directory, other, stuck)
  loop_stuck remove_below path (d ∷ dots) es e w (dot, h) directory other stuck =
      cc (dot, loop_stuck remove_below path dots es e w h directory other stuck)

  -- A loop whose directory is opened, and one whose directory is not.
  loop_dir_within-free :
      (opened : ℕ) (path : Bytes) (cb : Bytes → Bool → Option W → Bool × Option W) (w : W)
      (es : List DirEntry) (r : Bool × Option W)
      → ltb files.open_max opened ≡ false
      → files.entries (c_str path) w ≡ some es
      → loop_entries cb es (some w) ≡ r
      → loop_dir_within files opened path cb w (some w) ≡ r
  unfolding loop_dir_within loop_dir
  loop_dir_within-free opened path cb w es r free there e = cc (free, there, e)

  loop_dir_within-full :
      (opened : ℕ) (path : Bytes) (cb : Bytes → Bool → Option W → Bool × Option W) (w : W)
      → ltb files.open_max opened ≡ true
      → loop_dir_within files opened path cb w (some w) ≡ (false, some w)
  unfolding loop_dir_within
  loop_dir_within-full opened path cb w full = cc full

  remove_within-stuck :
      (fuel opened : ℕ) (before after : Bytes) (w : W) (dots es : List DirEntry) (e : DirEntry)
      → All (λ (d : DirEntry). is_dot d.d_name ≡ true) dots
      → e.is_dir ≡ true
      → is_dot e.d_name ≡ false
      → files.entries (c_str (before ++ 0 ∷ after)) w ≡ some (dots ++ e ∷ es)
      → files.open_max + 1 < opened + fuel
      → opened < files.open_max + 2
      → remove_within files fuel opened (before ++ 0 ∷ after) true w ≡ some (false, w)
  unfolding remove_within remove_emptied
  remove_within-stuck zero opened before after w dots es e h directory other there enough few =
      absurd (omega arith)
  remove_within-stuck (suc fuel) opened before after w dots es e h directory other there enough
        few =
      elim (Bool-cases (ltb files.open_max opened)) [
        | inl full ↦ ap (remove_emptied files (before ++ 0 ∷ after)) (
            loop_dir_within-full opened (before ++ 0 ∷ after)
              (remove_entry files (λ p v. remove_within files fuel (opened + 1) p true v)
                (before ++ 0 ∷ after))
              w full)
        | inr free ↦
            let path = before ++ 0 ∷ after in
            let longer = after ++ text "/" ++ e.d_name in
            let same : path ++ text "/" ++ e.d_name ≡ before ++ 0 ∷ longer = simp append_assoc in
            let below =
              remove_within-stuck fuel (opened + 1) before longer w dots es e h directory other
                (ap (λ p. files.entries p w) (c_str_nul before longer after) ∙ there) (omega arith)
                (ground (arith, free)) in
            let stuck =
              loop_stuck (λ p v. remove_within files fuel (opened + 1) p true v) path dots es e w h
                directory other
                (ap (λ p. remove_within files fuel (opened + 1) p true w) same ∙ below) in
            ap (remove_emptied files path) (
              loop_dir_within-free opened path
                (remove_entry files (λ p v. remove_within files fuel (opened + 1) p true v) path) w
                (dots ++ e ∷ es) (false, some w) free there stuck)
      ]

  -- If a path has a NUL in it, and the directory that the C library takes it for has a directory in
  -- it behind . and .. only, then remove_dir removes nothing and returns false: the path of the
  -- entry is taken for the same directory again, until no more directories can be opened.
  pub remove_dir-stuck :
      (before after : Bytes) (w : W) (dots es : List DirEntry) (e : DirEntry)
      → All (λ (d : DirEntry). is_dot d.d_name ≡ true) dots
      → e.is_dir ≡ true
      → is_dot e.d_name ≡ false
      → files.entries (c_str (before ++ 0 ∷ after)) w ≡ some (dots ++ e ∷ es)
      → remove_dir files (before ++ 0 ∷ after) true w ≡ some (false, w)
  unfolding remove_dir
  remove_dir-stuck before after w dots es e h directory other there =
      remove_within-stuck (files.open_max + 2) 0 before after w dots es e h directory other there
        (omega arith) (omega arith)
