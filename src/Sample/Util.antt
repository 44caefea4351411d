-- ===== src/Sample/Util.antt =====
-- class util of sample_volume/include/util.h.
pub mod Paths
pub mod Modes
pub mod EmbeddedNul
pub mod Removal
pub mod Directories
pub mod WorkingDirectory
use docker_plugin_cpp.Base.{
  ℕ, zero, suc, ◌+◌, ◌*◌, ◌/◌, ◌%◌, ◌-◌, ◌^◌, ◌++◌, ◌&&◌, ◌||◌, List, [], ◌∷◌, Option, none, some,
  Bytes, text, bytes_eq, c_str, Bool, true, false, not, ◌==◌, ltb, leb, length, take, drop,
  is_empty, if◌then◌else◌,
}
use docker_plugin_cpp.Base.Digits.Reading.{read}
use docker_plugin_cpp.Result.{Result, returned, threw, Exception, standard}
use docker_plugin_cpp.Sample.Files.{Files, Stat, DirEntry}

-- info.st_mode & S_IFDIR, which is not 0
unfoldable pub has_dir_bit : ℕ → Bool
has_dir_bit mode = (mode / 16384) % 2 == 1

-- path.find('/', pos)
unfoldable pub find_slash : Bytes → ℕ → Option ℕ
find_slash [] pos = none
find_slash (b ∷ path) zero =
    if b == b'/' then some 0 else elim (find_slash path 0) [ none ↦ none | some i ↦ some (suc i) ]
find_slash (b ∷ path) (suc pos) = elim (find_slash path pos) [ none ↦ none | some i ↦ some (suc i) ]

-- path[0] == '/'
unfoldable pub is_absolute : Bytes → Bool
is_absolute [] = false
is_absolute (b ∷ path) = b == b'/'

-- path.back() == '/'
unfoldable pub ends_in_slash : Bytes → Bool
ends_in_slash [] = false
ends_in_slash (b ∷ []) = b == b'/'
ends_in_slash (b ∷ c ∷ path) = ends_in_slash (c ∷ path)

-- S_IRWXU
abbrev pub mode_rwx : ℕ
mode_rwx = 448

-- ERANGE
abbrev pub erange : ℕ
erange = 34

-- The entries that every directory has.
unfoldable pub is_dot : Bytes → Bool
unfolding text bytes_eq
is_dot name = bytes_eq name (text ".") || bytes_eq name (text "..")

-- The loop of loop_dir, on a state that the callback changes.
unfoldable pub loop_entries :
    {T : Type 0} → (Bytes → Bool → T → Bool × T) → List DirEntry → T → Bool × T
loop_entries cb [] t = (true, t)
loop_entries cb (e ∷ es) t =
    let (go_on, t') = cb e.d_name e.is_dir t in
    let rest = loop_entries cb es t' in if go_on then rest else (false, t')

module _ {W : Type 0} (files : Files W) where
  open files use {
    stat, mkdir, unlink, rmdir, entries, getcwd, errno, set_errno, read_file, indeterminate,
    open_max,
  }

  unfoldable pub is_dir : Bytes → W → Bool
  unfolding c_str has_dir_bit
  is_dir path w = elim (stat (c_str path) w) [ none ↦ false | some info ↦ has_dir_bit info.st_mode ]

  unfoldable pub make_dir : Bytes → ℕ → W → Bool × W
  unfolding c_str
  make_dir path mode w = mkdir (c_str path) mode w

  -- The body of the loop of make_dirs: whether it goes on.
  unfoldable pub make_missing : Bytes → ℕ → W → Bool × W
  unfolding is_dir make_dir
  make_missing sub mode w = if is_dir sub w then (true, w) else make_dir sub mode w

  -- The loop of make_dirs from a position on. Each round goes on behind the position, so one round
  -- more than the path has bytes is enough.
  unfoldable pub make_parents : ℕ → Bytes → Option ℕ → ℕ → W → Bool × W
  unfolding find_slash make_missing
  make_parents zero path pos mode w = (false, w)
  make_parents (suc fuel) path none mode w = (true, w)
  make_parents (suc fuel) path (some pos) mode w =
      let (made, w') = make_missing (take pos path) mode w in
      let rest = make_parents fuel path (find_slash path (pos + 1)) mode w' in
      if made then rest else (false, w')

  unfoldable pub make_dirs : Bytes → ℕ → W → Bool × W
  unfolding is_absolute ends_in_slash find_slash make_parents make_dir
  make_dirs path mode w =
      if is_empty path
      then (false, w)
      else (let (made, w') =
            make_parents (length path + 2) path
              (find_slash path (if is_absolute path then 1 else 0)) mode w in
          if made
          then (if ends_in_slash path then (true, w') else make_dir path mode w')
          else (false, w'))

  -- The loop of cwd on a buffer of some size; `none` is one that has not ended yet.
  unfoldable pub grow : ℕ → ℕ → W → Option (Option Bytes × W)
  grow zero size w = none
  grow (suc fuel) size w = elim (getcwd size w).0 [
    | some path ↦ some (some path, (getcwd size w).1)
    | none ↦
        let w' = (getcwd size w).1 in
        let rest = grow fuel (size * 2) (set_errno 0 w') in
        if errno w' == erange then rest else some (none, w')
  ]

  -- What cwd does behind its loop: std::system_error is an std::exception, with errno's message.
  unfoldable pub cwd_result : (ℕ → Bytes) → Option Bytes × W → Result Bytes × W
  unfolding c_str
  cwd_result message (path, w) =
      if not (errno w == 0)
      then (threw (standard (message (errno w))), w)
      else (elim path [ none ↦ (returned [], w) | some p ↦ (returned (c_str p), w) ])

  unfoldable pub cwd : (ℕ → Bytes) → ℕ → W → Option (Result Bytes × W)
  unfolding grow cwd_result
  cwd message fuel w = elim (grow fuel 10 w) [ none ↦ none | some r ↦ some (cwd_result message r) ]

  unfoldable pub loop_dir : {T : Type 0} → Bytes → (Bytes → Bool → T → Bool × T) → W → T → Bool × T
  unfolding c_str loop_entries
  loop_dir path cb w t = elim (entries (c_str path) w) [
    | none ↦ (false, t)
    | some es ↦ loop_entries cb es t
  ]

  -- loop_dir where callers have so many directories open.
  unfoldable pub loop_dir_within :
      {T : Type 0} → ℕ → Bytes → (Bytes → Bool → T → Bool × T) → W → T → Bool × T
  unfolding loop_dir
  loop_dir_within opened path cb w t =
      if ltb open_max opened then (false, t) else loop_dir path cb w t

  unfoldable pub remove_file : Bytes → W → Bool × W
  unfolding c_str
  remove_file path w = unlink (c_str path) w

  -- The callback of remove_dir on an entry of `path`; a state `none` is a call of remove_dir that
  -- has not ended.
  unfoldable pub remove_entry :
      (Bytes → W → Option (Bool × W)) → Bytes → Bytes → Bool → Option W → Bool × Option W
  unfolding is_dot text remove_file
  remove_entry remove_below path name is_directory none = (false, none)
  remove_entry remove_below path name is_directory (some w) =
      if is_dot name
      then (true, some w)
      else if is_directory
      then (elim (remove_below (path ++ text "/" ++ name) w) [
        | none ↦ (false, none)
        | some (removed, w') ↦ (removed, some w')
      ])
      else (let (removed, w') = remove_file (path ++ text "/" ++ name) w in (removed, some w'))

  -- The end of remove_dir, behind its loop.
  unfoldable pub remove_emptied : Bytes → Bool × Option W → Option (Bool × W)
  unfolding c_str
  remove_emptied path (looped, none) = none
  remove_emptied path (true, some w) = some (rmdir (c_str path) w)
  remove_emptied path (false, some w) = some (false, w)

  -- remove_dir where callers have so many directories open. Each call opens one more, so that as much
  -- fuel as directories can still be opened, and two, is enough.
  unfoldable pub remove_within : ℕ → ℕ → Bytes → Bool → W → Option (Bool × W)
  unfolding loop_dir_within remove_entry remove_emptied
  remove_within zero opened path recursive w = none
  remove_within (suc fuel) opened path recursive w =
      let below = remove_within fuel (opened + 1) in
      let looped =
        loop_dir_within opened path (remove_entry (λ p v. below p true v) path) w (some w) in
      remove_emptied path (if recursive then looped else (true, some w))

  unfoldable pub remove_dir : Bytes → Bool → W → Option (Bool × W)
  unfolding remove_within
  remove_dir path recursive w = remove_within (open_max + 2) 0 path recursive w

  unfoldable pub remove : Bytes → W → Option (Bool × W)
  unfolding is_dir remove_dir remove_file
  remove path w = if is_dir path w then remove_dir path true w else some (remove_file path w)
