-- ===== src/Tests/Directories.antt =====
-- The working directory, and a tree of directories that is removed.
use docker_plugin_cpp.Base.{
  ℕ, ◌-◌, ◌<◌, ◌≡◌, ◌++◌, refl, [], ◌∷◌, none, some, Bytes, text, c_str, true, false, arith, length,
  ltb, if◌then◌else◌,
}
use docker_plugin_cpp.Result.{returned, threw, standard}
use docker_plugin_cpp.Sample.Files.{Files, DirEntry}
use docker_plugin_cpp.Sample.Util.{has_dir_bit, erange, cwd, remove_dir, is_dot}
use docker_plugin_cpp.Sample.Util.WorkingDirectory.{Cwd, cwd_lem, cwd_stale}
use docker_plugin_cpp.Sample.Util.Directories.{MakesDirectories}
use docker_plugin_cpp.Sample.Main.{Rooted, main_root, main_root_lem}
use docker_plugin_cpp.Sample.Util.EmbeddedNul.{remove_dir-stuck}

abbrev entry : DirEntry
entry = record { d_name = text "a"; is_dir = true }

abbrev dot : DirEntry
dot = record { d_name = text "."; is_dir = true }

-- A working directory, errno as the state, and a directory "a" in every path of less than 6 bytes.
abbrev nested_files : Bytes → Files ℕ
nested_files working = record {
  stat = λ p w. none;
  mkdir = λ p mode w. (true, w);
  unlink = λ p w. (true, w);
  rmdir = λ p w. (true, w);
  entries = λ p w. if ltb (length p) 6 then some (dot ∷ entry ∷ []) else none;
  getcwd = λ size w. if ltb (length working) size then (some working, w) else (none, erange);
  errno = λ w. w;
  set_errno = λ e w. e;
  read_file = λ p w. none;
  write_file = λ p s w. w;
  now = λ w. 0;
  print = λ s w. w;
  print_error = λ s w. w;
  indeterminate = λ w. 0;
  open_max = 1000;
}

dot_is_dot : is_dot (text ".") ≡ true
unfolding is_dot text
dot_is_dot = refl

entry_is_no_dot : is_dot (text "a") ≡ false
unfolding is_dot text
entry_is_no_dot = refl

-- How much deeper a path can get.
abbrev room : Bytes → ℕ → ℕ
room p w = 6 - length p

nested_files-Cwd : (working : Bytes) → c_str working ≡ working → Cwd (nested_files working) working
nested_files-Cwd working is_text = record {
  fits = λ size w h. ground arith;
  too_long = λ size w h. ground arith;
  errno_set = λ e w. refl;
  c_string = is_text;
}

abbrev pub message : ℕ → Bytes
message e = []

abbrev pub long : Bytes
long = text "/srv/volumes"

abbrev short : Bytes
short = text "/srv"

long_is_text : c_str long ≡ long
unfolding c_str text
long_is_text = refl

short_is_text : c_str short ≡ short
unfolding c_str text
short_is_text = refl

pub length-long : length long < 20
unfolding text
length-long = omega arith

length-short : length short < 10
unfolding text
length-short = omega arith

cwd_example :
    (w' : ℕ) × (cwd (nested_files long) message 20 0 ≡ some (returned long, w')) × (w' ≡ 0)
cwd_example =
    cwd_lem (nested_files long) long (nested_files-Cwd long long_is_text) message 20 0 length-long
      refl

cwd_stale_example : cwd (nested_files short) message 1 2 ≡ some (threw (standard []), 2)
cwd_stale_example =
    cwd_stale (nested_files short) short (nested_files-Cwd short short_is_text) message 1 2
      (omega arith) length-short (λ e. omega arith)

nul_opened :
    (nested_files short).entries (c_str (text "/v" ++ 0 ∷ text "x")) 0 ≡ some (dot ∷ entry ∷ [])
unfolding c_str text
nul_opened = refl

-- The name of the volume is "v", a NUL and "x".
remove_dir-stuck_example :
    remove_dir (nested_files short) (text "/v" ++ 0 ∷ text "x") true 0 ≡ some (false, 0)
remove_dir-stuck_example =
    remove_dir-stuck (nested_files short) (text "/v") (text "x") 0 (dot ∷ []) [] entry
      (dot_is_dot, tt) refl entry_is_no_dot nul_opened

-- Files of which every path is a directory, and the long working directory.
abbrev pub placed : Files ℕ
placed = record {
  stat = λ p w. some (record { st_mode = 16384; st_mtime = 0 });
  mkdir = λ p mode w. (true, w);
  unlink = λ p w. (true, w);
  rmdir = λ p w. (true, w);
  entries = λ p w. none;
  getcwd = λ size w. if ltb (length long) size then (some long, w) else (none, erange);
  errno = λ w. w;
  set_errno = λ e w. e;
  read_file = λ p w. none;
  write_file = λ p s w. w;
  now = λ w. 0;
  print = λ s w. w;
  print_error = λ s w. w;
  indeterminate = λ w. 0;
  open_max = 1000;
}

placed-MakesDirectories : MakesDirectories placed
unfolding has_dir_bit
placed-MakesDirectories = record {
  makes = λ p mode w made. (record { st_mode = 16384; st_mtime = 0 }, refl, refl);
  keeps = λ p q mode w old e d. (old, e, d);
}

pub placed-Cwd : Cwd placed long
placed-Cwd = record {
  fits = λ size w h. ground arith;
  too_long = λ size w h. ground arith;
  errno_set = λ e w. refl;
  c_string = long_is_text;
}

main_root_example :
    Rooted placed placed-MakesDirectories long placed-Cwd (main_root placed message 20 0)
main_root_example =
    main_root_lem placed placed-MakesDirectories long placed-Cwd message 20 0 length-long refl
