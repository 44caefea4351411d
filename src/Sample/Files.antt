-- ===== src/Sample/Files.antt =====
-- The calls of the C and the C++ library on which util.h and main.cpp stand, as an interface. The
-- state `W` is all that they read and change: the files, the clock, errno and the output.
use docker_plugin_cpp.Base.{ℕ, List, Option, Bytes, Bool}

pub record Stat : Type 0 where
  pub st_mode : ℕ
  -- st_mtim.tv_sec
  pub st_mtime : ℕ

pub record DirEntry : Type 0 where
  pub d_name : Bytes
  -- d_type == DT_DIR
  pub is_dir : Bool

-- A path is given as the C library reads it.
pub record Files (W : Type 0) : Type 0 where
  -- stat; `none` is any result but 0
  pub stat : Bytes → W → Option Stat
  -- mkdir, unlink and rmdir; `true` is the result 0
  pub mkdir : Bytes → ℕ → W → Bool × W
  pub unlink : Bytes → W → Bool × W
  pub rmdir : Bytes → W → Bool × W
  -- opendir, and what readdir64 then gives until it ends; `none` is a null pointer
  pub entries : Bytes → W → Option (List DirEntry)
  -- getcwd with a buffer of that size; `none` is a null pointer, and errno is set
  pub getcwd : ℕ → W → Option Bytes × W
  pub errno : W → ℕ
  pub set_errno : ℕ → W → W
  -- an ifstream on the path, with all that it gives; `none` where it does not open
  pub read_file : Bytes → W → Option Bytes
  -- an ofstream on the path, to which the bytes are written
  pub write_file : Bytes → Bytes → W → W
  -- system_clock::to_time_t(system_clock::now())
  pub now : W → ℕ
  -- std::cout and std::cerr
  pub print : Bytes → W → W
  pub print_error : Bytes → W → W
  -- what an integer on the stack holds that was not written
  pub indeterminate : W → ℕ
  -- how many directories the process can have open besides one; opendir fails on more with EMFILE
  pub open_max : ℕ
