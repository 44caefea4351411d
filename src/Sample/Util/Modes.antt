-- ===== src/Sample/Util/Modes.antt =====
-- Which files is_dir takes for a directory.
use docker_plugin_cpp.Base.{ℕ, ◌+◌, ◌*◌, ◌<◌, ◌≡◌, Bytes, c_str, some, Bool, true, false, arith}
use docker_plugin_cpp.Sample.Files.{Files}
use docker_plugin_cpp.Sample.Util.{has_dir_bit, is_dir}

-- The kinds of file of sys/stat.h, with their S_IFMT bits.
pub data Kind : Type 0 where
  fifo character_device directory block_device regular symbolic_link socket : Kind

abbrev pub format_of : Kind → ℕ
format_of fifo = 1
format_of character_device = 2
format_of directory = 4
format_of block_device = 6
format_of regular = 8
format_of symbolic_link = 10
format_of socket = 12

abbrev pub passes_for_directory : Kind → Bool
passes_for_directory directory = true
passes_for_directory block_device = true
passes_for_directory socket = true
passes_for_directory _ = false

has_dir_bit-kind :
    (k : Kind) (permissions : ℕ)
    → permissions < 4096
    → has_dir_bit (format_of k * 4096 + permissions) ≡ passes_for_directory k
unfolding has_dir_bit
has_dir_bit-kind fifo permissions h = ground arith
has_dir_bit-kind character_device permissions h = ground arith
has_dir_bit-kind directory permissions h = ground arith
has_dir_bit-kind block_device permissions h = ground arith
has_dir_bit-kind regular permissions h = ground arith
has_dir_bit-kind symbolic_link permissions h = ground arith
has_dir_bit-kind socket permissions h = ground arith

-- Whatever the permissions are, is_dir holds of a directory, and also of a block device and of a
-- socket, whose S_IFMT bits have that of a directory among them; it holds of no other file.
pub is_dir_lem :
    {W : Type 0} (files : Files W) (path : Bytes) (w : W) (k : Kind) (permissions modified : ℕ)
    → permissions < 4096
    → files.stat (c_str path) w
      ≡ some (record { st_mode = format_of k * 4096 + permissions; st_mtime = modified })
    → is_dir files path w ≡ passes_for_directory k
unfolding is_dir
is_dir_lem files path w k permissions modified h e = cc (e, has_dir_bit-kind k permissions h)
