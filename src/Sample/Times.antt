-- ===== src/Sample/Times.antt =====
-- util::create_time, and the number that it reads of a file.
pub mod RoundTrip
use docker_plugin_cpp.Base.{
  ℕ, ◌+◌, ◌-◌, ◌%◌, ◌++◌, ◌&&◌, ◌||◌, List, [], ◌∷◌, Option, none, some, Bytes, text, c_str, Bool,
  true, false, ◌==◌, ltb, leb, is_empty, if◌then◌else◌,
}
use docker_plugin_cpp.Base.Digits.Reading.{read}
use docker_plugin_cpp.Sample.Files.{Files}

-- isspace
unfoldable pub is_space : ℕ → Bool
is_space b = b == 32 || leb 9 b && leb b 13

unfoldable pub skip_space : Bytes → Bytes
unfolding is_space
skip_space [] = []
skip_space (b ∷ s) = let rest = skip_space s in if is_space b then rest else b ∷ s

abbrev pub uint64_max : ℕ
uint64_max = 18446744073709551615

-- The last second of system_clock.
abbrev pub latest : ℕ
latest = 9223372036

-- A number that is too large is read as the largest one.
abbrev pub at_most : ℕ → ℕ
at_most n = if ltb uint64_max n then uint64_max else n

-- The digits behind a sign, as strtoull takes them.
unfoldable pub read_signed : Bytes → ℕ
unfolding read
read_signed [] = 0
read_signed (b ∷ s) =
    if b == b'-'
    then (let n = (read 10 0 s).0 in
        if ltb uint64_max n then uint64_max else (uint64_max + 1 - n) % (uint64_max + 1))
    else if b == b'+'
    then at_most (read 10 0 s).0
    else at_most (read 10 0 (b ∷ s)).0

-- in >> ts, on all that the stream gives; `none` where it ends before the number and ts is not
-- written.
unfoldable pub read_uint64 : Bytes → Option ℕ
unfolding skip_space read_signed
read_uint64 s = let s' = skip_space s in if is_empty s' then none else some (read_signed s')

module _ {W : Type 0} (files : Files W) where
  open files use {stat, read_file, indeterminate}

  -- from_time_t: the clock counts nanoseconds in 64 bits with a sign, and a time that it cannot hold
  -- overflows.
  unfoldable pub from_time_t : ℕ → W → ℕ
  from_time_t t w = if ltb latest t then indeterminate w else t

  -- Where the file has no number, what ts held.
  unfoldable pub create_time : Bytes → W → ℕ
  unfolding c_str text read_uint64 from_time_t
  create_time path w = elim (read_file (c_str (path ++ text ".create_ts")) w) [
    | none ↦ elim (stat (c_str path) w) [ none ↦ 0 | some info ↦ from_time_t info.st_mtime w ]
    | some contents ↦ elim (read_uint64 contents) [
      | none ↦ from_time_t (indeterminate w) w
      | some ts ↦ from_time_t ts w
    ]
  ]
