-- ===== src/Base/Int.antt =====
-- Signed integers, and the conversion of an int64_t to an int.
use Prim.Native.Nat.{ℕ, ◌-◌, ◌%◌}
use docker_plugin_cpp.Base.Tests.{ltb, if◌then◌else◌}

-- `negsuc n` is -(n + 1).
pub data ℤ : Type 0 where
  pos : ℕ → ℤ
  negsuc : ℕ → ℤ

-- The low 32 bits, as a number in two's complement.
unfoldable pub to_int32 : ℤ → ℤ
to_int32 (pos n) =
    let m = n % 4294967296 in if ltb m 2147483648 then pos m else negsuc (4294967295 - m)
to_int32 (negsuc n) =
    let m = n % 4294967296 in if ltb m 2147483648 then negsuc m else pos (4294967295 - m)
