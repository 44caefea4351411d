-- ===== src/Base/Digits.antt =====
-- std::to_string and the %x of snprintf: the digits of a number in a base, and their value.
pub mod Reading
pub mod Width
use Prim.Native.Nat.{ℕ, zero, suc, ◌+◌, ◌-◌, ◌*◌, ◌/◌, ◌%◌, ◌≤◌, ◌<◌}
use mathlib.Core.Path.{◌≡◌, refl, ap}
use mathlib.Core.List.{List, [], ◌∷◌, ◌++◌}
use native.Mathlib.Omega.{arith}
use docker_plugin_cpp.Base.Tests.{ltb, if◌then◌else◌}
use docker_plugin_cpp.Base.Strings.{Bytes}

-- The digit's byte: '0' to '9', then 'a' to 'f'.
unfoldable pub digit : ℕ → ℕ
digit d = if ltb d 10 then b'0' + d else b'a' + (d - 10)

pub print : ℕ → ℕ → ℕ → Bytes → Bytes
print zero base n rest = rest
print (suc fuel) base n rest =
    let more = print fuel base (n / base) (digit (n % base) ∷ rest) in
    if ltb n base then digit n ∷ rest else more

-- A number has at most as many digits as it counts, and one.
unfoldable pub to_string : ℕ → Bytes
unfolding print digit
to_string n = print (suc n) 10 n []

unfoldable pub to_hex : ℕ → Bytes
unfolding print digit
to_hex n = print (suc n) 16 n []
