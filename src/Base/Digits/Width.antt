-- ===== src/Base/Digits/Width.antt =====
-- How many digits a number has.
use docker_plugin_cpp.Base.Digits.{digit, print, to_string}
use docker_plugin_cpp.Base.Strings.{Bytes}
use docker_plugin_cpp.Base.Lists.{length}
use Prim.Native.Nat.{ℕ, zero, suc, ◌+◌, ◌*◌, ◌/◌, ◌%◌, ◌≤◌, ◌<◌}
use mathlib.Core.List.{[], ◌∷◌}
use native.Mathlib.Omega.{arith}

abbrev pub ten_to : ℕ → ℕ
ten_to zero = 1
ten_to (suc k) = 10 * ten_to k

length-print :
    (k fuel n : ℕ) (rest : Bytes)
    → n < ten_to (suc k)
    → length (print fuel 10 n rest) ≤ suc k + length rest
unfolding print
length-print k zero n rest h = omega arith
length-print zero (suc fuel) n rest h = ground arith
length-print (suc k) (suc fuel) n rest h =
    ground (arith, length-print k fuel (n / 10) (digit (n % 10) ∷ rest) (omega arith))

pub length-to_string : (k n : ℕ) → n < ten_to (suc k) → length (to_string n) ≤ suc k
unfolding to_string
length-to_string k n h = omega (arith, length-print k (suc n) n [] h)
