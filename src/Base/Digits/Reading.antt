-- ===== src/Base/Digits/Reading.antt =====
-- A reader of digits, and that it reads what is printed.
use docker_plugin_cpp.Base.Strings.{Bytes}
use docker_plugin_cpp.Base.Tests.{ltb, leb, if◌then◌else◌}
use docker_plugin_cpp.Base.Lists.{All}
use docker_plugin_cpp.Base.Digits.{digit, print, to_string, to_hex}
use Prim.Native.Nat.{ℕ, zero, suc, ◌+◌, ◌-◌, ◌*◌, ◌/◌, ◌%◌, ◌≤◌, ◌<◌}
use mathlib.Core.Path.{◌≡◌, refl, ap, ◌∙◌}
use mathlib.Core.Bool.{◌&&◌, true, false}
use mathlib.Core.List.{[], ◌∷◌, ◌++◌}
use mathlib.Core.Option.{Option, none, some}
use native.Mathlib.Omega.{arith}
use native.Mathlib.Nat.{div-add-mod, div-add-mod', mod-lt}
use native.Mathlib.Decide.{dec_lt}

unfoldable pub undigit : ℕ → Option ℕ
undigit c =
    if leb b'0' c && leb c b'9'
    then some (c - b'0')
    else if leb b'a' c && leb c b'f'
    then some (c - b'a' + 10)
    else none

undigit-digit : (d : ℕ) → d < 16 → undigit (digit d) ≡ some d
unfolding undigit digit
undigit-digit d h = ground arith

-- The number that a run of digits stands for, and what follows the run.
unfoldable pub read : ℕ → ℕ → Bytes → ℕ × Bytes
read base acc [] = (acc, [])
read base acc (c ∷ s) = elim (undigit c) [
  | none ↦ (acc, c ∷ s)
  | some d ↦ if ltb d base then read base (acc * base + d) s else (acc, c ∷ s)
]

lt→ltb : (a b : ℕ) → a < b → ltb a b ≡ true
lt→ltb a b h = ground arith

read-digit :
    (base acc d : ℕ) (rest : Bytes)
    → d < 16
    → d < base
    → read base acc (digit d ∷ rest) ≡ read base (acc * base + d) rest
unfolding read
read-digit base acc d rest h k = rw (undigit-digit d h, read) (rw (lt→ltb d base k) refl)

div-lt : (base n fuel : ℕ) → 2 ≤ base → base ≤ n → n < suc fuel → n / base < fuel
div-lt base n fuel h k l = grind (arith, div-add-mod)

le→ltb : (a b : ℕ) → b ≤ a → ltb a b ≡ false
le→ltb a b h = ground arith

read-print :
    (fuel base n : ℕ) (rest : Bytes)
    → 2 ≤ base
    → base ≤ 16
    → n < fuel
    → read base 0 (print fuel base n rest) ≡ read base n rest
unfolding print
read-print zero base n rest h k l = absurd (omega arith)
read-print (suc fuel) base n rest h k l = elim (dec_lt n base) [
  | yes p ↦
      rw (lt→ltb n base p)
        (read-digit base 0 n rest (omega arith) p ∙ ap (λ a. read base a rest) (omega arith))
  | no p ↦ rw (le→ltb n base (omega arith)) (
      read-print fuel base (n / base) (digit (n % base) ∷ rest) h k
        (div-lt base n fuel h (omega arith) l)
      ∙ read-digit base (n / base) (n % base) rest
          (omega (arith, mod-lt n {m = base} (omega arith))) (mod-lt n {m = base} (omega arith))
      ∙ ap (λ a. read base a rest) (omega (arith, div-add-mod' n base)))
]

-- The digits of a number, and then what is no digit, are read as that number.
pub read-to_string : (n : ℕ) (rest : Bytes) → read 10 0 (print (suc n) 10 n rest) ≡ read 10 n rest
read-to_string n rest = read-print (suc n) 10 n rest (omega arith) (omega arith) (omega arith)

print-append :
    (fuel base n : ℕ) (xs ys : Bytes) → print fuel base n xs ++ ys ≡ print fuel base n (xs ++ ys)
unfolding print
print-append zero base n xs ys = refl
print-append (suc fuel) base n xs ys =
    ground (arith, print-append fuel base (n / base) (digit (n % base) ∷ xs) ys)

pub read-to_hex : (n : ℕ) (rest : Bytes) → read 16 0 (to_hex n ++ rest) ≡ read 16 n rest
unfolding to_hex
read-to_hex n rest =
    ap (read 16 0) (print-append (suc n) 16 n [] rest)
    ∙ read-print (suc n) 16 n rest (omega arith) (omega arith) (omega arith)

pub read-to_string_append :
    (n : ℕ) (rest : Bytes) → read 10 0 (to_string n ++ rest) ≡ read 10 n rest
unfolding to_string
read-to_string_append n rest =
    ap (read 10 0) (print-append (suc n) 10 n [] rest) ∙ read-to_string n rest

-- What is printed begins with a digit of the base.
pub print-first :
    (fuel base n : ℕ) (rest : Bytes)
    → 2 ≤ base
    → n < fuel
    → (d : ℕ) × (s : Bytes) × (print fuel base n rest ≡ digit d ∷ s) × (d < base)
unfolding print
print-first zero base n rest h l = absurd (omega arith)
print-first (suc fuel) base n rest h l = elim (dec_lt n base) [
  | yes p ↦ (n, rest, rw (lt→ltb n base p) refl, p)
  | no p ↦
      let (d, s, e, lt) =
        print-first fuel base (n / base) (digit (n % base) ∷ rest) h
          (div-lt base n fuel h (omega arith) l) in
      (d, s, rw (le→ltb n base (omega arith)) e, lt)
]

All-print :
    (P : ℕ → Type 0) (fuel base n : ℕ) (rest : Bytes)
    → ((d : ℕ) → d < base → P (digit d))
    → 0 < base
    → All P rest
    → All P (print fuel base n rest)
unfolding print
All-print P zero base n rest digits pos h = h
All-print P (suc fuel) base n rest digits pos h = elim (dec_lt n base) [
  | yes p ↦ rw (lt→ltb n base p) (digits n p, h)
  | no p ↦ rw (le→ltb n base (omega arith)) (
      All-print P fuel base (n / base) (digit (n % base) ∷ rest) digits pos
        (digits (n % base) (mod-lt n {m = base} pos), h))
]

-- What holds of the ten digits holds of every byte of a printed number.
pub All-to_string :
    (P : ℕ → Type 0) (n : ℕ) → ((d : ℕ) → d < 10 → P (digit d)) → All P (to_string n)
unfolding to_string
All-to_string P n digits = All-print P (suc n) 10 n [] digits (omega arith) tt
