-- ===== src/Volume/Times.antt =====
-- convert_time of lib/src/serialize.cpp: a time as Docker reads it. The calendar of the C library,
-- gmtime and strftime, is an argument.
use mathlib.Core.Path.{subst}
use docker_plugin_cpp.Base.{
  ℕ, zero, suc, ◌/◌, ◌%◌, ◌≤◌, ◌<◌, ◌≡◌, ◌≢◌, refl, ap, ◌∙◌, List, [], ◌∷◌, ◌++◌, Bytes, text,
  c_str, sym, arith, length, length-append, All,
}
use docker_plugin_cpp.Base.Digits.{digit, to_string}
use docker_plugin_cpp.Base.Digits.Width.{length-to_string}
use docker_plugin_cpp.Base.Digits.Reading.{All-to_string}

-- What convert_time uses of struct tm, with the year and the month as they are written.
pub record Tm : Type 0 where
  pub tm_year : ℕ
  pub tm_mon : ℕ
  pub tm_mday : ℕ
  pub tm_hour : ℕ
  pub tm_min : ℕ
  pub tm_sec : ℕ

-- strftime gives what the array holds behind the call.
pub record Calendar : Type 0 where
  pub gmtime : ℕ → Tm
  pub strftime : Bytes → Bytes → Tm → Bytes

abbrev pub zeros : ℕ → Bytes
zeros zero = []
zeros (suc n) = 0 ∷ zeros n

-- The array, and the text up to its NUL.
unfoldable pub convert_time : Calendar → ℕ → Bytes
unfolding text c_str
convert_time calendar time_point = c_str (
    calendar.strftime (zeros (suc (length (text "2000-01-01T00:00:00Z")))) (text "%FT%TZ")
      (calendar.gmtime time_point))

-- Two digits.
abbrev pub two : ℕ → Bytes
two n = digit (n / 10) ∷ digit (n % 10) ∷ []

-- Numbers of two digits, each behind its sign, and the Z of UTC.
abbrev parts : List (ℕ × ℕ) → Bytes
parts [] = b'Z' ∷ []
parts ((sign, n) ∷ ps) = sign ∷ two n ++ parts ps

abbrev fields : Tm → List (ℕ × ℕ)
fields t =
    (b'-', t.tm_mon)
    ∷ (b'-', t.tm_mday)
    ∷ (b'T', t.tm_hour)
    ∷ (b':', t.tm_min)
    ∷ (b':', t.tm_sec)
    ∷ []

-- The date and the time of day, in UTC, as RFC 3339 writes them.
abbrev pub written : Tm → Bytes
written t = to_string t.tm_year ++ parts (fields t)

abbrev pub InRange : Tm → Type 0
InRange t =
    (t.tm_mon < 13) × (t.tm_mday < 32) × (t.tm_hour < 24) × (t.tm_min < 60) × (t.tm_sec < 61)

-- gmtime and strftime as they are documented: the numbers are in their ranges, with a leap second;
-- and a text that fits, with its NUL, is in the array.
pub record IsGregorian (calendar : Calendar) : Type 0 where
  pub in_range : (time_point : ℕ) → InRange (calendar.gmtime time_point)
  pub fits :
      (array : Bytes) (t : Tm)
      → InRange t
      → length (written t) < length array
      → (rest : Bytes) × (calendar.strftime array (text "%FT%TZ") t ≡ written t ++ 0 ∷ rest)

digit-nonzero : (d : ℕ) → d < 10 → digit d ≢ 0
unfolding digit
digit-nonzero d h = ground arith

parts-nonzero :
    (ps : List (ℕ × ℕ)) → All (λ p. (0 < p.0) × (p.1 < 100)) ps → All (λ b. b ≢ 0) (parts ps)
parts-nonzero [] h = (omega arith, tt)
parts-nonzero ((sign, n) ∷ ps) ((positive, below), h) = (
  omega arith,
  (
    digit-nonzero (n / 10) (omega arith),
    (digit-nonzero (n % 10) (omega arith), parts-nonzero ps h),
  ),
)

c_str_ended : (s rest : Bytes) → All (λ b. b ≢ 0) s → c_str (s ++ 0 ∷ rest) ≡ s
unfolding c_str
c_str_ended [] rest h = refl
c_str_ended (b ∷ s) rest (nonzero, h) = ground (arith, c_str_ended s rest h)

All-append : (s t : Bytes) → All (λ b. b ≢ 0) s → All (λ b. b ≢ 0) t → All (λ b. b ≢ 0) (s ++ t)
All-append [] t h k = k
All-append (b ∷ s) t (nonzero, h) k = (nonzero, All-append s t h k)

written-nonzero :
    (calendar : Calendar) (time_point : ℕ)
    → IsGregorian calendar
    → All (λ b. b ≢ 0) (written (calendar.gmtime time_point))
written-nonzero calendar time_point laws =
    let t = calendar.gmtime time_point in
    let (mon, mday, hour, min, sec) = laws.in_range time_point in
    All-append (to_string t.tm_year) (parts (fields t))
      (All-to_string (λ b. b ≢ 0) t.tm_year digit-nonzero)
      (parts-nonzero (fields t) (
        (omega arith, omega arith),
        (
          (omega arith, omega arith),
          (
            (omega arith, omega arith),
            ((omega arith, omega arith), ((omega arith, omega arith), tt)),
          ),
        ),
      ))

length-written : (t : Tm) → t.tm_year < 10000 → length (written t) ≤ 20
length-written t year = omega (
  arith,
  length-append (to_string t.tm_year) (parts (fields t)),
  length-to_string 3 t.tm_year year,
)

-- Up to the year 9999 the array is long enough, so that convert_time gives the whole date and time of
-- day, and no more than 20 bytes. The C library's gmtime and strftime are assumed to behave as their
-- documentation says.
pub convert_time_lem :
    (calendar : Calendar) (time_point : ℕ)
    → IsGregorian calendar
    → (calendar.gmtime time_point).tm_year < 10000
    → (convert_time calendar time_point ≡ written (calendar.gmtime time_point))
      × (length (convert_time calendar time_point) ≤ 20)
unfolding convert_time
convert_time_lem calendar time_point laws year =
    let t = calendar.gmtime time_point in
    let short = length-written t year in
    let (rest, e) = laws.fits (zeros 21) t (laws.in_range time_point) (omega (arith, short)) in
    let whole : convert_time calendar time_point ≡ written t =
      ap c_str e ∙ c_str_ended (written t) rest (written-nonzero calendar time_point laws) in
    (whole, subst (λ s. length s ≤ 20) (sym whole) short)
