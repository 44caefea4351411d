-- ===== src/Sample/Times/RoundTrip.antt =====
-- Numbers that are printed and read again.
use docker_plugin_cpp.Base.{
  ℕ, suc, ltb, false, ◌≤◌, ◌<◌, ◌≡◌, sym, ap, ◌∙◌, ◌++◌, [], ◌∷◌, some, Bytes, text, c_str, arith,
  append-nil,
}
use docker_plugin_cpp.Base.Digits.{digit, to_string}
use docker_plugin_cpp.Base.Digits.Reading.{read, read-to_string_append, print-first}
use docker_plugin_cpp.Sample.Files.{Files}
use docker_plugin_cpp.Sample.Times.{
  is_space, skip_space, uint64_max, latest, from_time_t, at_most, read_signed, read_uint64,
  create_time,
}

-- Nothing stands before a digit, neither spaces nor a sign.
read_uint64-digit :
    (d : ℕ) (s : Bytes)
    → d < 10
    → read_uint64 (digit d ∷ s) ≡ some (at_most (read 10 0 (digit d ∷ s)).0)
unfolding read_uint64 skip_space is_space read_signed digit
read_uint64-digit d s h = ground arith

to_string-first : (n : ℕ) → (d : ℕ) × (s : Bytes) × (to_string n ≡ digit d ∷ s) × (d < 10)
unfolding to_string
to_string-first n = print-first (suc n) 10 n [] (omega arith) (omega arith)

read-printed : (n : ℕ) → read 10 0 (to_string n) ≡ (n, [])
unfolding read
read-printed n = ap (read 10 0) (sym (append-nil (to_string n))) ∙ read-to_string_append n []

fits : (n : ℕ) → n ≤ uint64_max → at_most n ≡ n
fits n h = ground arith

in_clock : (n : ℕ) → n ≤ latest → ltb latest n ≡ false
in_clock n h = ground arith

-- A number of 64 bits that is printed in decimal digits is read as itself.
pub read_uint64-to_string : (n : ℕ) → n ≤ uint64_max → read_uint64 (to_string n) ≡ some n
read_uint64-to_string n h =
    let (d, s, e, lt) = to_string-first n in
    ap read_uint64 e
    ∙ read_uint64-digit d s lt
    ∙ ap (λ t. some (at_most (read 10 0 t).0)) (sym e)
    ∙ ap (λ r. some (at_most r.0)) (read-printed n)
    ∙ ap some (fits n h)

module _ {W : Type 0} (files : Files W) where
  -- A volume whose file has a time in decimal digits was created at that time.
  pub create_time-written :
      (path : Bytes) (w : W) (n : ℕ)
      → n ≤ latest
      → files.read_file (c_str (path ++ text ".create_ts")) w ≡ some (to_string n)
      → create_time files path w ≡ n
  unfolding create_time from_time_t
  create_time-written path w n h e = cc (e, read_uint64-to_string n (omega arith), in_clock n h)
