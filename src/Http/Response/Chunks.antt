-- ===== src/Http/Response/Chunks.antt =====
-- Chunks as the loop of send_data forms them, and a reader of the chunked coding of RFC 7230.
use docker_plugin_cpp.Base.{
  ℕ, zero, suc, ◌-◌, min, ◌<◌, ◌≤◌, ◌≡◌, inl, inr, refl, ap, ◌∙◌, ◌++◌, [], ◌∷◌, Option, none, some,
  Bytes, text, false, ◌&&◌, arith, length, take, drop, get_elem?, ◌==◌, append_assoc, append-nil,
  length-take, take-append, drop-append, take_all, get_elem?-append, get_elem?-take, Bool-cases,
  if◌then◌else◌, if_false,
}
use docker_plugin_cpp.Base.Digits.{to_hex}
use docker_plugin_cpp.Base.Digits.Reading.{read, undigit, read-to_hex}
use docker_plugin_cpp.Http.Response.{uint16_max}

-- The bytes of a chunk, of a run of chunks no longer than `m`, and what the run carries. As in the
-- code, `bytes` does not advance.
unfoldable pub chunk : ℕ → Bytes → Bytes
chunk n bytes = (to_hex n ++ text "\r\n") ++ (take n bytes ++ text "\r\n")

unfoldable pub stream : ℕ → ℕ → Bytes → ℕ → Bytes
stream m zero bytes len = []
stream m (suc fuel) bytes len =
    let rest = chunk (min len m) bytes ++ stream m fuel bytes (len - min len m) in
    if len == 0 then [] else rest

pub carried : ℕ → ℕ → Bytes → ℕ → Bytes
carried m zero bytes len = []
carried m (suc fuel) bytes len =
    let rest = take (min len m) bytes ++ carried m fuel bytes (len - min len m) in
    if len == 0 then [] else rest

-- A reader of chunks: what they carry, and what follows the last one.
strip_crlf : Bytes → Option Bytes
strip_crlf [] = none
strip_crlf (a ∷ []) = none
strip_crlf (a ∷ b ∷ s) = if a == 13 && b == 10 then some s else none

prepend : Bytes → Option (Bytes × Bytes) → Option (Bytes × Bytes)
prepend part none = none
prepend part (some (bytes, rest)) = some (part ++ bytes, rest)

unchunk_body : ℕ → Bytes → (Bytes → Option (Bytes × Bytes)) → Option (Bytes × Bytes)
unchunk_body n body more =
    if n == 0
    then elim (strip_crlf body) [ none ↦ none | some rest ↦ some ([], rest) ]
    else elim (strip_crlf (drop n body)) [
      | none ↦ none
      | some rest ↦ prepend (take n body) (more rest)
    ]

unchunk_size : ℕ × Bytes → (Bytes → Option (Bytes × Bytes)) → Option (Bytes × Bytes)
unchunk_size (n, s) more = elim (strip_crlf s) [
  | none ↦ none
  | some body ↦ unchunk_body n body more
]

pub unchunk : ℕ → Bytes → Option (Bytes × Bytes)
unchunk zero s = none
unchunk (suc fuel) s = unchunk_size (read 16 0 s) (unchunk fuel)

strip_crlf-append : (s : Bytes) → strip_crlf (text "\r\n" ++ s) ≡ some s
unfolding strip_crlf text
strip_crlf-append s = refl

read-crlf : (n : ℕ) (s : Bytes) → read 16 n (text "\r\n" ++ s) ≡ (n, text "\r\n" ++ s)
unfolding read undigit text
read-crlf n s = refl

unchunk_lem :
    (fuel n : ℕ) (body : Bytes)
    → unchunk (suc fuel) (to_hex n ++ (text "\r\n" ++ body)) ≡ unchunk_body n body (unchunk fuel)
unfolding unchunk unchunk_size
unchunk_lem fuel n body =
    ap (λ r. unchunk_size r (unchunk fuel)) (read-to_hex n (text "\r\n" ++ body) ∙ read-crlf n body)
    ∙ rw (unchunk_size, strip_crlf-append body)

unchunk_body-take :
    (n : ℕ) (bytes rest : Bytes) (more : Bytes → Option (Bytes × Bytes))
    → 0 < n
    → n ≤ length bytes
    → unchunk_body n (take n bytes ++ (text "\r\n" ++ rest)) more
      ≡ prepend (take n bytes) (more rest)
unfolding unchunk_body strip_crlf text
unchunk_body-take n bytes rest more pos fits =
    let size : length (take n bytes) ≡ n = omega (arith, length-take n bytes) in
    let zero_test : (n == 0) ≡ false = ground arith in
    if_false _ _ zero_test
    ∙ rw (
      drop-append (take n bytes) (text "\r\n" ++ rest) size,
      take-append (take n bytes) (text "\r\n" ++ rest) size,
    )

unchunk-chunk :
    (fuel n : ℕ) (bytes rest : Bytes)
    → 0 < n
    → n ≤ length bytes
    → unchunk (suc fuel) (chunk n bytes ++ rest) ≡ prepend (take n bytes) (unchunk fuel rest)
unfolding chunk
unchunk-chunk fuel n bytes rest pos fits =
    ap (unchunk (suc fuel)) (simp append_assoc)
    ∙ unchunk_lem fuel n (take n bytes ++ (text "\r\n" ++ rest))
    ∙ unchunk_body-take n bytes rest (unchunk fuel) pos fits

unchunk-last :
    (fuel : ℕ) (rest : Bytes) → unchunk (suc fuel) (text "0\r\n\r\n" ++ rest) ≡ some ([], rest)
unfolding unchunk unchunk_size unchunk_body text strip_crlf read undigit
unchunk-last fuel rest = refl

-- Reading back what the loop of send_data wrote.
unchunk-stream :
    (m fuel : ℕ) (bytes : Bytes) (len : ℕ) (rest : Bytes)
    → 0 < m
    → len < fuel
    → len ≤ length bytes
    → unchunk fuel (stream m fuel bytes len ++ (text "0\r\n\r\n" ++ rest))
      ≡ some (carried m fuel bytes len, rest)
unfolding stream carried prepend
unchunk-stream m zero bytes len rest pos lt fits = absurd (omega arith)
unchunk-stream m (suc fuel) bytes len rest pos lt fits = elim (Bool-cases (len == 0)) [
  | inl done ↦ rw done (unchunk-last fuel rest)
  | inr more ↦
      let later =
        unchunk-stream m fuel bytes (len - min len m) rest pos (ground arith) (omega arith) in
      rw (more) (
        ap (unchunk (suc fuel)) (append_assoc (chunk (min len m) bytes) _ _)
        ∙ unchunk-chunk fuel (min len m) bytes _ (ground arith) (omega arith)
        ∙ ap (prepend (take (min len m) bytes)) later)
]

carried_none : (m fuel : ℕ) (bytes : Bytes) → carried m fuel bytes 0 ≡ []
unfolding carried
carried_none m zero bytes = refl
carried_none m (suc fuel) bytes = refl

carried_step :
    (m fuel : ℕ) (bytes : Bytes) (len : ℕ)
    → 0 < len
    → carried m (suc fuel) bytes len
      ≡ take (min len m) bytes ++ carried m fuel bytes (len - min len m)
unfolding carried
carried_step m fuel bytes len pos =
    let test : (len == 0) ≡ false = ground arith in if_false _ _ test

-- Bytes that fit into a chunk are carried as they are.
pub carried_short :
    (m fuel : ℕ) (bytes : Bytes)
    → length bytes ≤ m
    → length bytes < fuel
    → carried m fuel bytes (length bytes) ≡ bytes
carried_short m fuel [] h lt = carried_none m fuel []
carried_short m zero (b ∷ bytes) h lt = absurd (omega arith)
carried_short m (suc fuel) (b ∷ bytes) h lt =
    let all = b ∷ bytes in
    let none_left : length all - min (length all) m ≡ 0 = omega arith in
    carried_step m fuel all (length all) (omega arith)
    ∙ ap (λ k. take (min (length all) m) all ++ carried m fuel all k) none_left
    ∙ ap (λ t. take (min (length all) m) all ++ t) (carried_none m fuel all)
    ∙ append-nil _
    ∙ take_all (min (length all) m) all (omega arith)

-- Past the first chunk the bytes begin again.
pub carried_long :
    (m fuel : ℕ) (bytes : Bytes)
    → 0 < m
    → m < length bytes
    → length bytes < fuel
    → get_elem? (carried m fuel bytes (length bytes)) m ≡ get_elem? bytes 0
carried_long m zero bytes pos more lt = absurd (omega arith)
carried_long m (suc zero) bytes pos more lt = absurd (omega arith)
carried_long m (suc (suc fuel)) bytes pos more lt =
    let len = length bytes in
    let left = len - min len m in
    ap (λ t. get_elem? t m) (carried_step m (suc fuel) bytes len (omega arith))
    ∙ get_elem?-append (take (min len m) bytes) _ (omega (arith, length-take (min len m) bytes))
    ∙ ap (λ t. get_elem? t 0) (carried_step m fuel bytes left (omega arith))
    ∙ get_elem?-take (min left m) bytes _ (omega arith) (omega arith)

-- Where the header is out and announced chunks, the bytes that send_data and end() put on the
-- wire.
unfoldable pub chunked_wire : Bytes → Bytes
chunked_wire bytes = stream uint16_max (suc (length bytes)) bytes (length bytes) ++ text "0\r\n\r\n"

pub pair_of_some :
    {a b c d : Bytes} → ◌≡◌ {A = Option (Bytes × Bytes)} (some (a, b)) (some (c, d)) → a ≡ c
pair_of_some e = cc

pub unchunk-chunked_wire :
    (bytes rest : Bytes)
    → unchunk (suc (length bytes)) (chunked_wire bytes ++ rest)
      ≡ some (carried uint16_max (suc (length bytes)) bytes (length bytes), rest)
unfolding chunked_wire
unchunk-chunked_wire bytes rest =
    ap (unchunk (suc (length bytes))) (append_assoc (stream uint16_max _ bytes _) _ rest)
    ∙ unchunk-stream uint16_max (suc (length bytes)) bytes (length bytes) rest (omega arith)
        (omega arith) (omega arith)
