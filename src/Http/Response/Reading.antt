-- ===== src/Http/Response/Reading.antt =====
-- A reader of the head of a response, as send_headers writes it.
use docker_plugin_cpp.Base.{
  ℕ, zero, suc, ◌<◌, ◌≡◌, refl, ap, ◌∙◌, ◌++◌, [], ◌∷◌, Option, none, some, Bytes, text, Bool, true,
  false, not, ◌&&◌, ◌==◌, arith, All, length, length-append, is_empty, append_assoc, if◌then◌else◌,
}
use docker_plugin_cpp.Base.Digits.{to_string}
use docker_plugin_cpp.Base.Digits.Reading.{read, undigit, read-to_string_append}
use docker_plugin_cpp.Http.Headers.{HeaderSet}
use docker_plugin_cpp.Http.Response.{header_lines, response_head}

-- The bytes before the first two bytes of that kind, and what follows them.
until : ℕ → ℕ → Bytes → Option (Bytes × Bytes)
until a b [] = none
until a b (x ∷ []) = none
until a b (x ∷ y ∷ s) =
    if x == a && y == b
    then some ([], s)
    else elim (until a b (y ∷ s)) [ none ↦ none | some (before, rest) ↦ some (x ∷ before, rest) ]

abbrev pub lacks : ℕ → Bytes → Bool
lacks a [] = true
lacks a (x ∷ s) = not (x == a) && lacks a s

until-lacks :
    (a b : ℕ) (before rest : Bytes)
    → lacks a before ≡ true
    → until a b (before ++ a ∷ b ∷ rest) ≡ some (before, rest)
unfolding until
until-lacks a b [] rest h = ground arith
until-lacks a b (x ∷ []) rest h = ground arith
until-lacks a b (x ∷ y ∷ before) rest h = ground (arith, until-lacks a b (y ∷ before) rest)

-- The lines of the header up to the empty one.
read_fields : ℕ → Bytes → Option (HeaderSet × Bytes)
read_fields zero s = none
read_fields (suc fuel) s = elim (until 13 10 s) [
  | none ↦ none
  | some (line, rest) ↦ if is_empty line then some ([], rest) else elim (until 58 32 line) [
    | none ↦ none
    | some (key, value) ↦ elim (read_fields fuel rest) [
      | none ↦ none
      | some (hs, body) ↦ some ((key, value) ∷ hs, body)
    ]
  ]
]

strip : Bytes → Bytes → Option Bytes
strip [] s = some s
strip (a ∷ p) [] = none
strip (a ∷ p) (b ∷ s) = if a == b then strip p s else none

strip-append : (p s : Bytes) → strip p (p ++ s) ≡ some s
unfolding strip
strip-append [] s = refl
strip-append (a ∷ p) s = ground (arith, strip-append p s)

-- A name without a colon, and a line without a carriage return.
abbrev pub IsField : Bytes × Bytes → Type 0
IsField (key, value) = (lacks 13 key ≡ true) × (lacks 58 key ≡ true) × (lacks 13 value ≡ true)

lacks-append : (a : ℕ) (s t : Bytes) → lacks a s ≡ true → lacks a t ≡ true → lacks a (s ++ t) ≡ true
lacks-append a [] t h k = k
lacks-append a (x ∷ s) t h k = ground (arith, lacks-append a s t)

-- The line of one field.
abbrev line_of : Bytes → Bytes → Bytes
line_of key value = key ++ 58 ∷ 32 ∷ value

line_of-lacks : (key value : Bytes) → IsField (key, value) → lacks 13 (line_of key value) ≡ true
line_of-lacks key value (k, c, v) = lacks-append 13 key (58 ∷ 32 ∷ value) k v

line_of-nonempty : (key value : Bytes) → is_empty (line_of key value) ≡ false
line_of-nonempty [] value = refl
line_of-nonempty (a ∷ key) value = refl

header_lines-line :
    (key value : Bytes) (hs : HeaderSet) (rest : Bytes)
    → header_lines ((key, value) ∷ hs) ++ rest
      ≡ line_of key value ++ 13 ∷ 10 ∷ (header_lines hs ++ rest)
unfolding header_lines text
header_lines-line key value hs rest = simp append_assoc

read_fields-line :
    (fuel : ℕ) (key value : Bytes) (hs : HeaderSet) (later rest : Bytes)
    → IsField (key, value)
    → read_fields fuel later ≡ some (hs, rest)
    → read_fields (suc fuel) (line_of key value ++ 13 ∷ 10 ∷ later) ≡ some ((key, value) ∷ hs, rest)
unfolding read_fields
read_fields-line fuel key value hs later rest f ih = cc (
  until-lacks 13 10 (line_of key value) later (line_of-lacks key value f),
  line_of-nonempty key value,
  until-lacks 58 32 key value (f.1),
  ih,
)

read_fields-header_lines :
    (fuel : ℕ) (hs : HeaderSet) (rest : Bytes)
    → length hs < fuel
    → All IsField hs
    → read_fields fuel (header_lines hs ++ 13 ∷ 10 ∷ rest) ≡ some (hs, rest)
unfolding read_fields header_lines
read_fields-header_lines zero hs rest enough h = absurd (omega arith)
read_fields-header_lines (suc fuel) [] rest enough h = cc (until-lacks 13 10 [] rest refl)
read_fields-header_lines (suc fuel) ((key, value) ∷ hs) rest enough (f, h) =
    ap (read_fields (suc fuel)) (header_lines-line key value hs (13 ∷ 10 ∷ rest))
    ∙ read_fields-line fuel key value hs (header_lines hs ++ 13 ∷ 10 ∷ rest) rest f
        (read_fields-header_lines fuel hs rest (omega arith) h)

-- The status, the message, the fields and what follows the head.
pub read_head : Bytes → Option (ℕ × Bytes × HeaderSet × Bytes)
read_head s = elim (strip (text "HTTP/1.1 ") s) [
  | none ↦ none
  | some s' ↦ elim (until 13 10 (read 10 0 s').1) [
    | none ↦ none
    | some (reason, lines) ↦ elim (strip (32 ∷ []) reason) [
      | none ↦ none
      | some message ↦ elim (read_fields (length lines) lines) [
        | none ↦ none
        | some (hs, rest) ↦ some ((read 10 0 s').0, message, hs, rest)
      ]
    ]
  ]
]

head_split :
    (status : ℕ) (message : Bytes) (hs : HeaderSet) (rest : Bytes)
    → response_head status message hs ++ rest
      ≡ text "HTTP/1.1 "
        ++ (to_string status ++ (32 ∷ (message ++ 13 ∷ 10 ∷ (header_lines hs ++ 13 ∷ 10 ∷ rest))))
unfolding response_head text
head_split status message hs rest = simp append_assoc

read_status :
    (status : ℕ) (rest : Bytes) → read 10 0 (to_string status ++ 32 ∷ rest) ≡ (status, 32 ∷ rest)
unfolding read undigit
read_status status rest = read-to_string_append status (32 ∷ rest) ∙ ground arith

-- The lines are longer than the fields are many.
length-header_lines :
    (hs : HeaderSet) (rest : Bytes) → length hs < length (header_lines hs ++ 13 ∷ 10 ∷ rest)
unfolding header_lines
length-header_lines [] rest = omega arith
length-header_lines ((key, value) ∷ hs) rest = omega (
  arith,
  ap length (header_lines-line key value hs (13 ∷ 10 ∷ rest)),
  length-append (line_of key value) (13 ∷ 10 ∷ (header_lines hs ++ 13 ∷ 10 ∷ rest)),
  length-header_lines hs rest,
)

-- What send_headers writes is read as the status, the message and the fields, in their order, that
-- it was given, and what follows it is left, if neither the message nor a field has a carriage
-- return in it and no name has a colon.
pub read_head-response_head :
    (status : ℕ) (message : Bytes) (hs : HeaderSet) (rest : Bytes)
    → lacks 13 message ≡ true
    → All IsField hs
    → read_head (response_head status message hs ++ rest) ≡ some (status, message, hs, rest)
unfolding read_head
read_head-response_head status message hs rest m h =
    let lines = header_lines hs ++ 13 ∷ 10 ∷ rest in
    let after = 32 ∷ (message ++ 13 ∷ 10 ∷ lines) in
    ap read_head (head_split status message hs rest)
    ∙ cc (
      strip-append (text "HTTP/1.1 ") (to_string status ++ after),
      read_status status (message ++ 13 ∷ 10 ∷ lines),
      until-lacks 13 10 (32 ∷ message) lines m,
      strip-append (32 ∷ []) message,
      read_fields-header_lines (length lines) hs rest (length-header_lines hs rest) h,
    )
