-- ===== src/Http/Response/Framing.antt =====
-- A reader of whole responses, each as long as its header says.
use docker_plugin_cpp.Base.{
  ℕ, ◌≡◌, ◌≢◌, refl, sym, ap, ◌∙◌, ◌++◌, List, [], ◌∷◌, Option, none, some, Bytes, text, Bool, true,
  ◌&&◌, ◌==◌, arith, All, length, take, drop, take-append, drop-append, append-nil, append_assoc,
  if◌then◌else◌, if_true, compare_by_self,
}
use docker_plugin_cpp.Base.Digits.{digit, to_string}
use docker_plugin_cpp.Base.Digits.Reading.{read, read-to_string_append, All-to_string}
use docker_plugin_cpp.Map
use docker_plugin_cpp.Http.Headers.{HeaderSet, header_rank, get, set}
use docker_plugin_cpp.Http.Headers.Laws.{get-set, All-set}
use docker_plugin_cpp.Http.Status.{message_for, find_message, http_status_map}
use docker_plugin_cpp.Http.Response.{response_head}
use docker_plugin_cpp.Http.Response.Reading.{lacks, IsField, read_head, read_head-response_head}

-- The status and the body of a response, and what follows it.
pub read_response : Bytes → Option (ℕ × Bytes × Bytes)
read_response s = elim (read_head s) [
  | none ↦ none
  | some (status, message, hs, rest) ↦
      let n = (read 10 0 (get (text "content-length") hs)).0 in
      some (status, take n rest, drop n rest)
]

lacks_of_All : (a : ℕ) (s : Bytes) → All (λ b. b ≢ a) s → lacks a s ≡ true
lacks_of_All a [] h = refl
lacks_of_All a (b ∷ s) (h, hs) = ground (arith, lacks_of_All a s hs)

abbrev all_lack : ℕ → List (ℕ × Bytes) → Bool
all_lack a [] = true
all_lack a ((code, name) ∷ table) = lacks a name && all_lack a table

find_message-lacks :
    (a status : ℕ) (message : Bytes) (table : List (ℕ × Bytes))
    → lacks a message ≡ true
    → all_lack a table ≡ true
    → lacks a (find_message status message table) ≡ true
unfolding find_message
find_message-lacks a status message [] h k = h
find_message-lacks a status message ((code, name) ∷ table) h k =
    find_message-lacks a status (if code == status then name else message) table (ground (arith, k))
      (ground (arith, k))

http_status_map-lacks : all_lack 13 http_status_map ≡ true
unfolding http_status_map text
http_status_map-lacks = refl

message_for-lacks : (status : ℕ) → lacks 13 (message_for status []) ≡ true
unfolding message_for text
message_for-lacks status =
    find_message-lacks 13 status (text "OK") http_status_map refl http_status_map-lacks

to_string-lacks : (n : ℕ) → lacks 13 (to_string n) ≡ true
unfolding digit
to_string-lacks n =
    lacks_of_All 13 (to_string n) (All-to_string (λ b. b ≢ 13) n (λ d h e. ground arith))

length-IsField : (n : ℕ) → IsField (text "content-length", to_string n)
unfolding text
length-IsField n = (refl, refl, to_string-lacks n)

read-printed : (n : ℕ) → (read 10 0 (to_string n)).0 ≡ n
unfolding read
read-printed n =
    ap (λ (r : ℕ × Bytes). r.0)
      (ap (read 10 0) (sym (append-nil (to_string n))) ∙ read-to_string_append n [])

-- The length that is read of the header.
length_lem :
    (n : ℕ) (headers : HeaderSet)
    → (read 10 0
        (get (text "content-length") (set (text "content-length") (to_string n) true headers))).0
      ≡ n
length_lem n headers =
    let same : Map.equivalent header_rank (text "content-length") (text "content-length") ≡ true =
      cc (compare_by_self header_rank (text "content-length")) in
    ap (λ v. (read 10 0 v).0)
      (get-set (text "content-length") (text "content-length") (to_string n) headers
        ∙ if_true _ _ same)
    ∙ read-printed n

-- A response with its length in the header is read as its status and its body, and what follows it
-- is left.
pub read_response_lem :
    (status : ℕ) (body rest : Bytes) (headers : HeaderSet)
    → All IsField headers
    → read_response (
        response_head status
          (message_for status [])
          (set (text "content-length") (to_string (length body)) true headers)
        ++ body
        ++ rest)
      ≡ some (status, body, rest)
unfolding read_response
read_response_lem status body rest headers fields =
    let hs = set (text "content-length") (to_string (length body)) true headers in
    let head =
      read_head-response_head status (message_for status []) hs (body ++ rest)
        (message_for-lacks status)
        (All-set IsField (text "content-length") _ headers (length-IsField (length body)) fields) in
    let split = append_assoc (response_head status (message_for status []) hs) body rest in
    cc (
      split,
      head,
      length_lem (length body) headers,
      take-append body rest refl,
      drop-append body rest refl,
    )
