-- ===== src/Tests/Wire.antt =====
-- Writes, headers and responses on concrete connections.
use docker_plugin_cpp.Base.{
  ℕ, suc, zero, ◌<◌, ◌≡◌, ◌≢◌, ◌⊎◌, ◌↔◌, refl, ◌++◌, [], ◌∷◌, none, some, Bytes, text, true, false,
  arith, length, take, get_elem?, map, bytes_eq, if◌then◌else◌,
}
use docker_plugin_cpp.Map
use docker_plugin_cpp.Map.{equivalent}
use docker_plugin_cpp.Channel.{Channel, write, size_max}
use docker_plugin_cpp.Channel.Writing.{Delivers, write-Outcome}
use docker_plugin_cpp.Http.Headers.{HeaderSet, header_rank, to_lower, get, set}
use docker_plugin_cpp.Http.Headers.Laws.{get-set, equivalent_iff}
use docker_plugin_cpp.Http.Connection.{Connection}
use docker_plugin_cpp.Http.Status.{http_status_map, find_message, message_for}
use docker_plugin_cpp.Http.Response.{finish_with, send_data, finish}
use docker_plugin_cpp.Http.Response.Wire.{IsLive, IsPlain, plain_head, finish_with-Delivers}
use docker_plugin_cpp.Http.Response.Chunks.{unchunk, chunked_wire}
use docker_plugin_cpp.Http.Response.Streaming.{send_data_short, send_data_long}

-- A socket of which the kernel first takes two bytes, then one.
abbrev pub slow : Channel
slow = record {
  socket = some 7;
  logger = false;
  answers = some 2 ∷ some 1 ∷ [];
  sent = [];
  closed = [];
  log = [];
}

write-Outcome_example :
    let (r, c) = write (text "HTTP/1.1") slow in
    ((r ≡ length (text "HTTP/1.1")) × (c.sent ≡ [] ++ text "HTTP/1.1"))
    ⊎ ((r ≡ size_max)
        × ((n : ℕ) × (n < length (text "HTTP/1.1")) × (c.sent ≡ [] ++ take n (text "HTTP/1.1"))))
write-Outcome_example = write-Outcome (text "HTTP/1.1") slow 7 refl

abbrev one_header : HeaderSet
one_header = (text "host", text "docker") ∷ []

get-set_example :
    get (text "Content-Type") (set (text "content-type") (text "a/b") true one_header) ≡ (
      if equivalent header_rank (text "Content-Type") (text "content-type")
      then text "a/b"
      else get (text "Content-Type") one_header)
get-set_example = get-set (text "Content-Type") (text "content-type") (text "a/b") one_header

equivalent_iff_example :
    (equivalent header_rank (text "HOST") (text "Host") ≡ true)
    ↔ (map to_lower (text "HOST") ≡ map to_lower (text "Host"))
unfolding text
equivalent_iff_example =
    equivalent_iff (text "HOST") (text "Host")
      (omega arith, (omega arith, (omega arith, (omega arith, tt))))
      (omega arith, (omega arith, (omega arith, (omega arith, tt))))

abbrev connection : Connection (Unit {0})
connection = record {
  channel = slow;
  buffer = [];
  buffer_body = false;
  buffer_headers = false;
  headers = [];
  current_header = none;
  response_status = 200;
  response_message = [];
  response_headers = [];
  response_headers_sent = false;
  response_chunked = false;
  undefined = false;
  derived = tt;
}

-- The same, behind a header that announced chunks.
abbrev chunking : Connection (Unit {0})
chunking = record connection { response_headers_sent = true; response_chunked = true }

connection-IsPlain : IsPlain connection
unfolding get text bytes_eq Map.lookup
connection-IsPlain = record { unsent = refl; unchunked = refl; no_encoding = refl }

pub slow-IsLive : IsLive slow
slow-IsLive = record { fd = 7; is_open = refl; working = (λ e. cc, (λ e. cc, tt)) }

finish_with-Delivers_example :
    Delivers
      (plain_head (text "{}") connection ++ text "{}")
      slow
      (finish_with (text "{}") connection).channel
finish_with-Delivers_example =
    finish_with-Delivers (text "{}") connection connection-IsPlain slow-IsLive

send_data_short_example :
    Delivers (chunked_wire (text "hello")) slow (finish (send_data (text "hello") chunking)).channel
    × (unchunk (suc (length (text "hello"))) (chunked_wire (text "hello") ++ text "GET")
        ≡ some (text "hello", text "GET"))
send_data_short_example =
    send_data_short (text "hello") (text "GET") chunking refl refl slow-IsLive
      (unfold text in omega arith)

-- A body that does not fit into one chunk.
zeros : ℕ → Bytes
zeros zero = []
zeros (suc n) = 0 ∷ zeros n

length-zeros : (n : ℕ) → length (zeros n) ≡ n
unfolding zeros
length-zeros zero = refl
length-zeros (suc n) = omega (arith, length-zeros n)

get_elem?-zeros : (n m : ℕ) → n < m → get_elem? (zeros m) n ≡ some 0
unfolding zeros
get_elem?-zeros n zero h = absurd (omega arith)
get_elem?-zeros zero (suc m) h = refl
get_elem?-zeros (suc n) (suc m) h = get_elem?-zeros n m (omega arith)

zeros_differ : (n : ℕ) → get_elem? (1 ∷ zeros (suc n)) (suc n) ≢ get_elem? (1 ∷ zeros (suc n)) 0
zeros_differ n e =
    let last : get_elem? (zeros (suc n)) n ≡ some 0 = get_elem?-zeros n (suc n) (omega arith) in
    ground (arith, last, e)

send_data_long_example :
    Delivers
      (chunked_wire (1 ∷ zeros 65535))
      slow
      (finish (send_data (1 ∷ zeros 65535) chunking)).channel
    × (unchunk (suc (length (1 ∷ zeros 65535))) (chunked_wire (1 ∷ zeros 65535) ++ [])
        ≢ some (1 ∷ zeros 65535, []))
send_data_long_example =
    send_data_long (1 ∷ zeros 65535) [] chunking refl refl slow-IsLive
      (omega (arith, length-zeros 65535)) (zeros_differ 65534)

message_for_test : message_for 404 [] ≡ text "Not Found"
unfolding message_for find_message http_status_map
message_for_test = refl
