-- ===== src/Http/Response.antt =====
-- The response: status, header, body whole or in chunks, and the reset behind it.
pub mod Reading
pub mod Framing
pub mod Wire
pub mod Chunks
pub mod Streaming
pub mod Sockets
use docker_plugin_cpp.Base.{
  ℕ, zero, suc, ◌-◌, min, ◌++◌, List, [], ◌∷◌, none, Bytes, text, bytes_eq, Bool, true, false, ◌&&◌,
  not, ◌==◌, length, take, if◌then◌else◌,
}
use docker_plugin_cpp.Base.Digits.{to_string, to_hex}
use docker_plugin_cpp.Http.Headers.{HeaderSet, set, get, has}
use docker_plugin_cpp.Http.Status.{message_for}
use docker_plugin_cpp.Http.Connection.{Connection, transmit}

-- The lines of the header, in the order of the multimap.
unfoldable pub header_lines : HeaderSet → Bytes
header_lines [] = []
header_lines ((key, value) ∷ hs) = key ++ text ": " ++ value ++ text "\r\n" ++ header_lines hs

unfoldable pub response_head : ℕ → Bytes → HeaderSet → Bytes
response_head status message hs =
    text "HTTP/1.1 "
    ++ to_string status
    ++ text " "
    ++ message
    ++ text "\r\n"
    ++ header_lines hs
    ++ text "\r\n"

abbrev pub uint16_max : ℕ
uint16_max = 65535

module _ {D : Type 0} where
  unfoldable pub response_status : ℕ → Bytes → Connection D → Connection D
  response_status status msg h = record h {
    response_status = status;
    response_message = message_for status msg;
  }

  -- response_headers().set
  unfoldable pub set_response_header : Bytes → Bytes → Connection D → Connection D
  set_response_header key value h = record h {
    response_headers = set key value true h.response_headers;
  }

  -- send_headers, where the header was not sent before
  unfoldable pub send_new_headers : Connection D → Connection D
  send_new_headers h =
      record (transmit (response_head h.response_status h.response_message h.response_headers) h) {
        response_headers_sent = true;
        response_chunked =
            if bytes_eq (get (text "transfer-encoding") h.response_headers) (text "chunked")
            then true
            else h.response_chunked;
        response_message = [];
        response_headers = [];
      }

  unfoldable pub send_headers : Connection D → Connection D
  send_headers h = if h.response_headers_sent then h else send_new_headers h

  -- The first part of send_data.
  unfoldable pub choose_framing : Connection D → Connection D
  choose_framing h =
      if not (has (text "content-length") h.response_headers)
        && not (has (text "transfer-encoding") h.response_headers)
      then set_response_header (text "transfer-encoding") (text "chunked") h
      else h

  unfoldable pub send_chunk : ℕ → Bytes → Connection D → Connection D
  send_chunk small_len bytes h =
      transmit (text "\r\n")
        (transmit (take small_len bytes) (transmit (to_hex small_len ++ text "\r\n") h))

  -- The loop of send_data. `bytes` is the caller's pointer, which the loop does not advance.
  unfoldable pub send_chunks : ℕ → Bytes → ℕ → Connection D → Connection D
  send_chunks zero bytes len h = h
  send_chunks (suc fuel) bytes len h =
      let small_len = min len uint16_max in
      let rest = send_chunks fuel bytes (len - small_len) (send_chunk small_len bytes h) in
      if len == 0 then h else rest

  -- Each round sends a byte at least, so one more round than bytes is enough.
  unfoldable pub send_body : Bytes → Connection D → Connection D
  send_body bytes h =
      if h.response_chunked
      then send_chunks (suc (length bytes)) bytes (length bytes) h
      else transmit bytes h

  unfoldable pub send_data : Bytes → Connection D → Connection D
  send_data bytes h =
      send_body bytes (if h.response_headers_sent then h else send_headers (choose_framing h))

  -- The first part of end().
  unfoldable pub end_headers : Connection D → Connection D
  end_headers h =
      if h.response_headers_sent
      then h
      else send_headers (
          if not (has (text "content-length") h.response_headers)
          then set_response_header (text "content-length") (text "0") h
          else h)

  -- The last part of end().
  unfoldable pub reset : Connection D → Connection D
  reset h = record h {
    buffer = [];
    buffer_body = false;
    buffer_headers = false;
    headers = [];
    current_header = none;
    response_status = 200;
    response_message = [];
    response_headers = [];
    response_headers_sent = false;
    response_chunked = false;
  }

  unfoldable pub finish : Connection D → Connection D
  finish h =
      let h' = end_headers h in
      reset (if h'.response_chunked then transmit (text "0\r\n\r\n") h' else h')

  -- end(data, len)
  unfoldable pub finish_with : Bytes → Connection D → Connection D
  finish_with bytes h = finish (
      send_data bytes (
        if h.response_headers_sent
        then h
        else set_response_header (text "content-length") (to_string (length bytes)) h))
