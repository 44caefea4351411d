-- ===== src/Http/Response/Wire.antt =====
-- What a response with a known length puts on the wire, and the state behind it.
use docker_plugin_cpp.Base.{
  ℕ, ◌≡◌, refl, sym, ap, ◌∙◌, ◌++◌, [], some, Bytes, text, bytes_eq, true, false, arith, length,
  compare_by, if_false,
}
use mathlib.Core.Path.{subst}
use docker_plugin_cpp.Base.Digits.{to_string}
use docker_plugin_cpp.Map
use docker_plugin_cpp.Map.{equivalent}
use docker_plugin_cpp.Channel.{Channel, write}
use docker_plugin_cpp.Channel.Writing.{NoFailure, Delivers, write-Delivers, Delivers-trans}
use docker_plugin_cpp.Http.Headers.{to_lower, header_rank, set, get, has}
use docker_plugin_cpp.Http.Headers.Laws.{get-set, has-set_self}
use docker_plugin_cpp.Http.Connection.{Connection, transmit}
use docker_plugin_cpp.Http.Response.{
  response_head, set_response_header, send_new_headers, send_headers, choose_framing, send_body,
  send_data, end_headers, reset, finish, finish_with,
}

-- An open socket on which no call of send fails.
pub record IsLive (c : Channel) : Type 0 where
  pub fd : ℕ
  pub is_open : c.socket ≡ some fd
  pub working : NoFailure c

pub Delivers-IsLive : {bytes : Bytes} {c c' : Channel} → IsLive c → Delivers bytes c c' → IsLive c'
Delivers-IsLive live d = record {
  fd = live.fd;
  is_open = d.socket ∙ live.is_open;
  working = d.working;
}

-- No part of a response is under way, and its header does not ask for chunks.
pub record IsPlain {D : Type 0} (h : Connection D) : Type 0 where
  pub unsent : h.response_headers_sent ≡ false
  pub unchunked : h.response_chunked ≡ false
  pub no_encoding :
      bytes_eq (get (text "transfer-encoding") h.response_headers) (text "chunked") ≡ false

-- Nothing of a response is under way and no header of one is set; so it is between requests.
pub record IsIdle {D : Type 0} (h : Connection D) : Type 0 where
  pub unsent : h.response_headers_sent ≡ false
  pub unchunked : h.response_chunked ≡ false
  pub no_headers : h.response_headers ≡ []

no_encoding_of_nil : bytes_eq (get (text "transfer-encoding") []) (text "chunked") ≡ false
unfolding get text bytes_eq Map.lookup
no_encoding_of_nil = refl

pub IsIdle-IsPlain : {D : Type 0} (h : Connection D) → IsIdle h → IsPlain h
IsIdle-IsPlain h i = record {
  unsent = i.unsent;
  unchunked = i.unchunked;
  no_encoding =
      ap (λ hs. bytes_eq (get (text "transfer-encoding") hs) (text "chunked")) i.no_headers
      ∙ no_encoding_of_nil;
}

length_key : equivalent header_rank (text "transfer-encoding") (text "content-length") ≡ false
unfolding text header_rank to_lower compare_by
length_key = refl

module _ {D : Type 0} where
  -- send_data behind a content-length: the header, then the bytes as they are.
  send_plain :
      (bytes : Bytes) (h : Connection D)
      → IsPlain h
      → has (text "content-length") h.response_headers ≡ true
      → send_data bytes h ≡ transmit bytes (send_new_headers h)
  unfolding send_data choose_framing send_headers send_body send_new_headers
  send_plain bytes h p length_is_set = ground arith

  -- end() behind a header that was sent and asked for no chunks.
  finish_sent :
      (h : Connection D)
      → h.response_headers_sent ≡ true
      → h.response_chunked ≡ false
      → finish h ≡ reset h
  unfolding finish end_headers
  finish_sent h sent unchunked = ground arith

  sent_new_headers :
      (bytes : Bytes) (h : Connection D)
      → IsPlain h
      → let h' = transmit bytes (send_new_headers h) in
        (h'.response_headers_sent ≡ true) × (h'.response_chunked ≡ false)
  unfolding send_new_headers transmit
  sent_new_headers bytes h p = ground arith

  -- Setting another header leaves the response plain.
  pub set_response_header-IsPlain :
      (key value : Bytes) (h : Connection D)
      → equivalent header_rank (text "transfer-encoding") key ≡ false
      → IsPlain h
      → IsPlain (set_response_header key value h)
  unfolding set_response_header
  set_response_header-IsPlain key value h e p = record {
    unsent = p.unsent;
    unchunked = p.unchunked;
    no_encoding =
        rw (get-set (text "transfer-encoding") key value h.response_headers, e) p.no_encoding;
  }

  length_is_set :
      (bytes : Bytes) (h : Connection D)
      → has
          (text "content-length")
          (set_response_header
            (text "content-length")
            (to_string (length bytes))
            h).response_headers
        ≡ true
  unfolding set_response_header
  length_is_set bytes h = has-set_self (text "content-length") _ h.response_headers

  -- end(data, len) on a plain response: the header with the length, the bytes, and a reset.
  pub finish_with_plain :
      (bytes : Bytes) (h : Connection D)
      → IsPlain h
      → finish_with bytes h
        ≡ reset (
            transmit bytes (
              send_new_headers
                (set_response_header (text "content-length") (to_string (length bytes)) h)))
  unfolding finish_with
  finish_with_plain bytes h p =
      let h' = set_response_header (text "content-length") (to_string (length bytes)) h in
      let p' =
        set_response_header-IsPlain (text "content-length") (to_string (length bytes)) h length_key
          p in
      let length_set = length_is_set bytes h in
      let (sent, unchunked) = sent_new_headers bytes h' p' in
      ap (λ x. finish (send_data bytes x)) (if_false _ _ p.unsent)
      ∙ ap finish (send_plain bytes h' p' length_set)
      ∙ finish_sent _ sent unchunked

  -- The header of a response of a known length.
  abbrev pub plain_head : Bytes → Connection D → Bytes
  plain_head bytes h =
      response_head h.response_status h.response_message
        (set (text "content-length") (to_string (length bytes)) true h.response_headers)

  -- On an open socket on which no call of send fails, end(data, len) puts the header and then all
  -- the bytes on the wire, and nothing else; the socket stays as it is.
  pub finish_with-Delivers :
      (bytes : Bytes) (h : Connection D)
      → IsPlain h
      → IsLive h.channel
      → Delivers (plain_head bytes h ++ bytes) h.channel (finish_with bytes h).channel
  finish_with-Delivers bytes h p live =
      subst (λ (k : Connection D). Delivers (plain_head bytes h ++ bytes) h.channel k.channel)
        (sym (finish_with_plain bytes h p)) written
    where
      head : Delivers (plain_head bytes h) h.channel (write (plain_head bytes h) h.channel).1
      head = write-Delivers _ h.channel live.fd live.is_open live.working

      written :
          Delivers
            (plain_head bytes h ++ bytes)
            h.channel
            (reset (
              transmit bytes (
                send_new_headers (
                  set_response_header
                    (text "content-length")
                    (to_string (length bytes))
                    h)))).channel
      written =
          unfold reset transmit send_new_headers set_response_header in
          Delivers-trans head
            (write-Delivers bytes _ live.fd (head.socket ∙ live.is_open) head.working)

  pub finish_with_keeps :
      (bytes : Bytes) (h : Connection D)
      → IsPlain h
      → let h' = finish_with bytes h in
        IsIdle h' × (h'.derived ≡ h.derived) × (h'.undefined ≡ h.undefined)
  unfolding reset transmit send_new_headers set_response_header
  finish_with_keeps bytes h p =
      let e = finish_with_plain bytes h p in
      (
        record {
          unsent = ap (λ (k : Connection D). k.response_headers_sent) e;
          unchunked = ap (λ (k : Connection D). k.response_chunked) e;
          no_headers = ap (λ (k : Connection D). k.response_headers) e;
        },
        ap (λ (k : Connection D). k.derived) e,
        ap (λ (k : Connection D). k.undefined) e,
      )
