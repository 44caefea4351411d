-- ===== src/Http/Response/Sockets.antt =====
-- The socket over the parts of a response.
use docker_plugin_cpp.Base.{
  ℕ, zero, suc, min, ◌≡◌, refl, ◌∙◌, Bytes, Bool, true, false, take, ◌==◌, if◌then◌else◌,
}
use docker_plugin_cpp.Channel.Writing.{write-socket}
use docker_plugin_cpp.Http.Connection.{Connection, transmit}
use docker_plugin_cpp.Http.Response.{
  send_new_headers, send_headers, choose_framing, send_chunk, send_chunks, send_body, send_data,
  end_headers, reset, finish, finish_with, set_response_header, uint16_max, response_head,
}

-- The second connection has the socket of the first.
pub record SameSocket {D : Type 0} (h h' : Connection D) : Type 0 where
  pub same : h'.channel.socket ≡ h.channel.socket

module _ {D : Type 0} where
  pub SameSocket-refl : (h : Connection D) → SameSocket h h
  SameSocket-refl h = record { same = refl }

  pub SameSocket-trans : {h i j : Connection D} → SameSocket h i → SameSocket i j → SameSocket h j
  SameSocket-trans s t = record { same = t.same ∙ s.same }

  pub SameSocket-branch :
      {h x y : Connection D} (b : Bool)
      → SameSocket h x
      → SameSocket h y
      → SameSocket h (if b then x else y)
  SameSocket-branch true s t = s
  SameSocket-branch false s t = t

  pub transmit-SameSocket : (bytes : Bytes) (h : Connection D) → SameSocket h (transmit bytes h)
  unfolding transmit
  transmit-SameSocket bytes h = record { same = write-socket bytes h.channel }

  set_response_header-SameSocket :
      (key value : Bytes) (h : Connection D) → SameSocket h (set_response_header key value h)
  unfolding set_response_header
  set_response_header-SameSocket key value h = record { same = refl }

  send_new_headers-SameSocket : (h : Connection D) → SameSocket h (send_new_headers h)
  unfolding send_new_headers
  send_new_headers-SameSocket h = record {
    same =
        (transmit-SameSocket (response_head h.response_status h.response_message h.response_headers)
          h).same;
  }

  ruleset socket_rules = (
    SameSocket-refl, SameSocket-branch, transmit-SameSocket, set_response_header-SameSocket,
    send_new_headers-SameSocket,
  )

  send_headers-SameSocket : (h : Connection D) → SameSocket h (send_headers h)
  unfolding send_headers
  send_headers-SameSocket h = search socket_rules

  choose_framing-SameSocket : (h : Connection D) → SameSocket h (choose_framing h)
  unfolding choose_framing
  choose_framing-SameSocket h = search socket_rules

  send_chunk-SameSocket :
      (n : ℕ) (bytes : Bytes) (h : Connection D) → SameSocket h (send_chunk n bytes h)
  unfolding send_chunk
  send_chunk-SameSocket n bytes h =
      SameSocket-trans (transmit-SameSocket _ h)
        (SameSocket-trans (transmit-SameSocket (take n bytes) _) (transmit-SameSocket _ _))

  send_chunks-SameSocket :
      (fuel : ℕ) (bytes : Bytes) (len : ℕ) (h : Connection D)
      → SameSocket h (send_chunks fuel bytes len h)
  unfolding send_chunks
  send_chunks-SameSocket zero bytes len h = SameSocket-refl h
  send_chunks-SameSocket (suc fuel) bytes len h = SameSocket-branch (len == 0) (SameSocket-refl h) (
      SameSocket-trans (send_chunk-SameSocket (min len uint16_max) bytes h)
        (send_chunks-SameSocket fuel bytes _ _))

  send_body-SameSocket : (bytes : Bytes) (h : Connection D) → SameSocket h (send_body bytes h)
  unfolding send_body
  send_body-SameSocket bytes h = search (socket_rules, send_chunks-SameSocket)

  send_data-SameSocket : (bytes : Bytes) (h : Connection D) → SameSocket h (send_data bytes h)
  unfolding send_data
  send_data-SameSocket bytes h =
      SameSocket-trans
        (SameSocket-branch h.response_headers_sent (SameSocket-refl h)
          (SameSocket-trans (choose_framing-SameSocket h) (send_headers-SameSocket _)))
        (send_body-SameSocket bytes _)

  end_headers-SameSocket : (h : Connection D) → SameSocket h (end_headers h)
  unfolding end_headers
  end_headers-SameSocket h =
      SameSocket-branch h.response_headers_sent (SameSocket-refl h)
        (SameSocket-trans (search socket_rules) (send_headers-SameSocket _))

  reset-SameSocket : (h : Connection D) → SameSocket h (reset h)
  unfolding reset
  reset-SameSocket h = record { same = refl }

  finish-SameSocket : (h : Connection D) → SameSocket h (finish h)
  unfolding finish
  finish-SameSocket h =
      SameSocket-trans (end_headers-SameSocket h)
        (SameSocket-trans (search socket_rules) (reset-SameSocket _))

  pub finish_with-SameSocket :
      (bytes : Bytes) (h : Connection D) → SameSocket h (finish_with bytes h)
  unfolding finish_with
  finish_with-SameSocket bytes h =
      SameSocket-trans (search socket_rules)
        (SameSocket-trans (send_data-SameSocket bytes _) (finish-SameSocket _))
