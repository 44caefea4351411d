-- ===== src/Http/Response/Streaming.antt =====
-- What send_data and end() put on the wire where the response is chunked.
use docker_plugin_cpp.Base.{
  ℕ, zero, suc, ◌-◌, min, ◌<◌, ◌≤◌, ◌≡◌, ◌≢◌, inl, inr, sym, ap, ◌∙◌, ◌++◌, some, Bytes, text, true,
  arith, length, take, get_elem?, ◌==◌, Bool-cases,
}
use docker_plugin_cpp.Base.Digits.{to_hex}
use mathlib.Core.Path.{subst}
use docker_plugin_cpp.Channel.{write}
use docker_plugin_cpp.Channel.Writing.{Delivers, write-Delivers, Delivers-trans, Delivers-refl}
use docker_plugin_cpp.Http.Connection.{Connection, transmit}
use docker_plugin_cpp.Http.Response.{
  send_chunk, send_chunks, uint16_max, finish, end_headers, reset, send_data, send_body,
}
use docker_plugin_cpp.Http.Response.Wire.{IsLive, Delivers-IsLive}
use docker_plugin_cpp.Http.Response.Chunks.{
  chunk, stream, unchunk, carried_short, carried_long, chunked_wire, unchunk-chunked_wire,
  pair_of_some,
}

module _ {D : Type 0} where
  send_chunk-Delivers :
      (n : ℕ) (bytes : Bytes) (h : Connection D)
      → IsLive h.channel
      → Delivers (chunk n bytes) h.channel (send_chunk n bytes h).channel
  unfolding send_chunk transmit chunk
  send_chunk-Delivers n bytes h live =
      let size =
        write-Delivers (to_hex n ++ text "\r\n") h.channel live.fd live.is_open live.working in
      let part =
        write-Delivers (take n bytes) _ live.fd (size.socket ∙ live.is_open) size.working in
      Delivers-trans size (
        Delivers-trans part (
          write-Delivers (text "\r\n") _ live.fd (part.socket ∙ size.socket ∙ live.is_open)
            part.working))

  send_chunks-Delivers :
      (fuel : ℕ) (bytes : Bytes) (len : ℕ) (h : Connection D)
      → IsLive h.channel
      → Delivers (stream uint16_max fuel bytes len) h.channel (send_chunks fuel bytes len h).channel
  unfolding send_chunks stream
  send_chunks-Delivers zero bytes len h live = Delivers-refl h.channel live.working
  send_chunks-Delivers (suc fuel) bytes len h live = elim (Bool-cases (len == 0)) [
    | inl done ↦ rw (done) (Delivers-refl h.channel live.working)
    | inr more ↦
        let first = send_chunk-Delivers (min len uint16_max) bytes h live in
        rw more (
          Delivers-trans first (
            send_chunks-Delivers fuel bytes (len - min len uint16_max)
              (send_chunk (min len uint16_max) bytes h) (Delivers-IsLive live first)))
  ]

  finish_chunked_lem :
      (h : Connection D)
      → h.response_headers_sent ≡ true
      → h.response_chunked ≡ true
      → finish h ≡ reset (transmit (text "0\r\n\r\n") h)
  unfolding finish end_headers
  finish_chunked_lem h sent chunked = ground arith

  send_data_chunked_lem :
      (bytes : Bytes) (h : Connection D)
      → h.response_headers_sent ≡ true
      → h.response_chunked ≡ true
      → send_data bytes h ≡ send_chunks (suc (length bytes)) bytes (length bytes) h
  unfolding send_data send_body
  send_data_chunked_lem bytes h sent chunked = ground arith

  send_chunks_flags :
      (fuel : ℕ) (bytes : Bytes) (len : ℕ) (h : Connection D)
      → h.response_headers_sent ≡ true
      → h.response_chunked ≡ true
      → let h' = send_chunks fuel bytes len h in
        (h'.response_headers_sent ≡ true) × (h'.response_chunked ≡ true)
  unfolding send_chunks send_chunk transmit
  send_chunks_flags zero bytes len h sent chunked = (sent, chunked)
  send_chunks_flags (suc fuel) bytes len h sent chunked = elim (Bool-cases (len == 0)) [
    | inl done ↦ rw done (sent, chunked)
    | inr more ↦ rw more (send_chunks_flags fuel bytes _ _ sent chunked)
  ]

  finish-send_data-chunked :
      (bytes : Bytes) (h : Connection D)
      → h.response_headers_sent ≡ true
      → h.response_chunked ≡ true
      → finish (send_data bytes h)
        ≡ reset
            (transmit (text "0\r\n\r\n") (send_chunks (suc (length bytes)) bytes (length bytes) h))
  finish-send_data-chunked bytes h sent chunked =
      let (sent', chunked') =
        send_chunks_flags (suc (length bytes)) bytes (length bytes) h sent chunked in
      ap finish (send_data_chunked_lem bytes h sent chunked) ∙ finish_chunked_lem _ sent' chunked'

  finish-send_data-Delivers :
      (bytes : Bytes) (h : Connection D)
      → h.response_headers_sent ≡ true
      → h.response_chunked ≡ true
      → IsLive h.channel
      → Delivers (chunked_wire bytes) h.channel (finish (send_data bytes h)).channel
  unfolding chunked_wire
  finish-send_data-Delivers bytes h sent chunked live =
      subst (λ (k : Connection D). Delivers (chunked_wire bytes) h.channel k.channel)
        (sym (finish-send_data-chunked bytes h sent chunked)) (unfold reset transmit in written)
    where
      body :
          Delivers
            (stream uint16_max (suc (length bytes)) bytes (length bytes))
            h.channel
            (send_chunks (suc (length bytes)) bytes (length bytes) h).channel
      body = send_chunks-Delivers (suc (length bytes)) bytes (length bytes) h live

      written :
          Delivers
            (chunked_wire bytes)
            h.channel
            (write
              (text "0\r\n\r\n")
              (send_chunks (suc (length bytes)) bytes (length bytes) h).channel).1
      written =
          Delivers-trans body
            (write-Delivers (text "0\r\n\r\n") _ live.fd (body.socket ∙ live.is_open) body.working)

  -- Where the header is out and announced chunks, send_data and end() put a chunked body on the
  -- wire, and nothing else. If the bytes are at most 65535, a reader of the chunked coding gets
  -- them back, with what follows the body left.
  pub send_data_short :
      (bytes rest : Bytes) (h : Connection D)
      → h.response_headers_sent ≡ true
      → h.response_chunked ≡ true
      → IsLive h.channel
      → length bytes ≤ uint16_max
      → Delivers (chunked_wire bytes) h.channel (finish (send_data bytes h)).channel
        × (unchunk (suc (length bytes)) (chunked_wire bytes ++ rest) ≡ some (bytes, rest))
  send_data_short bytes rest h sent chunked live short = (
    finish-send_data-Delivers bytes h sent chunked live,
    unchunk-chunked_wire bytes rest
        ∙ ap (λ b. some (b, rest))
            (carried_short uint16_max (suc (length bytes)) bytes short (omega arith)),
  )

  -- If the bytes are more than 65535, and the byte at 65535 is not the first one again, what the
  -- reader gets is not what was sent: the second chunk begins with the first byte again.
  pub send_data_long :
      (bytes rest : Bytes) (h : Connection D)
      → h.response_headers_sent ≡ true
      → h.response_chunked ≡ true
      → IsLive h.channel
      → uint16_max < length bytes
      → get_elem? bytes uint16_max ≢ get_elem? bytes 0
      → Delivers (chunked_wire bytes) h.channel (finish (send_data bytes h)).channel
        × (unchunk (suc (length bytes)) (chunked_wire bytes ++ rest) ≢ some (bytes, rest))
  send_data_long bytes rest h sent chunked live long differs = (
    finish-send_data-Delivers bytes h sent chunked live,
    λ e. differs (
        ap (λ b. get_elem? b uint16_max) (pair_of_some (sym e ∙ unchunk-chunked_wire bytes rest))
        ∙ carried_long uint16_max (suc (length bytes)) bytes (omega arith) long (omega arith)),
  )
