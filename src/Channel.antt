-- ===== src/Channel.antt =====
-- uds_connection of uds_server.cpp: a stream socket that may be closed, and its write loop. The
-- kernel's answers to `send` come as a list; when it ends, the kernel takes all it is given.
pub mod Writing
use docker_plugin_cpp.Base.{
  ℕ, ◌≡◌, arith, ◌++◌, List, [], ◌∷◌, Option, none, some, Bytes, text, Bool, true, false, length,
  take, drop, if◌then◌else◌,
}
use docker_plugin_cpp.Base.Digits.{to_string}
use docker_plugin_cpp.Logger.{Level, debug}

pub record Channel : Type 0 where
  -- m_socket; `none` is -1, the only negative value that it takes
  pub socket : Option ℕ
  -- m_server->m_logger is not null
  pub logger : Bool
  -- what send will return: `none` is -1, `some n` the bytes taken
  pub answers : List (Option ℕ)
  -- the bytes that the kernel has taken
  pub sent : Bytes
  -- the descriptors that were given to ::close
  pub closed : List ℕ
  -- the messages that were given to the logger
  pub log : List (Level × Bytes)

abbrev pub size_max : ℕ
size_max = 18446744073709551615

abbrev pub log_if : Bool → Level → Bytes → Channel → Channel
log_if b l msg c = record c { log = if b then c.log ++ (l, msg) ∷ [] else c.log }

close_socket : Option ℕ → Channel → Channel
close_socket none c = record c { socket = none }
close_socket (some fd) c = record c { socket = none; closed = c.closed ++ fd ∷ [] }

unfoldable pub close : Channel → Channel
unfolding close_socket
close c = close_socket c.socket c

pub close-socket : (c : Channel) → (close c).socket ≡ none
unfolding close
close-socket c = ground arith

pub record Sending : Type 0 where
  pub answers : List (Option ℕ)
  pub sent : Bytes
  pub complete : Bool

-- The loop of `write`: the bytes that remain, and those sent before.
unfoldable pub send_all : List (Option ℕ) → Bytes → Bytes → Sending
send_all answers [] sent = record { answers = answers; sent = sent; complete = true }
send_all [] (b ∷ rest) sent = record { answers = []; sent = sent ++ b ∷ rest; complete = true }
send_all (none ∷ answers) (b ∷ rest) sent = record {
  answers = answers;
  sent = sent;
  complete = false;
}
send_all (some n ∷ answers) (b ∷ rest) sent =
    send_all answers (drop n (b ∷ rest)) (sent ++ take n (b ∷ rest))

out_message : ℕ → ℕ → Bytes
unfolding text to_string
out_message fd len = text "[" ++ to_string fd ++ text "] out " ++ to_string len ++ text " bytes"

write_open : ℕ → Bytes → Channel → ℕ × Channel
unfolding send_all out_message
write_open fd bytes c =
    let c' = log_if c.logger debug (out_message fd (length bytes)) c in
    let s = send_all c'.answers bytes c'.sent in
    (
      if s.complete then length bytes else size_max,
      record c' { answers = s.answers; sent = s.sent },
    )

write_socket : Option ℕ → Bytes → Channel → ℕ × Channel
unfolding write_open
write_socket none bytes c = (size_max, c)
write_socket (some fd) bytes c = write_open fd bytes c

unfoldable pub write : Bytes → Channel → ℕ × Channel
unfolding write_socket
write bytes c = write_socket c.socket bytes c
