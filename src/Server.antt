-- ===== src/Server.antt =====
-- uds_server.cpp: a listening socket and its connections. What is not in the repository, the
-- kernel's calls, the logger and the subclass of uds_connection, is the argument `Environment`.
pub mod Accounts
pub mod Descriptors
pub mod Polling
pub mod Lifecycle
pub mod Runs
pub mod Quiet
use docker_plugin_cpp.Base.{
  ℕ, ◌+◌, ◌*◌, ◌/◌, ◌%◌, ◌++◌, List, [], ◌∷◌, Option, none, some, Bytes, text, Bool, true, false,
  not, ltb, ◌==◌, length, max, ◌||◌, is_empty, if◌then◌else◌,
}
use docker_plugin_cpp.Base.Digits.{to_string}
use docker_plugin_cpp.Logger.{Level, debug}

-- recv: the bytes, none of them at the end of the stream, or -1 and whether errno is EAGAIN,
-- EWOULDBLOCK or EINTR.
pub data Received : Type 0 where
  bytes : Bytes → Received
  failed : Bool → Received

-- select: -1 with errno, or the descriptors that are ready.
pub data Selected : Type 0 where
  interrupted : ℕ → Selected
  ready : List ℕ → Selected

pub record Timeval : Type 0 where
  pub tv_sec : ℕ
  pub tv_usec : ℕ

-- The connections are of a type `C`; `W` is all that is outside of them.
pub record Environment (C : Type 0) (W : Type 0) : Type 0 where
  -- the kernel; a result `none` is -1
  pub select : ℕ → List ℕ → Timeval → W → Selected × W
  pub accept4 : ℕ → W → Option ℕ × W
  pub recv : ℕ → ℕ → W → Received × W
  pub close_fd : ℕ → W → W
  pub socket : W → Option ℕ × W
  pub unlink : Bytes → W → W
  pub bind : ℕ → Bytes → W → Bool × W
  pub listen : ℕ → ℕ → W → Bool × W
  pub errno : W → ℕ
  -- m_logger->log, which does nothing where there is no logger
  pub log : Level → Bytes → W → W
  -- get_fd of a connection; `none` is -1
  pub get_fd : C → Option ℕ
  pub close : C × W → C × W
  pub on_read : Bytes → C × W → C × W
  pub destroy : C × W → W
  pub create_connection : ℕ → W → Option C × W
  pub on_connect : C × W → C × W
  pub on_disconnect : C × W → C × W

-- m_socket, once bind has set it, and m_connections
pub record Server (C : Type 0) : Type 0 where
  pub socket : ℕ
  pub connections : List C

unfoldable pub to_timeval : ℕ → Timeval
to_timeval timeout_ms = record { tv_sec = timeout_ms / 1000; tv_usec = (timeout_ms % 1000) * 1000 }

-- FD_ISSET
unfoldable pub is_set : ℕ → List ℕ → Bool
is_set fd [] = false
is_set fd (x ∷ set) = fd == x || is_set fd set

abbrev pub sun_path_size : ℕ
sun_path_size = 108

-- The error code that bind leaves: none, EINVAL by its own test, or errno.
pub data BindError : Type 0 where
  invalid_argument : BindError
  system : ℕ → BindError

module _ {C W : Type 0} (env : Environment C W) where
  open env use {
    select, accept4, recv, close_fd, unlink, bind, listen, errno, log, get_fd, close, on_read,
    destroy, create_connection, on_connect, on_disconnect,
  }

  -- bind and then, if it succeeds, listen
  unfoldable pub bind_and_listen : ℕ → Bytes → W → Bool × W
  bind_and_listen s path w =
      let (bound, w') = bind s path w in if bound then listen s 5 w' else (false, w')

  bind_socket : Bytes → Option ℕ × W → (Option BindError × Option ℕ) × W
  unfolding bind_and_listen
  bind_socket path (none, w) = ((some (system (errno w)), none), w)
  bind_socket path (some s, w) =
      let (listening, w') = bind_and_listen s path (unlink path w) in
      if listening then ((none, some s), w') else ((some (system (errno w')), none), close_fd s w')

  -- bind: the error code, and the socket if m_socket is set
  unfoldable pub bind_path : Bytes → W → (Option BindError × Option ℕ) × W
  unfolding bind_socket
  bind_path path w =
      if ltb sun_path_size (length path)
      then ((some invalid_argument, none), w)
      else bind_socket path (env.socket w)

  -- get_fd of each connection, as FD_SET is called with it; -1 is in no set
  unfoldable pub fds_of : List C → List ℕ
  fds_of [] = []
  fds_of (c ∷ cs) = elim (get_fd c) [ none ↦ fds_of cs | some fd ↦ fd ∷ fds_of cs ]

  unfoldable pub max_of : ℕ → List ℕ → ℕ
  max_of m [] = m
  max_of m (fd ∷ fds) = max_of (max m fd) fds

  abbrev pub is_closed : Option ℕ → Bool
  is_closed none = true
  is_closed (some _) = false

  -- The buffer of handle_io.
  abbrev pub buffer_size : ℕ
  buffer_size = 32768

  pub in_message : ℕ → ℕ → Bytes
  unfolding text to_string
  in_message fd len = text "[" ++ to_string fd ++ text "] in " ++ to_string len ++ text " bytes"

  -- handle_io behind recv: whether the connection is to go, and the connection
  unfoldable pub handle_received : ℕ → Received → C × W → Bool × C × W
  unfolding in_message
  handle_received fd (bytes []) (c, w) = (true, c, w)
  handle_received fd (bytes (b ∷ bs)) (c, w) =
      let (c', w') = on_read (b ∷ bs) (c, log debug (in_message fd (length (b ∷ bs))) w) in
      (is_closed (get_fd c'), c', w')
  handle_received fd (failed again) (c, w) =
      if again then (false, c, w) else (let (c', w') = close (c, w) in (true, c', w'))

  unfoldable pub handle_fd : Option ℕ → C × W → Bool × C × W
  unfolding handle_received
  handle_fd none (c, w) = let (c', w') = close (c, w) in (true, c', w')
  handle_fd (some fd) (c, w) =
      let (received, w') = recv fd buffer_size w in handle_received fd received (c, w')

  unfoldable pub handle_io : C × W → Bool × C × W
  unfolding handle_fd
  handle_io (c, w) = handle_fd (get_fd c) (c, w)

  new_message : ℕ → Bytes
  unfolding text to_string
  new_message fd = text "New socket " ++ to_string fd

  closed_message : ℕ → Bytes
  unfolding text to_string
  closed_message fd = text "Closed socket " ++ to_string fd

  -- The branches behind handle_io: a connection that is to go is destroyed, another is kept.
  unfoldable pub keep_or_destroy : ℕ → Bool × C × W → Option C × W
  unfolding closed_message
  keep_or_destroy fd (true, c, w) =
      (none, destroy (on_disconnect (c, log debug (closed_message fd) w)))
  keep_or_destroy fd (false, c, w) = (some c, w)

  unfoldable pub welcome : ℕ → Option C × W → Option C × W
  unfolding new_message handle_io keep_or_destroy
  welcome fd (none, w) = (none, close_fd fd w)
  welcome fd (some c, w) =
      let (c', w') = on_connect (c, w) in
      keep_or_destroy fd (handle_io (c', log debug (new_message fd) w'))

  accepted : Option ℕ × W → Option C × W
  unfolding welcome
  accepted (none, w) = (none, w)
  accepted (some fd, w) = welcome fd (create_connection fd w)

  -- The part of run for a listening socket that is ready.
  unfoldable pub accept_connection : ℕ → W → Option C × W
  unfolding accepted
  accept_connection s w = accepted (accept4 s w)

  abbrev pub append_kept : List C → Option C → List C
  append_kept cs none = cs
  append_kept cs (some c) = cs ++ c ∷ []

  abbrev pub cons_kept : Option C → List C → List C
  cons_kept none cs = cs
  cons_kept (some c) cs = c ∷ cs

  unfoldable pub serve_fd : List ℕ → Option ℕ → C × W → Option C × W
  unfolding is_set handle_io keep_or_destroy
  serve_fd set none (c, w) = (some c, w)
  serve_fd set (some fd) (c, w) =
      if is_set fd set then keep_or_destroy fd (handle_io (c, w)) else (some c, w)

  -- One round of the loop over m_connections.
  unfoldable pub serve : List ℕ → C × W → Option C × W
  unfolding serve_fd
  serve set (c, w) = serve_fd set (get_fd c) (c, w)

  unfoldable pub serve_all : List ℕ → List C → W → List C × W
  unfolding serve
  serve_all set [] w = ([], w)
  serve_all set (c ∷ cs) w =
      let (kept, w') = serve set (c, w) in
      let (cs', w'') = serve_all set cs w' in (cons_kept kept cs', w'')

  unfoldable pub run_ready : List ℕ → Server C → W → Server C × W
  unfolding is_set accept_connection serve_all
  run_ready set server w =
      let (kept, w') =
        (if is_set server.socket set then accept_connection server.socket w else (none, w)) in
      let (cs, w'') = serve_all set (append_kept server.connections kept) w' in
      (record server { connections = cs }, w'')

  unfoldable pub run_selected : Selected × W → Server C → ℕ × Server C × W
  unfolding run_ready
  run_selected (interrupted e, w) server = (e, server, w)
  run_selected (ready set, w) server =
      if is_empty set
      then (0, server, w)
      else (let (server', w') = run_ready set server w in (0, server', w'))

  unfoldable pub run : ℕ → Server C → W → ℕ × Server C × W
  unfolding to_timeval fds_of max_of run_selected
  run timeout_ms server w =
      let fds = server.socket ∷ fds_of server.connections in
      run_selected (select (max_of server.socket fds + 1) fds (to_timeval timeout_ms) w) server
