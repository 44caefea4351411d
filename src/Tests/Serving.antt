-- ===== src/Tests/Serving.antt =====
-- The server in a small concrete world.
use docker_plugin_cpp.Base.{
  ap, sym, Bytes, ℕ, suc, List, ◌*◌, ◌+◌, ◌<◌, ◌≡◌, refl, [], ◌∷◌, Option, none, some, true, All,
  arith,
}
use docker_plugin_cpp.Server.{
  bytes, ready, Environment, Server, Timeval, run_selected, run, to_timeval, fds_of, max_of,
  run_ready, serve_all, serve, accept_connection, welcome, handle_io, handle_fd, handle_received,
  keep_or_destroy, is_set,
}
use docker_plugin_cpp.Server.Accounts.{Counts, Inv, held_fd}
use docker_plugin_cpp.Server.Descriptors.{run-Inv}
use docker_plugin_cpp.Server.{BindError}
use docker_plugin_cpp.Server.Accounts.{Moves}
use docker_plugin_cpp.Server.Lifecycle.{destroy_server, destroy_server-Moves}
use docker_plugin_cpp.Server.Polling.{IsPolled, run-select}

-- How often the descriptor 7 was gained and lost.
abbrev World : Type 0
World = ℕ × ℕ

abbrev lose : Option ℕ → World → World
lose fd (gained, lost) = (gained, lost + held_fd 7 fd)

-- A connection is its descriptor. A client connects on descriptor 7, and sends one byte whenever
-- it is asked.
abbrev env : Environment (Option ℕ) World
env = record {
  select = λ n fds t w. (ready fds, w);
  accept4 = λ s w. (some 7, (suc w.0, w.1));
  recv = λ fd n w. (bytes (b'x' ∷ []), w);
  close_fd = λ fd w. lose (some fd) w;
  socket = λ w. (some 3, w);
  unlink = λ path w. w;
  bind = λ fd path w. (true, w);
  listen = λ fd n w. (true, w);
  errno = λ w. 0;
  log = λ level message w. w;
  get_fd = λ c. c;
  close = λ (c, w). (none, lose c w);
  on_read = λ bytes (c, w). (c, w);
  destroy = λ (c, w). lose c w;
  create_connection = λ fd w. (some (some fd), w);
  on_connect = λ (c, w). (c, w);
  on_disconnect = λ (c, w). (c, w);
}

abbrev gained : World → ℕ
gained w = w.0

abbrev lost : World → ℕ
lost w = w.1

env-Counts : Counts env 7 gained lost
env-Counts = record {
  select_keeps = λ n fds t w. omega arith;
  accept_adds = λ s w. omega arith;
  recv_keeps = λ fd n w. omega arith;
  close_fd_drops = λ fd w. omega arith;
  log_keeps = λ level message w. omega arith;
  close_drops = λ c w. (omega arith, refl);
  on_read_balances = λ bytes c w. omega arith;
  destroy_drops = λ c w. omega arith;
  create_takes =
      λ fd w. (omega arith, λ c e. ap (λ o. elim o [ none ↦ none | some c ↦ c ]) (sym e));
  on_connect_keeps = λ c w. (omega arith, refl);
  on_disconnect_keeps = λ c w. (omega arith, refl);
}

-- One connection is there, on descriptor 5.
abbrev server : Server (Option ℕ)
server = record { socket = 3; connections = some 5 ∷ [] }

server-Inv : Inv env 7 gained lost server (0, 0)
server-Inv = record { counted = refl; opened = (refl, tt) }

run-Inv_example :
    let (_, server', w) = run env 1500 server (0, 0) in Inv env 7 gained lost server' w
run-Inv_example = run-Inv env 7 gained lost env-Counts 1500 server (0, 0) server-Inv

-- The listening socket was ready, so that the new connection is there too.
run_test : (run env 1500 server (0, 0)).1.connections ≡ some 5 ∷ some 7 ∷ []
unfolding run run_ready serve_all serve accept_connection welcome handle_io handle_fd
    handle_received keep_or_destroy is_set to_timeval fds_of max_of
run_test = refl

run-select_example :
    (n : ℕ) × (set : List ℕ) × (t : Timeval) × (run env 1500 server (0, 0)
      ≡ run_selected env (env.select n set t (0, 0)) server)
    × (is_set 3 set ≡ true)
    × All (λ c. IsPolled env set (env.get_fd c)) (some 5 ∷ [])
    × All (λ fd. fd < n) set
    × (t.tv_sec * 1000000 + t.tv_usec ≡ 1500 * 1000)
    × (t.tv_usec < 1000000)
run-select_example = run-select env 1500 server (0, 0)

abbrev message : BindError → Bytes
message e = []

-- Behind a run in which descriptor 7 was accepted.
abbrev served : Server (Option ℕ)
served = record { socket = 3; connections = some 5 ∷ some 7 ∷ [] }

destroy_server_example : Moves env 7 gained lost 1 (1, 0) 0 (destroy_server env served (1, 0))
destroy_server_example = destroy_server-Moves env 7 gained lost env-Counts served (1, 0)
