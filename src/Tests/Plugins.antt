-- ===== src/Tests/Plugins.antt =====
-- A plugin with its server in a small concrete world.
use docker_plugin_cpp.Base.{
  ◌≢◌, ◌++◌, ℕ, suc, ◌≡◌, refl, ◌+◌, List, [], ◌∷◌, some, Bytes, text, true, false, arith,
}
use docker_plugin_cpp.Http.Callbacks.{Llhttp, run_callbacks}
use docker_plugin_cpp.Server.{
  Server, BindError, bytes, ready, is_set, run, bind_path, bind_and_listen,
}
use docker_plugin_cpp.Server.Accounts.{Moves, held_fd}
use docker_plugin_cpp.Server.Lifecycle.{destroy_server}
use docker_plugin_cpp.Server.Runs.{start, next}
use docker_plugin_cpp.Plugin.Handlers.{PluginConnection, methods}
use docker_plugin_cpp.Plugin.Replies.{Answers}
use docker_plugin_cpp.Plugin.Pipelines.{Request, session_events, session_replies, session-Answers}
use docker_plugin_cpp.Plugin.Startup.{constructed, construct, socket_path}
use docker_plugin_cpp.Plugin.Serving.{Kernel, World, Peer, environment}
use docker_plugin_cpp.Plugin.Serving.Descriptors.{KernelCounts}
use docker_plugin_cpp.Plugin.Serving.Lifecycle.{
  KernelBindCounts, Serves, gained_of, lost_of, lifecycle,
}
use docker_plugin_cpp.Plugin.Client.{read_answers, session_results, session-read_answers}
use docker_plugin_cpp.Plugin.Serving.Clients.{
  Turn, waits, reads, Turns, AllDone, drivers_behind, run-AllDone,
}
use docker_plugin_cpp.Tests.Values.{json}
use docker_plugin_cpp.Tests.Wire.{slow, slow-IsLive}
use docker_plugin_cpp.Tests.Requests.{
  plugin, time, connection, connection-IsIdle, urls, bodies, fields,
}

-- How often the descriptor 7 was gained and lost. A client connects on it, and sends one byte whenever it is asked.
abbrev kernel : Kernel (ℕ × ℕ)
kernel = record {
  select = λ n fds t k. (ready fds, k);
  accept4 = λ s k. (some 7, (suc k.0, k.1));
  recv = λ fd n k. (bytes (b'x' ∷ []), k);
  send_answers = λ fd k. some 1 ∷ [];
  close_fd = λ fd k. (k.0, k.1 + held_fd 7 (some fd));
  socket = λ k. (some 3, k);
  unlink = λ path k. k;
  bind = λ fd path k. (true, k);
  listen = λ fd n k. (true, k);
  errno = λ k. 0;
  has_logger = false;
  log = λ level message k. k;
}

abbrev gained : ℕ × ℕ → ℕ
gained k = k.0

abbrev lost : ℕ × ℕ → ℕ
lost k = k.1

kernel-KernelCounts : KernelCounts kernel 7 gained lost
kernel-KernelCounts = record {
  select_keeps = λ n fds t k. omega arith;
  accept_adds = λ s k. omega arith;
  recv_keeps = λ fd n k. omega arith;
  close_fd_drops = λ fd k. omega arith;
  log_keeps = λ level message k. omega arith;
}

kernel-KernelBindCounts : KernelBindCounts kernel 7 gained lost
kernel-KernelBindCounts = record {
  socket_adds = λ k. omega arith;
  unlink_keeps = λ path k. omega arith;
  bind_keeps = λ fd path k. omega arith;
  listen_keeps = λ fd n k. omega arith;
}

-- Two requests to make a volume, the second one in one piece.
abbrev requests : List Request
requests =
    record { urls = urls; fields = fields; bodies = bodies }
    ∷ record { urls = text "/VolumeDriver.Create" ∷ []; fields = []; bodies = text "v2" ∷ [] }
    ∷ []

session-Answers_example :
    let (wire, s) = session_replies json time plugin requests 0 in
    let (finished, h) =
      run_callbacks (methods json time plugin) (session_events requests) connection in
    (finished ≡ true) × Answers wire s connection h
session-Answers_example =
    session-Answers json time plugin requests connection connection-IsIdle slow-IsLive

-- A parser that finds the two requests in whatever it is given.
abbrev pub parser : Llhttp
parser = record {
  State = Unit {0};
  init = tt;
  execute = λ state str. (session_events requests, true, tt);
}

abbrev first : World (ℕ × ℕ) ℕ
first = record { kernel = (0, 0); drivers = 0 }

seven_is_set : is_set 7 (7 ∷ []) ≡ true
unfolding is_set
seven_is_set = refl

abbrev server : Server (Peer kernel json time parser plugin)
server = record { socket = 3; connections = [] }

abbrev bound : World (ℕ × ℕ) ℕ
bound = record { kernel = (0, 0); drivers = 0 }

abbrev message : BindError → Bytes
message e = []

server_constructed :
    construct (environment kernel json time parser plugin) message (text "d") first
    ≡ (constructed server, bound)
unfolding construct environment bind_path bind_and_listen socket_path text
server_constructed = refl

-- Two runs.
abbrev later : Server (Peer kernel json time parser plugin) × World (ℕ × ℕ) ℕ
later =
    let env = environment kernel json time parser plugin in
    let (_, s, w) = run env 1000 server bound in let (_, s', w') = run env 1000 s w in (s', w')

lifecycle_example :
    let env = environment kernel json time parser plugin in
    let gained_in = gained_of kernel json time parser plugin 7 gained lost in
    let lost_in = lost_of kernel json time parser plugin 7 gained lost in
    Serves env 7 gained_in lost_in first later.0 later.1
    × Moves env 7 gained_in lost_in 0 first 0 (destroy_server env later.0 later.1)
lifecycle_example =
    lifecycle kernel json time parser plugin 7 gained lost kernel-KernelCounts
      kernel-KernelBindCounts message (text "d") first bound later.1 server later.0
      server_constructed (next 1000 (next 1000 start))

session-read_answers_example :
    let (finished, h') =
      run_callbacks (methods json time plugin) (session_events requests) connection in
    (wire : Bytes) × (h'.channel.sent ≡ [] ++ wire)
    × (read_answers 2 wire ≡ some (session_results json time plugin requests 0, []))
session-read_answers_example =
    session-read_answers json time plugin requests connection connection-IsIdle slow-IsLive

-- A second client, on descriptor 8, sends nothing.
abbrev silent : PluginConnection ℕ
silent = record connection { channel = record slow { socket = some 8 } }

abbrev quiet_kernel : Kernel (ℕ × ℕ)
quiet_kernel = record kernel { select = λ n fds t k. (ready (7 ∷ []), k) }

abbrev turns : List (Turn quiet_kernel json time parser plugin)
turns = waits (tt, silent) ∷ reads 7 tt tt connection requests b'x' [] ∷ []

not_set : (fd : ℕ) → fd ≢ 7 → is_set fd (7 ∷ []) ≡ false
unfolding is_set
not_set fd h = ground arith

turns_found : Turns quiet_kernel json time parser plugin (7 ∷ []) turns first
turns_found = (
  not_set 8 (λ e. omega arith),
  (
    record {
      idle = connection-IsIdle;
      open_socket = refl;
      working = slow-IsLive.working;
      there = seven_is_set;
      given = refl;
      parsed = refl;
    },
    tt,
  ),
)

run-AllDone_example :
    (cs : List (Peer quiet_kernel json time parser plugin)) × (w : World (ℕ × ℕ) ℕ) × (run
        (environment quiet_kernel json time parser plugin)
        1000
        (record { socket = 3; connections = (tt, silent) ∷ (tt, connection) ∷ [] })
        first
      ≡ (0, record { socket = 3; connections = cs }, w))
    × AllDone quiet_kernel json time parser plugin turns cs first
    × (w.drivers ≡ drivers_behind quiet_kernel json time parser plugin turns 0)
unfolding environment
run-AllDone_example =
    run-AllDone quiet_kernel json time parser plugin 1000 7 [] 3 turns first first refl
      (not_set 3 (λ e. omega arith)) turns_found
