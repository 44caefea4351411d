-- ===== src/Plugin/Serving.antt =====
-- The server of a plugin: http_server<plugin_http_connection, plugin*>, which makes the
-- connections, on the kernel's calls.
pub mod Descriptors
pub mod Lifecycle
pub mod Rounds
pub mod Clients
use docker_plugin_cpp.Base.{ℕ, [], Option, none, some, Bytes, false, Bool, List}
use docker_plugin_cpp.Json.{Picojson}
use docker_plugin_cpp.Logger.{Level}
use docker_plugin_cpp.Channel.{Channel}
use docker_plugin_cpp.Channel
use docker_plugin_cpp.Http.Connection.{Connection, connect}
use docker_plugin_cpp.Http.Callbacks.{Llhttp, on_read}
use docker_plugin_cpp.Server.{Environment, Received, Selected, Timeval}
use docker_plugin_cpp.Plugin.Methods.{Plugin}
use docker_plugin_cpp.Plugin.Handlers.{PluginState, PluginConnection, methods}

-- What the kernel and the program's logger do in a world `K`. What send will return on a
-- descriptor is settled when it is accepted.
pub record Kernel (K : Type 0) : Type 0 where
  pub select : ℕ → List ℕ → Timeval → K → Selected × K
  pub accept4 : ℕ → K → Option ℕ × K
  pub recv : ℕ → ℕ → K → Received × K
  pub send_answers : ℕ → K → List (Option ℕ)
  pub close_fd : ℕ → K → K
  pub socket : K → Option ℕ × K
  pub unlink : Bytes → K → K
  pub bind : ℕ → Bytes → K → Bool × K
  pub listen : ℕ → ℕ → K → Bool × K
  pub errno : K → ℕ
  -- m_logger is not null
  pub has_logger : Bool
  pub log : Level → Bytes → K → K

-- The kernel, and the drivers that all connections of a plugin share.
pub record World (K S : Type 0) : Type 0 where
  pub kernel : K
  pub drivers : S

module _ {K S : Type 0} (kernel : Kernel K) where
  -- A call of the kernel leaves the drivers alone.
  abbrev on_kernel : {A : Type 0} → (K → A × K) → World K S → A × World K S
  on_kernel f w = let (a, k) = f w.kernel in (a, record w { kernel = k })

  -- The kernel's part of uds_connection::close: the descriptor that the connection gave up.
  unfoldable pub give_up : Option ℕ → Option ℕ → World K S → World K S
  give_up (some fd) none w = record w { kernel = kernel.close_fd fd w.kernel }
  give_up (some fd) (some _) w = w
  give_up none after w = w

  module _ (json : Picojson) (convert_time : ℕ → Bytes) (llhttp : Llhttp) (plugin : Plugin S) where
    open llhttp use {State, init}

    -- m_parser, and the rest of a plugin_http_connection
    abbrev pub Peer : Type 0
    Peer = State × PluginConnection S

    abbrev pub fd_of : Peer → Option ℕ
    fd_of (parser, h) = h.channel.socket

    -- uds_connection::close
    unfoldable pub close_peer : Peer × World K S → Peer × World K S
    unfolding Channel.close give_up
    close_peer ((parser, h), w) =
        ((parser, record h { channel = Channel.close h.channel }), give_up h.channel.socket none w)

    -- ~uds_connection
    unfoldable pub destroy_peer : Peer × World K S → World K S
    unfolding give_up
    destroy_peer ((parser, h), w) = give_up h.channel.socket none w

    -- on_read of the connection, which calls the plugin's drivers as they are
    unfoldable pub read_peer : Bytes → Peer × World K S → Peer × World K S
    unfolding on_read methods give_up
    read_peer bytes ((parser, h), w) =
        let (parser', h') =
          on_read llhttp (methods json convert_time plugin) bytes
            (parser, record h { derived = record h.derived { drivers = w.drivers } }) in
        (
          (parser', h'),
          give_up h.channel.socket h'.channel.socket (record w { drivers = h'.derived.drivers }),
        )

    -- create_connection: the constructor of plugin_http_connection
    unfoldable pub create_peer : ℕ → World K S → Option Peer × World K S
    unfolding connect
    create_peer fd w = (
      some (
        init,
        connect
            (record {
              socket = some fd;
              logger = kernel.has_logger;
              answers = kernel.send_answers fd w.kernel;
              sent = [];
              closed = [];
              log = [];
            })
            (record { url = []; drivers = w.drivers }),
      ),
      w,
    )

    -- The server's calls; on_connect and on_disconnect of http_connection do nothing.
    unfoldable pub environment : Environment Peer (World K S)
    unfolding close_peer destroy_peer read_peer create_peer
    environment = record {
      select = λ n fds t. on_kernel (kernel.select n fds t);
      accept4 = λ s. on_kernel (kernel.accept4 s);
      recv = λ fd n. on_kernel (kernel.recv fd n);
      close_fd = λ fd w. record w { kernel = kernel.close_fd fd w.kernel };
      socket = on_kernel kernel.socket;
      unlink = λ path w. record w { kernel = kernel.unlink path w.kernel };
      bind = λ fd path. on_kernel (kernel.bind fd path);
      listen = λ fd n. on_kernel (kernel.listen fd n);
      errno = λ w. kernel.errno w.kernel;
      log = λ level message w. record w { kernel = kernel.log level message w.kernel };
      get_fd = fd_of;
      close = close_peer;
      on_read = read_peer;
      destroy = destroy_peer;
      create_connection = create_peer;
      on_connect = λ c. c;
      on_disconnect = λ c. c;
    }
