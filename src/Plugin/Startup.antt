-- ===== src/Plugin/Startup.antt =====
-- The constructor and the destructor of class plugin, which bind and close its server. That the
-- constructor ignores SIGPIPE is left to the kernel.
use docker_plugin_cpp.Base.{ℕ, ◌≡◌, refl, ◌++◌, [], Option, none, some, Bytes, text, arith}
use docker_plugin_cpp.Logger.{error, debug}
use docker_plugin_cpp.Server.{Environment, Server, BindError, bind_path, run}
use docker_plugin_cpp.Server.Accounts.{Counts, Moves, held_fd}
use docker_plugin_cpp.Server.Lifecycle.{
  BindCounts, Bound, Listening, Reason, bind_path-Bound, destroy_server,
}
use docker_plugin_cpp.Volume
use docker_plugin_cpp.Network
use docker_plugin_cpp.Ipam
use docker_plugin_cpp.Plugin.Methods.{Plugin}

unfoldable pub socket_path : Bytes → Bytes
socket_path driver_name = text "/run/docker/plugins/" ++ driver_name ++ text ".sock"

-- A plugin's server, or the std::system_error that the constructor throws; the second part of
-- `thrown` is m_socket, where it is set.
pub data Constructed (C : Type 0) : Type 0 where
  constructed : Server C → Constructed C
  thrown : BindError → Option ℕ → Constructed C
  -- bind gives neither an error nor a socket
  unbound : Constructed C

module _ {S : Type 0} where
  -- The drivers that the constructor leaves, and the calls by which a program sets them.
  abbrev pub no_drivers : Plugin S
  no_drivers = record { volume_driver = none; network_driver = none; ipam_driver = none }

  abbrev pub register_volume : Volume.Driver S → Plugin S → Plugin S
  register_volume drv plugin = record plugin { volume_driver = some drv }

  abbrev pub register_network : Network.Driver S → Plugin S → Plugin S
  register_network drv plugin = record plugin { network_driver = some drv }

  abbrev pub register_ipam : Ipam.Driver S → Plugin S → Plugin S
  register_ipam drv plugin = record plugin { ipam_driver = some drv }

-- The time-out of plugin::run where none is given.
abbrev pub default_timeout : ℕ
default_timeout = 1000

module _ {C W : Type 0} (env : Environment C W) where
  -- plugin::run
  abbrev pub run_plugin : ℕ → Server C → W → ℕ × Server C × W
  run_plugin timeout server w = run env timeout server w

  -- ~plugin
  abbrev pub destroy_plugin : Server C → W → W
  destroy_plugin server w = destroy_server env server w

module _ {C W : Type 0} (env : Environment C W) (message : BindError → Bytes) where
  open env use {log}

  construct_bound : Bytes → (Option BindError × Option ℕ) × W → Constructed C × W
  unfolding socket_path
  construct_bound name ((none, some s), w) = (
    constructed (record { socket = s; connections = [] }),
    log debug (text "Bound plugin to uds socket " ++ socket_path name) w,
  )
  construct_bound name ((none, none), w) =
      (unbound, log debug (text "Bound plugin to uds socket " ++ socket_path name) w)
  construct_bound name ((some e, s), w) = (
    thrown e s,
    log error (text "Failed to bind to " ++ socket_path name ++ text ": " ++ message e) w,
  )

  -- plugin::plugin; `message` is std::error_code::message
  unfoldable pub construct : Bytes → W → Constructed C × W
  unfolding construct_bound
  construct driver_name w = construct_bound driver_name (bind_path env (socket_path driver_name) w)

module _ {C W : Type 0} (env : Environment C W) (message : BindError → Bytes) (d : ℕ)
    (gained lost : W → ℕ) where
  -- What the constructor leaves: a server that listens on the socket, or the error of bind.
  abbrev pub Started : Bytes → W → Constructed C × W → Type 0
  Started name w (constructed server, w') =
      (server.connections ≡ [])
      × Moves env d gained lost 0 w (held_fd d (some server.socket)) w'
      × ((v : W) × Listening env d gained lost (socket_path name) server.socket v)
  Started name w (thrown e none, w') =
      Moves env d gained lost 0 w 0 w' × Reason env d gained lost (socket_path name) e
  Started name w (thrown e (some s), w') = ⊥
  Started name w (unbound, w') = ⊥

  module _ (laws : Counts env d gained lost) (bind_laws : BindCounts env d gained lost) where
    construct_bound-Started :
        (name : Bytes) (w : W) (r : (Option BindError × Option ℕ) × W)
        → Bound env d gained lost (socket_path name) w r
        → Started name w (construct_bound env message name r)
    unfolding construct_bound
    construct_bound-Started name w ((none, some s), w') (h, listening) =
        (refl, omega (arith, h, laws.log_keeps), (w', listening))
    construct_bound-Started name w ((none, none), w') h = h
    construct_bound-Started name w ((some e, none), w') (h, reason) =
        (omega (arith, h, laws.log_keeps), reason)
    construct_bound-Started name w ((some e, some s), w') h = h

    pub construct-Started : (name : Bytes) (w : W) → Started name w (construct env message name w)
    unfolding construct
    construct-Started name w =
        construct_bound-Started name w _
          (bind_path-Bound env d gained lost laws bind_laws (socket_path name) w)
