-- ===== src/Plugin/Serving/Lifecycle.antt =====
-- A plugin from its constructor over any number of runs to its destructor.
use docker_plugin_cpp.Base.{some, ℕ, ◌+◌, ◌≡◌, sym, ap, Bytes, All, arith}
use mathlib.Core.Path.{subst}
use docker_plugin_cpp.Json.{Picojson}
use docker_plugin_cpp.Http.Callbacks.{Llhttp}
use docker_plugin_cpp.Server.{Environment, Server, BindError}
use docker_plugin_cpp.Server.Accounts.{Counts, Inv, Moves, held_fd, has_fd, held_all}
use docker_plugin_cpp.Server.Lifecycle.{BindCounts, destroy_server, destroy_server-Moves}
use docker_plugin_cpp.Server.Runs.{Runs, Runs-Inv, Counts-shift}
use docker_plugin_cpp.Plugin.Methods.{Plugin}
use docker_plugin_cpp.Plugin.Startup.{constructed, construct, Started, construct-Started}
use docker_plugin_cpp.Plugin.Serving.{Kernel, World, Peer, environment}
use docker_plugin_cpp.Plugin.Serving.Descriptors.{Alters, KernelCounts, environment-Counts}

module _ {K : Type 0} (kernel : Kernel K) (d : ℕ) (gained lost : K → ℕ) where
  -- The effect of the calls that the constructor makes.
  pub record KernelBindCounts : Type 0 where
    pub socket_adds :
        (k : K)
        → Alters kernel d gained lost (held_fd d (kernel.socket k).0) 0 k (kernel.socket k).1
    pub unlink_keeps :
        (path : Bytes) (k : K) → Alters kernel d gained lost 0 0 k (kernel.unlink path k)
    pub bind_keeps :
        (fd : ℕ) (path : Bytes) (k : K)
        → Alters kernel d gained lost 0 0 k (kernel.bind fd path k).1
    pub listen_keeps :
        (fd n : ℕ) (k : K) → Alters kernel d gained lost 0 0 k (kernel.listen fd n k).1

module _ {C W : Type 0} (env : Environment C W) (d : ℕ) (gained lost : W → ℕ) where
  -- A server that was made in the world `first` and runs in the world `w`.
  pub record Serves (first : W) (server : Server C) (w : W) : Type 0 where
    -- of the descriptor d, the listening socket and the connections hold what was gained and not lost
    pub counted :
        Moves env d gained lost 0 first
          (held_fd d (some server.socket) + held_all env d gained lost server.connections)
          w
    pub opened : All (λ c. has_fd (env.get_fd c) ≡ 1) server.connections

  Inv-Serves :
      (first : W) (server : Server C) (w : W)
      → Inv env d (λ w. gained w + lost first) (λ w. lost w + gained first) server w
      → Serves first server w
  Inv-Serves first server w v = record { counted = omega (arith, v.counted); opened = v.opened }

  Serves-Inv :
      (first : W) (server : Server C) (w : W)
      → Serves first server w
      → Inv env d (λ w. gained w + lost first) (λ w. lost w + gained first) server w
  Serves-Inv first server w v = record { counted = omega (arith, v.counted); opened = v.opened }

  pub Runs-Serves :
      (first : W) {server s : Server C} {w v : W}
      → Counts env d gained lost
      → Serves first server w
      → Runs env server w s v
      → Serves first s v
  Runs-Serves first {server} {s} {w} {v} laws h r = Inv-Serves first s v (
      Runs-Inv env d (λ w. gained w + lost first) (λ w. lost w + gained first)
        (Counts-shift env d gained lost (lost first) (gained first) laws)
        (Serves-Inv first server w h) r)

  pub destroy_server-Serves :
      (first : W) (server : Server C) (w : W)
      → Counts env d gained lost
      → Serves first server w
      → Moves env d gained lost 0 first 0 (destroy_server env server w)
  destroy_server-Serves first server w laws h =
      omega (arith, h.counted, destroy_server-Moves env d gained lost laws server w)

module _ {K S : Type 0} (kernel : Kernel K) (json : Picojson) (convert_time : ℕ → Bytes)
    (llhttp : Llhttp) (plugin : Plugin S) (d : ℕ) (gained lost : K → ℕ) where
  abbrev pub gained_of : World K S → ℕ
  gained_of w = gained w.kernel

  abbrev pub lost_of : World K S → ℕ
  lost_of w = lost w.kernel

  pub environment-BindCounts :
      KernelBindCounts kernel d gained lost
      → BindCounts (environment kernel json convert_time llhttp plugin) d gained_of lost_of
  unfolding environment
  environment-BindCounts laws = record {
    socket_adds = λ w. omega (arith, laws.socket_adds w.kernel);
    unlink_keeps = λ path w. omega (arith, laws.unlink_keeps path w.kernel);
    bind_keeps = λ fd path w. omega (arith, laws.bind_keeps fd path w.kernel);
    listen_keeps = λ fd n w. omega (arith, laws.listen_keeps fd n w.kernel);
  }

  module _ (laws : KernelCounts kernel d gained lost)
      (bind_laws : KernelBindCounts kernel d gained lost) where
    -- A server as the constructor leaves it.
    pub construct-Serves :
        (message : BindError → Bytes) (name : Bytes) (first w : World K S)
        (server : Server (Peer kernel json convert_time llhttp plugin))
        → construct (environment kernel json convert_time llhttp plugin) message name first
          ≡ (constructed server, w)
        → Serves
            (environment kernel json convert_time llhttp plugin)
            d
            gained_of
            lost_of
            first
            server
            w
    construct-Serves message name first w server e =
        let (empty, moved, listening) =
          subst
            (Started (environment kernel json convert_time llhttp plugin) message d gained_of
              lost_of name first)
            e
            (construct-Started (environment kernel json convert_time llhttp plugin) message d
              gained_of lost_of
              (environment-Counts kernel json convert_time llhttp plugin d gained lost laws)
              (environment-BindCounts bind_laws) name first) in
        record {
          counted = omega (
            arith,
            moved,
            ap (held_all (environment kernel json convert_time llhttp plugin) d gained_of lost_of)
                empty,
          );
          opened =
              subst
                (All
                  (λ c. has_fd ((environment kernel json convert_time llhttp plugin).get_fd c) ≡ 1))
                (sym empty) tt;
        }

    -- If the constructor of a plugin does not throw, then after any number of runs, whatever the
    -- peers send and the drivers do, each connection holds a descriptor, and each descriptor is held by
    -- the listening socket and the connections as often as socket and accept4 gave it, less how often
    -- close was called on it; and behind the destructor close was called on each of them as often as it
    -- was given.
    pub lifecycle :
        (message : BindError → Bytes) (name : Bytes) (first w v : World K S)
        (server s : Server (Peer kernel json convert_time llhttp plugin))
        → construct (environment kernel json convert_time llhttp plugin) message name first
          ≡ (constructed server, w)
        → Runs (environment kernel json convert_time llhttp plugin) server w s v
        → Serves (environment kernel json convert_time llhttp plugin) d gained_of lost_of first s v
          × Moves
              (environment kernel json convert_time llhttp plugin)
              d
              gained_of
              lost_of
              0
              first
              0
              (destroy_server (environment kernel json convert_time llhttp plugin) s v)
    lifecycle message name first w v server s e r =
        let env = environment kernel json convert_time llhttp plugin in
        let counts = environment-Counts kernel json convert_time llhttp plugin d gained lost laws in
        let serves =
          Runs-Serves env d gained_of lost_of first counts
            (construct-Serves message name first w server e) r in
        (serves, destroy_server-Serves env d gained_of lost_of first s v counts serves)
