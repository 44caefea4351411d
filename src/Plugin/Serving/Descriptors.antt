-- ===== src/Plugin/Serving/Descriptors.antt =====
-- The account of descriptors over the calls of the connections of a plugin.
use docker_plugin_cpp.Base.{
  ℕ, ◌+◌, ◌≡◌, refl, sym, ap, ◌∙◌, ◌⊎◌, inl, inr, ◌&&◌, List, Option, none, some, Bytes, arith,
  Bool-cases,
}
use docker_plugin_cpp.Json.{Picojson}
use docker_plugin_cpp.Logger.{Level}
use docker_plugin_cpp.Channel.{close-socket}
use docker_plugin_cpp.Http.Callbacks.{Llhttp, on_read, run_callbacks}
use docker_plugin_cpp.Http.Callbacks.Sockets.{run_callbacks-SameSocket}
use docker_plugin_cpp.Http.Connection.{connect}
use docker_plugin_cpp.Server.{Environment, Timeval}
use docker_plugin_cpp.Server.Accounts.{Counts, Moves, held_fd}
use docker_plugin_cpp.Plugin.Methods.{Plugin}
use docker_plugin_cpp.Plugin.Handlers.{PluginConnection, methods}
use docker_plugin_cpp.Plugin.Refusals.{on_read-closes}
use docker_plugin_cpp.Plugin.Sockets.{methods-KeepsSocket}
use docker_plugin_cpp.Plugin.Serving.{
  Kernel, World, give_up, Peer, close_peer, destroy_peer, read_peer, create_peer, environment,
}

module _ {K : Type 0} (kernel : Kernel K) (d : ℕ) (gained lost : K → ℕ) where
  -- From one state of the kernel to another, the descriptor d is gained n times more, and m times
  -- more lost.
  abbrev pub Alters : ℕ → ℕ → K → K → Type 0
  Alters n m k k' = (gained k' ≡ gained k + n) × (lost k' ≡ lost k + m)

  -- `gained` counts how often accept4 gave d, and `lost` how often close was called on it; the other
  -- calls leave the counts as they are.
  pub record KernelCounts : Type 0 where
    pub select_keeps :
        (n : ℕ) (fds : List ℕ) (t : Timeval) (k : K) → Alters 0 0 k (kernel.select n fds t k).1
    pub accept_adds :
        (s : ℕ) (k : K) → Alters (held_fd d (kernel.accept4 s k).0) 0 k (kernel.accept4 s k).1
    pub recv_keeps : (fd n : ℕ) (k : K) → Alters 0 0 k (kernel.recv fd n k).1
    pub close_fd_drops : (fd : ℕ) (k : K) → Alters 0 (held_fd d (some fd)) k (kernel.close_fd fd k)
    pub log_keeps :
        (level : Level) (message : Bytes) (k : K) → Alters 0 0 k (kernel.log level message k)

module _ {K S : Type 0} (kernel : Kernel K) (json : Picojson) (convert_time : ℕ → Bytes)
    (llhttp : Llhttp) (plugin : Plugin S) where
  -- on_read leaves the socket as it is, or closes it.
  on_read-socket :
      (bytes : Bytes) (parser : llhttp.State) (h : PluginConnection S)
      → let after = (on_read llhttp (methods json convert_time plugin) bytes (parser, h)).1 in
        (after.channel.socket ≡ h.channel.socket) ⊎ (after.channel.socket ≡ none)
  on_read-socket bytes parser h =
      let m = methods json convert_time plugin in
      let (events, accepted, parser') = llhttp.execute parser bytes in
      let (finished, h') = run_callbacks m events h in
      let (kept, closed) = on_read-closes llhttp m bytes parser h in
      let same =
        run_callbacks-SameSocket m (methods-KeepsSocket json convert_time plugin) events h in
      elim (Bool-cases (finished && accepted)) [
        | inl e ↦ inl (ap (λ (k : PluginConnection S). k.channel.socket) (kept e) ∙ same.same)
        | inr e ↦ inr (closed e)
      ]

  module _ (d : ℕ) (gained lost : K → ℕ) (laws : KernelCounts kernel d gained lost) where
    abbrev env : Environment (Peer kernel json convert_time llhttp plugin) (World K S)
    env = environment kernel json convert_time llhttp plugin

    abbrev gained_in : World K S → ℕ
    gained_in w = gained w.kernel

    abbrev lost_in : World K S → ℕ
    lost_in w = lost w.kernel

    give_up-Moves :
        (before after : Option ℕ) (w : World K S)
        → (after ≡ before) ⊎ (after ≡ none)
        → Moves env d gained_in lost_in
            (held_fd d before)
            w
            (held_fd d after)
            (give_up kernel before after w)
    unfolding give_up
    give_up-Moves none none w h = refl
    give_up-Moves none (some fd) w h = ground (arith, h)
    give_up-Moves (some fd) none w h = omega (arith, laws.close_fd_drops fd w.kernel)
    give_up-Moves (some fd) (some fd') w h = elim h [
      | inl same ↦ omega (arith, ap (held_fd d) same)
      | inr closed ↦ absurd (cc closed)
    ]

    read_peer-Moves :
        (bytes : Bytes) (c : Peer kernel json convert_time llhttp plugin) (w : World K S)
        → Moves env d gained_in lost_in
            (held_fd d (env.get_fd c))
            w
            (held_fd d (env.get_fd (env.on_read bytes (c, w)).0))
            (env.on_read bytes (c, w)).1
    unfolding environment read_peer
    read_peer-Moves bytes (parser, h) w =
        let h' = record h { derived = record h.derived { drivers = w.drivers } } in
        let after = (on_read llhttp (methods json convert_time plugin) bytes (parser, h')).1 in
        give_up-Moves h.channel.socket after.channel.socket
          (record w { drivers = after.derived.drivers }) (on_read-socket bytes parser h')

    close_peer-Moves :
        (c : Peer kernel json convert_time llhttp plugin) (w : World K S)
        → Moves env d gained_in lost_in (held_fd d (env.get_fd c)) w 0 (env.close (c, w)).1
          × (env.get_fd (env.close (c, w)).0 ≡ none)
    unfolding environment close_peer
    close_peer-Moves (parser, h) w =
        (give_up-Moves h.channel.socket none w (inr refl), close-socket h.channel)

    destroy_peer-Moves :
        (c : Peer kernel json convert_time llhttp plugin) (w : World K S)
        → Moves env d gained_in lost_in (held_fd d (env.get_fd c)) w 0 (env.destroy (c, w))
    unfolding environment destroy_peer
    destroy_peer-Moves (parser, h) w = give_up-Moves h.channel.socket none w (inr refl)

    abbrev socket_of : Option (Peer kernel json convert_time llhttp plugin) → Option ℕ
    socket_of none = none
    socket_of (some (parser, h)) = h.channel.socket

    create_peer-holds :
        (fd : ℕ) (w : World K S) (c : Peer kernel json convert_time llhttp plugin)
        → (env.create_connection fd w).0 ≡ some c
        → env.get_fd c ≡ some fd
    unfolding environment create_peer connect
    create_peer-holds fd w c e = ap socket_of (sym e)

    -- What the server relies on, it has: every operation of the plugin's connections, their reading
    -- of a request included, changes the open descriptors by what it does to the connection's own.
    pub environment-Counts : Counts env d gained_in lost_in
    unfolding environment create_peer
    environment-Counts = record {
      select_keeps = λ n fds t w. omega (arith, laws.select_keeps n fds t w.kernel);
      accept_adds = λ s w. omega (arith, laws.accept_adds s w.kernel);
      recv_keeps = λ fd n w. omega (arith, laws.recv_keeps fd n w.kernel);
      close_fd_drops = λ fd w. omega (arith, laws.close_fd_drops fd w.kernel);
      log_keeps = λ level message w. omega (arith, laws.log_keeps level message w.kernel);
      close_drops = close_peer-Moves;
      on_read_balances = read_peer-Moves;
      destroy_drops = destroy_peer-Moves;
      create_takes = λ fd w. (refl, create_peer-holds fd w);
      on_connect_keeps = λ c w. (refl, refl);
      on_disconnect_keeps = λ c w. (refl, refl);
    }
