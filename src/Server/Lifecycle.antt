-- ===== src/Server/Lifecycle.antt =====
-- The beginning and the end of a uds_server: what bind leaves open, and what the destructors close.
use docker_plugin_cpp.Base.{
  ℕ, ◌+◌, ◌<◌, ◌⊎◌, ap, Bool, true, false, ◌≡◌, refl, List, [], ◌∷◌, Option, none, some, Bytes,
  arith, length, inl, inr, Bool-cases, ltb,
}
use docker_plugin_cpp.Server.{
  Environment, Server, BindError, invalid_argument, system, bind_path, bind_socket, bind_and_listen,
  sun_path_size,
}
use docker_plugin_cpp.Server.Accounts.{Counts, Moves, held_fd, held_all}

module _ {C W : Type 0} (env : Environment C W) where
  open env use {close_fd, destroy}

  -- The destructors of what m_connections holds.
  unfoldable pub destroy_all : List C → W → W
  destroy_all [] w = w
  destroy_all (c ∷ cs) w = destroy_all cs (destroy (c, w))

  -- ~uds_server, and then its members'
  unfoldable pub destroy_server : Server C → W → W
  destroy_server server w = destroy_all server.connections (close_fd server.socket w)

module _ {C W : Type 0} (env : Environment C W) (d : ℕ) (gained lost : W → ℕ) where
  open env use {close_fd, destroy, socket, unlink, bind, listen, get_fd}

  -- What the calls of bind do to the descriptors.
  pub record BindCounts : Type 0 where
    pub socket_adds : (w : W) → Moves env d gained lost 0 w (held_fd d (socket w).0) (socket w).1
    pub unlink_keeps : (path : Bytes) (w : W) → Moves env d gained lost 0 w 0 (unlink path w)
    pub bind_keeps :
        (fd : ℕ) (path : Bytes) (w : W) → Moves env d gained lost 0 w 0 (bind fd path w).1
    pub listen_keeps : (fd n : ℕ) (w : W) → Moves env d gained lost 0 w 0 (listen fd n w).1

  -- bind and listen succeeded on the socket, one behind the other, and left this world.
  abbrev pub Listening : Bytes → ℕ → W → Type 0
  Listening path s w' = (u v : W) × (bind s path u ≡ (true, v)) × (listen s 5 v ≡ (true, w'))

  -- The call that failed.
  abbrev Failed : Bytes → W → Type 0
  Failed path v =
      ((u : W) × (socket u ≡ (none, v)))
      ⊎ ((s : ℕ) × (u : W) × (bind s path u ≡ (false, v)))
      ⊎ ((s : ℕ) × (u : W) × (listen s 5 u ≡ (false, v)))

  -- The error code: EINVAL of a path that is too long, or errno of the call that failed.
  abbrev pub Reason : Bytes → BindError → Type 0
  Reason path invalid_argument = sun_path_size < length path
  Reason path (system n) = (v : W) × (n ≡ env.errno v) × Failed path v

  -- What bind leaves: a socket that listens, and no error, or an error and no socket.
  abbrev pub Bound : Bytes → W → (Option BindError × Option ℕ) × W → Type 0
  Bound path w ((none, some s), w') =
      Moves env d gained lost 0 w (held_fd d (some s)) w' × Listening path s w'
  Bound path w ((some e, none), w') = Moves env d gained lost 0 w 0 w' × Reason path e
  Bound path w _ = ⊥

  module _ (laws : Counts env d gained lost) (bind_laws : BindCounts) where
    abbrev Tried : ℕ → Bytes → W → Bool × W → Type 0
    Tried s path w (listening, w') =
        Moves env d gained lost 0 w 0 w'
        × (listening ≡ true → Listening path s w')
        × (listening ≡ false → Failed path w')

    bind_and_listen-Tried :
        (s : ℕ) (path : Bytes) (w : W) → Tried s path w (bind_and_listen env s path w)
    unfolding bind_and_listen
    bind_and_listen-Tried s path w = elim (Bool-cases (bind s path w).0) [
      | inl bound ↦
          let v = (bind s path w).1 in
          rw bound (
            omega (arith, bind_laws.bind_keeps s path w, bind_laws.listen_keeps s 5 v),
            λ e. (w, v, ap (λ b. (b, v)) bound, ap (λ b. (b, (listen s 5 v).1)) e),
            λ e. inr (inr (s, v, ap (λ b. (b, (listen s 5 v).1)) e)),
          )
      | inr refused ↦ rw refused (
        bind_laws.bind_keeps s path w,
        λ e. cc,
        λ e. inr (inl (s, w, ap (λ b. (b, (bind s path w).1)) refused)),
      )
    ]

    bind_socket-Bound :
        (path : Bytes) (u w : W) (made : Option ℕ) (w' : W)
        → Moves env d gained lost 0 w (held_fd d made) w'
        → socket u ≡ (made, w')
        → Bound path w (bind_socket env path (made, w'))
    unfolding bind_socket
    bind_socket-Bound path u w none w' e called = (e, (w', refl, inl (u, called)))
    bind_socket-Bound path u w (some s) w' e called =
        let tried = bind_and_listen env s path (unlink path w') in
        let (same, listens, failed) = bind_and_listen-Tried s path (unlink path w') in
        let unlinked = bind_laws.unlink_keeps path w' in
        elim (Bool-cases tried.0) [
          | inl listening ↦ rw listening (omega (arith, same, unlinked, e), listens listening)
          | inr refused ↦ rw refused (
            omega (arith, same, unlinked, e, laws.close_fd_drops s tried.1),
            (tried.1, refl, failed refused),
          )
        ]

    -- bind sets the socket, which listens and is then the one descriptor more, or it gives an error
    -- and has closed what it opened.
    pub bind_path-Bound : (path : Bytes) (w : W) → Bound path w (bind_path env path w)
    unfolding bind_path
    bind_path-Bound path w = elim (Bool-cases (ltb sun_path_size (length path))) [
      | inl long ↦ rw long (omega arith, ground (arith, long))
      | inr short ↦
          rw short
            (bind_socket-Bound path w w (socket w).0 (socket w).1 (bind_laws.socket_adds w) refl)
    ]

  module _ (laws : Counts env d gained lost) where
    destroy_all-Moves :
        (cs : List C) (w : W)
        → Moves env d gained lost (held_all env d gained lost cs) w 0 (destroy_all env cs w)
    unfolding destroy_all
    destroy_all-Moves [] w = refl
    destroy_all-Moves (c ∷ cs) w =
        omega (arith, laws.destroy_drops c w, destroy_all-Moves cs (destroy (c, w)))

    -- The end of a server calls close on its listening socket and on the descriptor of every
    -- connection, on each as often as it is held, and on no other. `lost` counts the calls of close on
    -- a descriptor, and the connections are assumed to close their own one when they are destroyed.
    pub destroy_server-Moves :
        (server : Server C) (w : W)
        → Moves env d gained lost
            (held_fd d (some server.socket) + held_all env d gained lost server.connections)
            w
            0
            (destroy_server env server w)
    unfolding destroy_server
    destroy_server-Moves server w = omega (
      arith,
      laws.close_fd_drops server.socket w,
      destroy_all-Moves server.connections (close_fd server.socket w),
    )
