-- ===== src/Server/Polling.antt =====
-- What run asks select for: the time, the descriptors, and a bound on them.
use docker_plugin_cpp.Base.{
  ℕ, ◌+◌, ◌*◌, ◌<◌, ◌≤◌, ◌≡◌, refl, List, [], ◌∷◌, Option, none, some, true, max, arith, All,
}
use docker_plugin_cpp.Server.{
  to_timeval, Timeval, Environment, Server, fds_of, max_of, is_set, run, run_selected,
}

-- The time-out in a timeval is the time that was asked for, with less than a second in the microseconds.
to_timeval_lem :
    (ms : ℕ)
    → let t = to_timeval ms in (t.tv_sec * 1000000 + t.tv_usec ≡ ms * 1000) × (t.tv_usec < 1000000)
unfolding to_timeval
to_timeval_lem ms = omega arith

module _ {C W : Type 0} (env : Environment C W) where
  max_of-ge : (m : ℕ) (fds : List ℕ) → m ≤ max_of env m fds
  unfolding max_of
  max_of-ge m [] = omega arith
  max_of-ge m (fd ∷ fds) = omega (arith, max_of-ge (max m fd) fds)

  max_of-All : (m : ℕ) (fds : List ℕ) → All (λ fd. fd < max_of env m fds + 1) fds
  unfolding max_of
  max_of-All m [] = tt
  max_of-All m (fd ∷ fds) = (omega (arith, max_of-ge (max m fd) fds), max_of-All (max m fd) fds)

  -- A descriptor, if there is one, is in the set.
  abbrev pub IsPolled : List ℕ → Option ℕ → Type 0
  IsPolled set none = Unit
  IsPolled set (some fd) = is_set fd set ≡ true

  IsPolled-cons : (x : ℕ) (set : List ℕ) (fd : Option ℕ) → IsPolled set fd → IsPolled (x ∷ set) fd
  unfolding is_set
  IsPolled-cons x set none h = tt
  IsPolled-cons x set (some fd) h = ground (arith, h)

  All-IsPolled-cons :
      (x : ℕ) (set : List ℕ) (cs : List C)
      → All (λ c. IsPolled set (env.get_fd c)) cs
      → All (λ c. IsPolled (x ∷ set) (env.get_fd c)) cs
  All-IsPolled-cons x set [] h = tt
  All-IsPolled-cons x set (c ∷ cs) (h, hs) =
      (IsPolled-cons x set (env.get_fd c) h, All-IsPolled-cons x set cs hs)

  added-IsPolled :
      (fd : Option ℕ) (set : List ℕ) (cs : List C)
      → All (λ c. IsPolled set (env.get_fd c)) cs
      → let more : List ℕ = elim fd [ none ↦ set | some fd ↦ fd ∷ set ] in
        IsPolled more fd × All (λ c. IsPolled more (env.get_fd c)) cs
  unfolding is_set
  added-IsPolled none set cs h = (tt, h)
  added-IsPolled (some fd) set cs h = (ground arith, All-IsPolled-cons fd set cs h)

  fds_of-IsPolled : (cs : List C) → All (λ c. IsPolled (fds_of env cs) (env.get_fd c)) cs
  unfolding fds_of
  fds_of-IsPolled [] = tt
  fds_of-IsPolled (c ∷ cs) = added-IsPolled (env.get_fd c) (fds_of env cs) cs (fds_of-IsPolled cs)

  -- run calls select once, and goes on with its answer. The set that it gives select has the
  -- listening socket and the descriptor of every connection, the first argument is above each
  -- descriptor in the set, and the time-out is the time that was asked for, with less than a second
  -- in the microseconds.
  pub run-select :
      (timeout_ms : ℕ) (server : Server C) (w : W)
      → (n : ℕ) × (set : List ℕ) × (t : Timeval) × (run env timeout_ms server w
          ≡ run_selected env (env.select n set t w) server)
        × (is_set server.socket set ≡ true)
        × All (λ c. IsPolled set (env.get_fd c)) server.connections
        × All (λ fd. fd < n) set
        × (t.tv_sec * 1000000 + t.tv_usec ≡ timeout_ms * 1000)
        × (t.tv_usec < 1000000)
  unfolding run is_set
  run-select timeout_ms server w =
      let fds = fds_of env server.connections in
      (
        max_of env server.socket (server.socket ∷ fds) + 1,
        server.socket ∷ fds,
        to_timeval timeout_ms,
        refl,
        ground arith,
        All-IsPolled-cons server.socket fds server.connections (fds_of-IsPolled server.connections),
        max_of-All server.socket (server.socket ∷ fds),
        (to_timeval_lem timeout_ms).0,
        (to_timeval_lem timeout_ms).1,
      )
