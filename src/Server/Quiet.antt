-- ===== src/Server/Quiet.antt =====
-- A call of run in which nobody connects.
use docker_plugin_cpp.Base.{ℕ, ◌+◌, ◌≡◌, ap, ◌∙◌, List, ◌∷◌, false, if_false, Option, none}
use docker_plugin_cpp.Server.{
  Environment, Server, Selected, ready, is_set, run, run_ready, run_selected, serve_all, fds_of,
  max_of, to_timeval, accept_connection, append_kept,
}

module _ {C W : Type 0} (env : Environment C W) where
  -- What is asked of select.
  abbrev pub selected : ℕ → Server C → W → Selected × W
  selected timeout_ms server w =
      let fds = server.socket ∷ fds_of env server.connections in
      env.select (max_of env server.socket fds + 1) fds (to_timeval timeout_ms) w

  -- The connections are served, and that is all.
  pub run-serve_all :
      (timeout_ms fd : ℕ) (set : List ℕ) (server : Server C) (w w' : W)
      → selected timeout_ms server w ≡ (ready (fd ∷ set), w')
      → is_set server.socket (fd ∷ set) ≡ false
      → let (cs, w'') = serve_all env (fd ∷ set) server.connections w' in
        run env timeout_ms server w ≡ (0, record server { connections = cs }, w'')
  unfolding run run_selected run_ready
  run-serve_all timeout_ms fd set server w w' e quiet =
      ap (λ (r : Selected × W). run_selected env r server) e
      ∙ ap
          (λ (r : Option C × W).
            let (cs, w'') = serve_all env (fd ∷ set) (append_kept env server.connections r.0) r.1 in
            (0, record server { connections = cs }, w''))
          (if_false (accept_connection env server.socket w') (none, w') quiet)
