-- ===== src/Server/Descriptors.antt =====
-- The account of open descriptors over a call of run.
use docker_plugin_cpp.Base.{
  ℕ, ◌+◌, ◌≡◌, refl, List, [], ◌∷◌, Option, none, some, arith, inl, inr, Bool-cases,
}
use docker_plugin_cpp.Server.{
  Selected, interrupted, ready, Environment, Server, is_set, append_kept, cons_kept, serve,
  serve_all, run_ready, run_selected, run, fds_of, max_of, to_timeval,
}
use docker_plugin_cpp.Server.Accounts.{
  Counts, Inv, Moves, Balances, IsOpen, AllOpen, held_option, held_all, serve-Balances,
  accept_connection-Balances,
}

module _ {C W : Type 0} (env : Environment C W) (d : ℕ) (gained lost : W → ℕ) where
  module _ (laws : Counts env d gained lost) where
    cons_kept-AllOpen :
        (kept : Option C) (cs : List C)
        → IsOpen env d gained lost kept
        → AllOpen env d gained lost cs
        → AllOpen env d gained lost (cons_kept env kept cs)
    cons_kept-AllOpen none cs h k = k
    cons_kept-AllOpen (some c) cs h k = (h, k)

    append_kept-AllOpen :
        (cs : List C) (kept : Option C)
        → AllOpen env d gained lost cs
        → IsOpen env d gained lost kept
        → AllOpen env d gained lost (append_kept env cs kept)
    append_kept-AllOpen cs none h k = h
    append_kept-AllOpen [] (some c) h k = (k, tt)
    append_kept-AllOpen (d ∷ cs) (some c) h k = (h.0, append_kept-AllOpen cs (some c) h.1 k)

    held_all-cons_kept :
        (kept : Option C) (cs : List C)
        → IsOpen env d gained lost kept
        → held_all env d gained lost (cons_kept env kept cs)
          ≡ held_option env d gained lost kept + held_all env d gained lost cs
    held_all-cons_kept none cs h = omega arith
    held_all-cons_kept (some c) cs h = omega arith

    held_all-append_kept :
        (cs : List C) (kept : Option C)
        → IsOpen env d gained lost kept
        → held_all env d gained lost (append_kept env cs kept)
          ≡ held_all env d gained lost cs + held_option env d gained lost kept
    held_all-append_kept cs none h = omega arith
    held_all-append_kept [] (some c) h = omega arith
    held_all-append_kept (b ∷ cs) (some c) h = omega (arith, held_all-append_kept cs (some c) h)

    serve_all-Balances :
        (set : List ℕ) (cs : List C) (w : W)
        → AllOpen env d gained lost cs
        → let (cs', w') = serve_all env set cs w in
          Moves env d gained lost
            (held_all env d gained lost cs)
            w
            (held_all env d gained lost cs')
            w'
          × AllOpen env d gained lost cs'
    unfolding serve_all
    serve_all-Balances set [] w h = (omega arith, tt)
    serve_all-Balances set (c ∷ cs) w (h, hs) =
        let first = serve env set (c, w) in
        let (balance, opened) = serve-Balances env d gained lost laws set c w h in
        let (balances, rest) = serve_all-Balances set cs first.1 hs in
        let (cs', w') = serve_all env set cs first.1 in
        (
          omega (arith, held_all-cons_kept first.0 cs' opened),
          cons_kept-AllOpen first.0 cs' opened rest,
        )

    -- The loop over the connections, one of which may be new.
    serve_kept-Inv :
        (set : List ℕ) (server : Server C) (w : W) (r : Option C × W)
        → Inv env d gained lost server w
        → Balances env d gained lost 0 w r
        → IsOpen env d gained lost r.0
        → let (cs, w') = serve_all env set (append_kept env server.connections r.0) r.1 in
          Inv env d gained lost (record server { connections = cs }) w'
    serve_kept-Inv set server w (kept, w') v balance opened =
        let cs = append_kept env server.connections kept in
        let (balances, all_open) =
          serve_all-Balances set cs w'
            (append_kept-AllOpen server.connections kept v.opened opened) in
        record {
          counted = omega (arith, v.counted, held_all-append_kept server.connections kept opened);
          opened = all_open;
        }

    run_ready-Inv :
        (set : List ℕ) (server : Server C) (w : W)
        → Inv env d gained lost server w
        → let (server', w') = run_ready env set server w in Inv env d gained lost server' w'
    unfolding run_ready
    run_ready-Inv set server w v = elim (Bool-cases (is_set server.socket set)) [
      | inl there ↦ rw there (
          let (balance, opened) =
            accept_connection-Balances env d gained lost laws server.socket w in
          serve_kept-Inv set server w _ v balance opened)
      | inr missing ↦ rw missing (serve_kept-Inv set server w (none, w) v refl tt)
    ]

    run_selected-Inv :
        (selected : Selected × W) (server : Server C)
        → Inv env d gained lost server selected.1
        → let (_, server', w') = run_selected env selected server in
          Inv env d gained lost server' w'
    unfolding run_selected
    run_selected-Inv (interrupted e, w) server v = v
    run_selected-Inv (ready [], w) server v = v
    run_selected-Inv (ready (fd ∷ set), w) server v = run_ready-Inv (fd ∷ set) server w v

    -- For each descriptor: if it was gained, and not lost again, just as often as the listening
    -- socket and the connections of the server hold it, and each connection holds one, it is so after
    -- any call of run, whatever select, accept4, recv and the connections answer. So run closes each
    -- descriptor that it is given once, unless a connection keeps it, and no other. `gained` counts how
    -- often accept4 gives the descriptor, `lost` how often close is called on it, and the connections
    -- are assumed to change the counts by what they do to their own one.
    pub run-Inv :
        (timeout_ms : ℕ) (server : Server C) (w : W)
        → Inv env d gained lost server w
        → let (_, server', w') = run env timeout_ms server w in Inv env d gained lost server' w'
    unfolding run
    run-Inv timeout_ms server w v =
        let fds = server.socket ∷ fds_of env server.connections in
        let same =
          laws.select_keeps (max_of env server.socket fds + 1) fds (to_timeval timeout_ms) w in
        run_selected-Inv _ server
          (record { counted = omega (arith, v.counted, same); opened = v.opened })
