-- ===== src/Server/Runs.antt =====
-- Any number of calls of run.
use docker_plugin_cpp.Base.{ℕ, ◌+◌, arith}
use docker_plugin_cpp.Server.{Environment, Server, run}
use docker_plugin_cpp.Server.Accounts.{Counts, Inv}
use docker_plugin_cpp.Server.Descriptors.{run-Inv}

-- The servers and the worlds that calls of run lead to, with any time-outs.
pub data Runs {C W : Type 0} (env : Environment C W) (server : Server C) (w : W)
    : Server C → W → Type 0 where
  start : Runs env server w server w
  next :
      {s : Server C} {v : W} (timeout_ms : ℕ)
      → Runs env server w s v
      → Runs env server w (run env timeout_ms s v).1 (run env timeout_ms s v).2

module _ {C W : Type 0} (env : Environment C W) (d : ℕ) (gained lost : W → ℕ) where
  -- The account may begin at any number.
  pub Counts-shift :
      (a b : ℕ) → Counts env d gained lost → Counts env d (λ w. gained w + a) (λ w. lost w + b)
  Counts-shift a b c = record {
    select_keeps = λ n fds t w. omega (arith, c.select_keeps n fds t w);
    accept_adds = λ s w. omega (arith, c.accept_adds s w);
    recv_keeps = λ fd n w. omega (arith, c.recv_keeps fd n w);
    close_fd_drops = λ fd w. omega (arith, c.close_fd_drops fd w);
    log_keeps = λ level message w. omega (arith, c.log_keeps level message w);
    close_drops = λ x w. (omega (arith, c.close_drops x w), (c.close_drops x w).1);
    on_read_balances = λ bytes x w. omega (arith, c.on_read_balances bytes x w);
    destroy_drops = λ x w. omega (arith, c.destroy_drops x w);
    create_takes = λ fd w. (omega (arith, c.create_takes fd w), (c.create_takes fd w).1);
    on_connect_keeps = λ x w. (omega (arith, c.on_connect_keeps x w), (c.on_connect_keeps x w).1);
    on_disconnect_keeps =
        λ x w. (omega (arith, c.on_disconnect_keeps x w), (c.on_disconnect_keeps x w).1);
  }

  pub Runs-Inv :
      {server : Server C} {w : W} {s : Server C} {v : W}
      → Counts env d gained lost
      → Inv env d gained lost server w
      → Runs env server w s v
      → Inv env d gained lost s v
  Runs-Inv laws h start = h
  Runs-Inv laws h (next {s} {v} timeout_ms r) =
      run-Inv env d gained lost laws timeout_ms s v (Runs-Inv laws h r)
