-- ===== src/Sample/Loop.antt =====
-- The loop of main over run. What the signal handlers do is seen in the world, by `should_exit`.
use docker_plugin_cpp.Base.{
  ℕ, zero, suc, ◌<◌, ◌≡◌, ◌∙◌, Option, none, some, Bool, true, arith, Bool-cases, inl, inr,
  if◌then◌else◌, if_true, if_false,
}
use docker_plugin_cpp.Server.{Environment, Server}
use docker_plugin_cpp.Server.Runs.{Runs, next}
use docker_plugin_cpp.Plugin.Startup.{default_timeout, run_plugin}

module _ {C W : Type 0} (env : Environment C W) (should_exit : W → Bool) where
  -- while (!should_exit) plugin.run(); `none` is a loop that has not ended.
  unfoldable pub run_until : ℕ → Server C → W → Option (Server C × W)
  run_until zero server w = none
  run_until (suc fuel) server w =
      let (res, server', w') = run_plugin env default_timeout server w in
      let rest = run_until fuel server' w' in if should_exit w then some (server, w) else rest

  -- The server and the world after so many calls of run.
  abbrev pub after : ℕ → Server C → W → Server C × W
  after zero server w = (server, w)
  after (suc n) server w =
      let (res, server', w') = run_plugin env default_timeout server w in after n server' w'

  -- A signal that comes within the rounds ends the loop.
  pub run_until-Runs :
      (fuel n : ℕ) (first server : Server C) (v w : W)
      → n < fuel
      → should_exit (after n server w).1 ≡ true
      → Runs env first v server w
      → (s : Server C) × (u : W) × (run_until fuel server w ≡ some (s, u)) × Runs env first v s u
  unfolding run_until
  run_until-Runs zero n first server v w within signal r = absurd (omega arith)
  run_until-Runs (suc fuel) zero first server v w within signal r =
      (server, w, if_true _ _ signal, r)
  run_until-Runs (suc fuel) (suc n) first server v w within signal r =
      elim (Bool-cases (should_exit w)) [
        | inl now ↦ (server, w, if_true _ _ now, r)
        | inr later ↦
            let (s, u, e, r') =
              run_until-Runs fuel n first (run_plugin env default_timeout server w).1 v
                (run_plugin env default_timeout server w).2 (omega arith) signal
                (next default_timeout r) in
            (s, u, if_false _ _ later ∙ e, r')
      ]
