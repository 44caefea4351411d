-- ===== src/Sample/Program.antt =====
-- The whole of main: its root, its plugin, and the loop over run until a signal comes. What the
-- signal handlers do is seen in the kernel's state, by `should_exit`.
use docker_plugin_cpp.Base.{ℕ, ◌+◌, ◌<◌, ◌≡◌, Option, none, some, Bytes, text, Bool, true}
use docker_plugin_cpp.Json.{Picojson}
use docker_plugin_cpp.Logger.{info}
use docker_plugin_cpp.Plugin.Methods.{Plugin}
use docker_plugin_cpp.Result.{Result, returned, threw}
use docker_plugin_cpp.Http.Callbacks.{Llhttp}
use docker_plugin_cpp.Server.{Environment, Server, BindError}
use docker_plugin_cpp.Plugin.Startup.{
  Constructed, constructed, thrown, unbound, construct, destroy_plugin,
}
use docker_plugin_cpp.Plugin.Serving.{Kernel, World, Peer, environment}
use docker_plugin_cpp.Plugin.Serving.Descriptors.{KernelCounts}
use docker_plugin_cpp.Plugin.Serving.Lifecycle.{KernelBindCounts, gained_of, lost_of}
use docker_plugin_cpp.Sample.Files.{Files}
use docker_plugin_cpp.Sample.Main.{main_root}
use docker_plugin_cpp.Sample.Replies.{sample}
use docker_plugin_cpp.Sample.Loop.{run_until, after}

-- How main ends: it returns 0 or -1, or an exception leaves it.
pub data Exit : Type 0 where
  success failure : Exit
  uncaught : Exit

module _ {K W : Type 0} (files : Files W) (kernel : Kernel K) (json : Picojson)
    (convert_time : ℕ → Bytes) (llhttp : Llhttp) (should_exit : K → Bool) where
  abbrev env :
      (root : Bytes)
      → Environment
          (Peer kernel json convert_time llhttp (sample files root json convert_time))
          (World K W)
  env root = environment kernel json convert_time llhttp (sample files root json convert_time)

  -- The end of main behind its loop: the message, and the destructor of the plugin.
  unfoldable pub leave :
      (root : Bytes)
      → Option (
          Server (Peer kernel json convert_time llhttp (sample files root json convert_time))
          × World K W)
      → Option (Exit × World K W)
  unfolding environment text
  leave root none = none
  leave root (some (server, w)) = some (
    success,
    destroy_plugin (env root) server (record w { kernel = kernel.log info (text "Exit") w.kernel }),
  )

  unfoldable pub run_constructed :
      (root : Bytes)
      → ℕ
      → Constructed (Peer kernel json convert_time llhttp (sample files root json convert_time))
        × World K W
      → Option (Exit × World K W)
  unfolding run_until leave environment
  run_constructed root rounds (constructed server, w) =
      leave root (run_until (env root) (λ w. should_exit w.kernel) rounds server w)
  run_constructed root rounds (thrown e socket, w) = some (uncaught, w)
  run_constructed root rounds (unbound, w) = none

  unfoldable pub run_rooted :
      (BindError → Bytes) → ℕ → Result (Option Bytes) × World K W → Option (Exit × World K W)
  unfolding construct environment run_constructed text
  run_rooted describe rounds (threw e, w) = some (uncaught, w)
  run_rooted describe rounds (returned none, w) = some (failure, w)
  run_rooted describe rounds (returned (some root), w) =
      run_constructed root rounds (construct (env root) describe (text "sample") w)

  -- main behind its root
  abbrev go_on :
      (BindError → Bytes)
      → ℕ
      → World K W
      → Option (Result (Option Bytes) × W)
      → Option (Exit × World K W)
  go_on describe rounds w none = none
  go_on describe rounds w (some (root, v)) =
      run_rooted describe rounds (root, record w { drivers = v })

  -- main, where cwd and the loop have so many rounds
  unfoldable pub main :
      (ℕ → Bytes) → (BindError → Bytes) → ℕ → ℕ → World K W → Option (Exit × World K W)
  unfolding main_root run_rooted
  main message describe doublings rounds w =
      go_on describe rounds w (main_root files message doublings w.drivers)

  module _ (d : ℕ) (gained lost : K → ℕ) (laws : KernelCounts kernel d gained lost)
      (bind_laws : KernelBindCounts kernel d gained lost) where
    -- An end of main that has called close on the descriptor d as often as socket and accept4 gave it.
    abbrev pub Left : World K W → Option (Exit × World K W) → Type 0
    Left first none = ⊥
    Left first (some (exit, w)) =
        gained w.kernel + lost first.kernel ≡ gained first.kernel + lost w.kernel

    abbrev the_sample : (root : Bytes) → Plugin W
    the_sample root = sample files root json convert_time

    abbrev counts_gained : Bytes → World K W → ℕ
    counts_gained root = gained_of kernel json convert_time llhttp (the_sample root) d gained lost

    abbrev counts_lost : Bytes → World K W → ℕ
    counts_lost root = lost_of kernel json convert_time llhttp (the_sample root) d gained lost

    -- A signal comes within so many runs of the server that the constructor makes.
    abbrev pub Signalled : (BindError → Bytes) → Bytes → ℕ → World K W → Type 0
    Signalled describe root rounds first =
        (server : Server (Peer kernel json convert_time llhttp (the_sample root))) (w : World K W)
        → construct (env root) describe (text "sample") first ≡ (constructed server, w)
        → (n : ℕ) × (n < rounds)
          × (should_exit (after (env root) (λ w. should_exit w.kernel) n server w).1.kernel ≡ true)
