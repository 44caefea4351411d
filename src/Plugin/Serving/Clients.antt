-- ===== src/Plugin/Serving/Clients.antt =====
-- One call of run on all the connections of a plugin, of which some have requests to read.
use docker_plugin_cpp.Base.{
  ℕ, ◌≡◌, refl, ap, ◌∙◌, List, [], ◌∷◌, map, Option, none, some, Bytes, Bool, true, false, if_false,
}
use docker_plugin_cpp.Json.{Picojson}
use docker_plugin_cpp.Channel.Writing.{NoFailure, Delivers}
use docker_plugin_cpp.Http.Callbacks.{Llhttp}
use docker_plugin_cpp.Http.Response.Wire.{IsLive, IsIdle}
use docker_plugin_cpp.Server.{
  Environment, ready, Received, bytes, is_set, serve, serve_fd, serve_all, run, buffer_size,
  cons_kept,
}
use docker_plugin_cpp.Server.Quiet.{selected, run-serve_all}
use docker_plugin_cpp.Plugin.Methods.{Plugin}
use docker_plugin_cpp.Plugin.Handlers.{PluginConnection}
use docker_plugin_cpp.Plugin.Pipelines.{Request, session_events, session_replies}
use docker_plugin_cpp.Plugin.Serving.{Kernel, World, Peer, fd_of, environment}
use docker_plugin_cpp.Plugin.Serving.Rounds.{env, world_after, serve_lem}

module _ {K S : Type 0} (kernel : Kernel K) (json : Picojson) (convert_time : ℕ → Bytes)
    (llhttp : Llhttp) (plugin : Plugin S) where
  -- What a round finds on a connection: nothing to read, or the bytes of some requests, none of
  -- them cut off, on a descriptor.
  pub data Turn : Type 0 where
    waits : Peer kernel json convert_time llhttp plugin → Turn
    reads :
        (fd : ℕ) (parser parser' : llhttp.State) (h : PluginConnection S) (requests : List Request)
        (first : ℕ) (str : Bytes)
        → Turn

  abbrev pub peer_of : Turn → Peer kernel json convert_time llhttp plugin
  peer_of (waits c) = c
  peer_of (reads fd parser parser' h requests first str) = (parser, h)

  abbrev server_env : Environment (Peer kernel json convert_time llhttp plugin) (World K S)
  server_env = env kernel json convert_time llhttp plugin

  -- What recv gives on a descriptor in a world.
  abbrev received : ℕ → World K S → Received × K
  received fd w = kernel.recv fd (buffer_size server_env) w.kernel

  abbrev pub behind : Turn → World K S → World K S
  behind (waits c) w = w
  behind (reads fd parser parser' h requests first str) w =
      world_after kernel json convert_time llhttp plugin requests fd (first ∷ str) (received fd w).1
        w

  abbrev is_ready : Option ℕ → List ℕ → Bool
  is_ready none set = false
  is_ready (some fd) set = is_set fd set

  -- The connection is between requests, on an open socket on which no send fails, its descriptor is
  -- ready, and recv gives what the parser takes for the requests.
  pub record Sends (set : List ℕ) (fd : ℕ) (parser parser' : llhttp.State) (h : PluginConnection S)
      (requests : List Request) (first : ℕ) (str : Bytes) (w : World K S) : Type 0 where
    pub idle : IsIdle h
    pub open_socket : h.channel.socket ≡ some fd
    pub working : NoFailure h.channel
    pub there : is_set fd set ≡ true
    pub given : (received fd w).0 ≡ bytes (first ∷ str)
    pub parsed : llhttp.execute parser (first ∷ str) ≡ (session_events requests, true, parser')

  abbrev pub Finds : List ℕ → Turn → World K S → Type 0
  Finds set (waits c) w = is_ready (fd_of kernel json convert_time llhttp plugin c) set ≡ false
  Finds set (reads fd parser parser' h requests first str) w =
      Sends set fd parser parser' h requests first str w

  -- Each turn finds what it says in the world that the turns before it leave.
  abbrev pub Turns : List ℕ → List Turn → World K S → Type 0
  Turns set [] w = Unit
  Turns set (t ∷ ts) w = Finds set t w × Turns set ts (behind t w)

  -- A connection that has nothing to read stays as it is, and on another the answers have gone out
  -- and it is between requests again.
  abbrev pub Done : Turn → Peer kernel json convert_time llhttp plugin → World K S → Type 0
  Done (waits c) c' w = c' ≡ c
  Done (reads fd parser parser' h requests first str) (parser'', h') w =
      (parser'' ≡ parser')
      × Delivers (session_replies json convert_time plugin requests w.drivers).0 h.channel
          h'.channel
      × IsIdle h'

  abbrev pub AllDone :
      List Turn → List (Peer kernel json convert_time llhttp plugin) → World K S → Type 0
  AllDone [] [] w = Unit
  AllDone (t ∷ ts) (c ∷ cs) w = Done t c w × AllDone ts cs (behind t w)
  AllDone ts cs w = ⊥

  -- The drivers behind the turns: the requests of each connection, one connection after the other.
  abbrev pub drivers_behind : List Turn → S → S
  drivers_behind [] s = s
  drivers_behind (waits c ∷ ts) s = drivers_behind ts s
  drivers_behind (reads fd parser parser' h requests first str ∷ ts) s =
      drivers_behind ts (session_replies json convert_time plugin requests s).1

  drivers-behind :
      (t : Turn) (ts : List Turn) (w : World K S)
      → drivers_behind ts (behind t w).drivers ≡ drivers_behind (t ∷ ts) w.drivers
  drivers-behind (waits c) ts w = refl
  drivers-behind (reads fd parser parser' h requests first str) ts w = refl

  serve_fd-quiet :
      (set : List ℕ) (fd : Option ℕ) (c : Peer kernel json convert_time llhttp plugin)
      (w : World K S)
      → is_ready fd set ≡ false
      → serve_fd server_env set fd (c, w) ≡ (some c, w)
  unfolding serve_fd
  serve_fd-quiet set none c w quiet = refl
  serve_fd-quiet set (some fd) c w quiet = if_false _ _ quiet

  serve-Done :
      (set : List ℕ) (t : Turn) (w : World K S)
      → Finds set t w
      → (c : Peer kernel json convert_time llhttp plugin) × (serve server_env set (peer_of t, w)
          ≡ (some c, behind t w))
        × Done t c w
  unfolding serve environment
  serve-Done set (waits c) w quiet =
      (c, serve_fd-quiet set (fd_of kernel json convert_time llhttp plugin c) c w quiet, refl)
  serve-Done set (reads fd parser parser' h requests first str) w finds =
      let live : IsLive h.channel = record {
        fd = fd;
        is_open = finds.open_socket;
        working = finds.working;
      } in
      let (answers, e) =
        serve_lem kernel json convert_time llhttp plugin requests set first str parser parser' h w
          (received fd w).1 finds.idle live finds.there
          (ap (λ r. (r, (received fd w).1)) finds.given) finds.parsed in
      (_, e, (refl, answers.delivered, answers.idle))

  serve_all-AllDone :
      (set : List ℕ) (ts : List Turn) (w : World K S)
      → Turns set ts w
      → (cs : List (Peer kernel json convert_time llhttp plugin)) × (w' : World K S) × (serve_all
            server_env set
            (map peer_of ts)
            w
          ≡ (cs, w'))
        × AllDone ts cs w
        × (w'.drivers ≡ drivers_behind ts w.drivers)
  unfolding serve_all
  serve_all-AllDone set [] w finds = ([], w, refl, tt, refl)
  serve_all-AllDone set (t ∷ ts) w (finds, later) =
      let (c, e, done) = serve-Done set t w finds in
      let (cs, w', e', all_done, drivers) = serve_all-AllDone set ts (behind t w) later in
      (
        c ∷ cs,
        w',
        ap
              (λ (r : Option (Peer kernel json convert_time llhttp plugin) × World K S).
                let (cs', v) = serve_all server_env set (map peer_of ts) r.1 in
                (cons_kept server_env r.0 cs', v))
              e
            ∙ ap
                (λ (r : List (Peer kernel json convert_time llhttp plugin) × World K S).
                  (c ∷ r.0, r.1))
                e',
        (done, all_done),
        drivers ∙ drivers-behind t ts w,
      )

  -- One call of run in which nobody connects, on the connections of a plugin: if each of them has
  -- nothing to read, or is between requests, on an open socket on which no send fails, and what recv
  -- gives is some POST requests, each of them whole, then run returns 0, and on each connection that
  -- has requests they are all answered in their order, and it is between requests again; the others
  -- are kept as they are. The connections come one after the other, each on the state of the drivers
  -- that the one before it left.
  pub run-AllDone :
      (timeout_ms fd : ℕ) (set : List ℕ) (socket : ℕ) (ts : List Turn) (w w' : World K S)
      → selected server_env timeout_ms (record { socket = socket; connections = map peer_of ts }) w
        ≡ (ready (fd ∷ set), w')
      → is_set socket (fd ∷ set) ≡ false
      → Turns (fd ∷ set) ts w'
      → (cs : List (Peer kernel json convert_time llhttp plugin)) × (w'' : World K S) × (run
            server_env timeout_ms
            (record { socket = socket; connections = map peer_of ts })
            w
          ≡ (0, record { socket = socket; connections = cs }, w''))
        × AllDone ts cs w'
        × (w''.drivers ≡ drivers_behind ts w'.drivers)
  run-AllDone timeout_ms fd set socket ts w w' e quiet finds =
      let (cs, w'', served, done, drivers) = serve_all-AllDone (fd ∷ set) ts w' finds in
      (
        cs,
        w'',
        run-serve_all server_env timeout_ms fd set _ w w' e quiet
            ∙ ap
                (λ (r : List (Peer kernel json convert_time llhttp plugin) × World K S).
                  (0, record { socket = socket; connections = r.0 }, r.1))
                served,
        done,
        drivers,
      )
