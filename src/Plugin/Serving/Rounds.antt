-- ===== src/Plugin/Serving/Rounds.antt =====
-- A round of the server on one of the plugin's connections that has requests to read.
use docker_plugin_cpp.Base.{
  ℕ, ◌≡◌, refl, ap, ◌∙◌, ◌&&◌, List, ◌∷◌, Option, none, some, Bytes, Bool, true, false, length,
  if◌then◌else◌, if_true,
}
use docker_plugin_cpp.Json.{Picojson}
use docker_plugin_cpp.Logger.{debug}
use docker_plugin_cpp.Channel.{close}
use docker_plugin_cpp.Channel.Writing.{Delivers}
use docker_plugin_cpp.Http.Callbacks.{Event, Llhttp, on_read, run_callbacks}
use docker_plugin_cpp.Http.Response.Wire.{IsLive, IsIdle}
use docker_plugin_cpp.Server.{
  Environment, Received, bytes, is_set, in_message, serve, serve_fd, handle_io, handle_fd,
  handle_received, keep_or_destroy, is_closed, buffer_size,
}
use docker_plugin_cpp.Plugin.Methods.{Plugin}
use docker_plugin_cpp.Plugin.Handlers.{PluginConnection, methods}
use docker_plugin_cpp.Plugin.Replies.{Answers}
use docker_plugin_cpp.Plugin.Pipelines.{Request, session_events, session_replies, session-Answers}
use docker_plugin_cpp.Plugin.Serving.{Kernel, World, Peer, give_up, read_peer, environment}

module _ {K S : Type 0} (kernel : Kernel K) (json : Picojson) (convert_time : ℕ → Bytes)
    (llhttp : Llhttp) (plugin : Plugin S) where
  -- The connection on which the callbacks run: its drivers are those of the world.
  abbrev pub informed : PluginConnection S → World K S → PluginConnection S
  informed h w = record h { derived = record h.derived { drivers = w.drivers } }

  abbrev pub answered : List Request → PluginConnection S → World K S → PluginConnection S
  answered requests h w =
      (run_callbacks (methods json convert_time plugin) (session_events requests) (informed h w)).1

  abbrev settle :
      PluginConnection S → List Event × Bool × llhttp.State → llhttp.State × PluginConnection S
  settle h (events, accepted, parser) =
      let (finished, h') = run_callbacks (methods json convert_time plugin) events h in
      (parser, if finished && accepted then h' else record h' { channel = close h'.channel })

  on_read_lem :
      (requests : List Request) (str : Bytes) (parser parser' : llhttp.State)
      (h : PluginConnection S)
      → llhttp.execute parser str ≡ (session_events requests, true, parser')
      → (run_callbacks (methods json convert_time plugin) (session_events requests) h).0 ≡ true
      → on_read llhttp (methods json convert_time plugin) str (parser, h) ≡ (
        parser',
        (run_callbacks (methods json convert_time plugin) (session_events requests) h).1,
      )
  unfolding on_read
  on_read_lem requests str parser parser' h parsed finished =
      ap (settle h) parsed
      ∙ ap
          (λ b. (
            parser',
            if b && true
                then (run_callbacks (methods json convert_time plugin) (session_events requests)
                    h).1
                else record (run_callbacks (methods json convert_time plugin)
                    (session_events requests) h).1 {
                      channel =
                          close
                            (run_callbacks (methods json convert_time plugin)
                              (session_events requests) h).1.channel;
                    },
          ))
          finished

  give_up_same :
      (before after : Option ℕ) (w : World K S) → after ≡ before → give_up kernel before after w ≡ w
  unfolding give_up
  give_up_same none after w e = refl
  give_up_same (some fd) none w e = cc
  give_up_same (some fd) (some fd') w e = refl

  informed-IsIdle : (h : PluginConnection S) (w : World K S) → IsIdle h → IsIdle (informed h w)
  informed-IsIdle h w i = record {
    unsent = i.unsent;
    unchunked = i.unchunked;
    no_headers = i.no_headers;
  }

  abbrev told :
      Option ℕ
      → World K S
      → llhttp.State × PluginConnection S
      → Peer kernel json convert_time llhttp plugin × World K S
  told before w (parser, h) = (
    (parser, h),
    give_up kernel before h.channel.socket (record w { drivers = h.derived.drivers }),
  )

  read_peer_lem :
      (requests : List Request) (str : Bytes) (parser parser' : llhttp.State)
      (h : PluginConnection S) (w : World K S)
      → IsIdle h
      → IsLive h.channel
      → llhttp.execute parser str ≡ (session_events requests, true, parser')
      → let (wire, s) = session_replies json convert_time plugin requests w.drivers in
        Answers wire s (informed h w) (answered requests h w)
        × (read_peer kernel json convert_time llhttp plugin str ((parser, h), w)
            ≡ ((parser', answered requests h w), record w { drivers = s }))
  unfolding read_peer
  read_peer_lem requests str parser parser' h w idle live parsed =
      let (finished, answers) =
        session-Answers json convert_time plugin requests (informed h w) (informed-IsIdle h w idle)
          live in
      (
        answers,
        ap (told h.channel.socket w)
              (on_read_lem requests str parser parser' (informed h w) parsed finished)
            ∙ ap (λ v. ((parser', answered requests h w), v))
                (give_up_same h.channel.socket (answered requests h w).channel.socket _
                    answers.delivered.socket
                  ∙ ap (λ d. record w { drivers = d }) answers.drivers_after),
      )

  abbrev pub env : Environment (Peer kernel json convert_time llhttp plugin) (World K S)
  env = environment kernel json convert_time llhttp plugin

  -- handle_io where recv gives the bytes of some requests.
  handle_io_lem :
      (requests : List Request) (first : ℕ) (str : Bytes) (parser parser' : llhttp.State)
      (h : PluginConnection S) (w : World K S) (k : K)
      → IsIdle h
      → (live : IsLive h.channel)
      → kernel.recv live.fd (buffer_size env) w.kernel ≡ (bytes (first ∷ str), k)
      → llhttp.execute parser (first ∷ str) ≡ (session_events requests, true, parser')
      → let (wire, s) = session_replies json convert_time plugin requests w.drivers in
        Answers wire s (informed h w) (answered requests h w)
        × (handle_io env ((parser, h), w) ≡ (
          false,
          (parser', answered requests h w),
          record {
            kernel = kernel.log debug (in_message env live.fd (length (first ∷ str))) k;
            drivers = s;
          },
        ))
  unfolding handle_io handle_fd handle_received environment
  handle_io_lem requests first str parser parser' h w k idle live received parsed =
      let w' : World K S = record w {
        kernel = kernel.log debug (in_message env live.fd (length (first ∷ str))) k;
      } in
      let (answers, e) =
        read_peer_lem requests (first ∷ str) parser parser' h w' idle live parsed in
      (
        answers,
        ap (λ fd. handle_fd env fd ((parser, h), w)) live.is_open
            ∙ ap
                (λ (r : Received × K).
                  handle_received env live.fd r.0 ((parser, h), record w { kernel = r.1 }))
                received
            ∙ ap
                (λ (r : Peer kernel json convert_time llhttp plugin × World K S).
                  (is_closed env (env.get_fd r.0), r.0, r.1))
                e
            ∙ ap
                (λ o. (
                  is_closed env o,
                  (parser', answered requests h w),
                  record w' {
                    drivers = (session_replies json convert_time plugin requests w.drivers).1;
                  },
                ))
                (answers.delivered.socket ∙ live.is_open),
      )

  -- The world behind the round, if recv leaves the kernel as `k`.
  abbrev pub world_after : List Request → ℕ → Bytes → K → World K S → World K S
  world_after requests fd str k w = record {
    kernel = kernel.log debug (in_message env fd (length str)) k;
    drivers = (session_replies json convert_time plugin requests w.drivers).1;
  }

  pub serve_lem :
      (requests : List Request) (set : List ℕ) (first : ℕ) (str : Bytes)
      (parser parser' : llhttp.State) (h : PluginConnection S) (w : World K S) (k : K)
      → IsIdle h
      → (live : IsLive h.channel) → is_set live.fd set ≡ true
      → kernel.recv live.fd (buffer_size env) w.kernel ≡ (bytes (first ∷ str), k)
      → llhttp.execute parser (first ∷ str) ≡ (session_events requests, true, parser')
      → let (wire, s) = session_replies json convert_time plugin requests w.drivers in
        Answers wire s (informed h w) (answered requests h w)
        × (serve env set ((parser, h), w) ≡ (
          some (parser', answered requests h w),
          world_after requests live.fd (first ∷ str) k w,
        ))
  unfolding serve serve_fd keep_or_destroy environment
  serve_lem requests set first str parser parser' h w k idle live there received parsed =
      let (answers, e) =
        handle_io_lem requests first str parser parser' h w k idle live received parsed in
      (
        answers,
        ap (λ fd. serve_fd env set fd ((parser, h), w)) live.is_open
            ∙ if_true _ _ there
            ∙ ap (keep_or_destroy env live.fd) e,
      )

  -- A connection of a plugin between requests, with an open socket on which no send fails: if its
  -- descriptor is ready, recv gives bytes, and the parser finds in them some POST requests, each of
  -- them whole, then the round answers them all in their order on the state of the drivers, leaves
  -- the drivers in the state behind the last, and keeps the connection, which is between requests
  -- again.
  pub serve-Answers :
      (requests : List Request) (set : List ℕ) (first : ℕ) (str : Bytes)
      (parser parser' : llhttp.State) (h : PluginConnection S) (w : World K S) (k : K)
      → IsIdle h
      → (live : IsLive h.channel) → is_set live.fd set ≡ true
      → kernel.recv live.fd (buffer_size env) w.kernel ≡ (bytes (first ∷ str), k)
      → llhttp.execute parser (first ∷ str) ≡ (session_events requests, true, parser')
      → let (wire, s) = session_replies json convert_time plugin requests w.drivers in
        (h' : PluginConnection S) × (k' : K) × (serve env set ((parser, h), w)
          ≡ (some (parser', h'), record { kernel = k'; drivers = s }))
        × Delivers wire h.channel h'.channel
        × IsIdle h'
  serve-Answers requests set first str parser parser' h w k idle live there received parsed =
      let (answers, e) =
        serve_lem requests set first str parser parser' h w k idle live there received parsed in
      (
        answered requests h w,
        kernel.log debug (in_message env live.fd (length (first ∷ str))) k,
        e,
        answers.delivered,
        answers.idle,
      )
