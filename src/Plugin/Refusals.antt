-- ===== src/Plugin/Refusals.antt =====
-- A request that is no POST, and the end of a connection on which the parser stops.
use mathlib.Core.Path.{subst}
use docker_plugin_cpp.Base.{
  ℕ, ◌≡◌, ◌≢◌, sym, ap, ◌∙◌, ◌++◌, List, [], ◌∷◌, concat, none, Bytes, text, Bool, true, false,
  arith, ◌==◌, not, ◌&&◌, if◌then◌else◌, if_true, if_false,
}
use docker_plugin_cpp.Logger.{warning}
use docker_plugin_cpp.Json.{Picojson}
use docker_plugin_cpp.Channel.{close-socket}
use docker_plugin_cpp.Channel.Writing.{Delivers}
use docker_plugin_cpp.Http.Connection.{Connection}
use docker_plugin_cpp.Http.Response.Wire.{IsLive, IsIdle, IsIdle-IsPlain}
use docker_plugin_cpp.Http.Callbacks.{
  Event, url, url_complete, message_begin, Methods, callback, run_callbacks, Llhttp, on_read,
}
use docker_plugin_cpp.Http.Callbacks.Assembly.{pieces, run-urls}
use docker_plugin_cpp.Plugin.Methods.{Plugin}
use docker_plugin_cpp.Plugin.Handlers.{
  PluginConnection, http_post, log, respond, methods, on_message_begin, on_url,
}
use docker_plugin_cpp.Plugin.Replies.{Answers, response_bytes, respond-Answers}

module _ (json : Picojson) (convert_time : ℕ → Bytes) {S : Type 0} (plugin : Plugin S) where
  abbrev refused : Bytes → PluginConnection S → PluginConnection S
  refused u h =
      respond (405, text "Method not allowed")
        (log warning (text "Get a non post request for '" ++ u ++ text "'")
          (record h { buffer = u; buffer_headers = true; buffer_body = true }))

  on_url_other :
      (method : ℕ) (u : Bytes) (h : PluginConnection S)
      → method ≢ http_post
      → on_url json convert_time plugin method u h ≡ (
        1,
        respond
            (405, text "Method not allowed")
            (log warning (text "Get a non post request for '" ++ u ++ text "'") h),
      )
  unfolding on_url respond
  on_url_other method u h other =
      let test : not (method == http_post) ≡ true = ground arith in if_true _ _ test

  abbrev after_url : List Event → ℕ × PluginConnection S → Bool × PluginConnection S
  after_url rest (res, h) =
      let finished =
        run_callbacks (methods json convert_time plugin) rest (record h { buffer = [] }) in
      if res == 0 then finished else (false, record h { buffer = [] })

  run-other :
      (method : ℕ) (urls : List Bytes) (rest : List Event) (h : PluginConnection S)
      → method ≢ http_post
      → run_callbacks
          (methods json convert_time plugin)
          (message_begin ∷ pieces url urls (url_complete method ∷ rest))
          h
        ≡ (false, record (refused (concat urls) h) { buffer = [] })
  unfolding run_callbacks callback methods on_message_begin
  run-other method urls rest h other =
      run-urls (methods json convert_time plugin) urls _
        (record h { buffer = []; buffer_headers = true; buffer_body = true })
      ∙ ap (after_url rest) (
          on_url_other method (concat urls)
            (record h { buffer = concat urls; buffer_headers = true; buffer_body = true }) other)

  -- A request with another method than POST, on an idle connection: as soon as its URL is complete,
  -- the answer 405 goes out, the parser stops with an error, and no driver is called.
  pub refusal-Answers :
      (method : ℕ) (urls : List Bytes) (rest : List Event) (h : PluginConnection S)
      → method ≢ http_post
      → IsIdle h
      → IsLive h.channel
      → let (finished, h') =
          run_callbacks
            (methods json convert_time plugin)
            (message_begin ∷ pieces url urls (url_complete method ∷ rest))
            h in
        (finished ≡ false)
        × Answers (response_bytes 405 (text "Method not allowed") []) h.derived.drivers h h'
  refusal-Answers method urls rest h other idle live =
      let e = run-other method urls rest h other in
      let begun =
        log warning (text "Get a non post request for '" ++ concat urls ++ text "'")
          (record h { buffer = concat urls; buffer_headers = true; buffer_body = true }) in
      let idle' : IsIdle begun = record {
        unsent = idle.unsent;
        unchunked = idle.unchunked;
        no_headers = idle.no_headers;
      } in
      let answers =
        respond-Answers 405 (text "Method not allowed") begun (IsIdle-IsPlain begun idle')
          (record { fd = live.fd; is_open = live.is_open; working = live.working }) in
      (
        ap (λ (r : Bool × PluginConnection S). r.0) e,
        subst
            (λ (r : Bool × PluginConnection S).
              Answers (response_bytes 405 (text "Method not allowed") []) h.derived.drivers h r.1)
            (sym e) (unlogged answers),
      )
    where
      unlogged :
          Answers
            (response_bytes 405 (text "Method not allowed") h.response_headers)
            h.derived.drivers
            (log warning
              (text "Get a non post request for '" ++ concat urls ++ text "'")
              (record h { buffer = concat urls; buffer_headers = true; buffer_body = true }))
            (refused (concat urls) h)
          → Answers
              (response_bytes 405 (text "Method not allowed") [])
              h.derived.drivers
              h
              (record (refused (concat urls) h) { buffer = [] })
      unlogged a = record {
        delivered =
            subst
              (λ hs.
                Delivers (response_bytes 405 (text "Method not allowed") hs) h.channel
                  (refused (concat urls) h).channel)
              idle.no_headers
              (record {
                sent = a.delivered.sent;
                socket = a.delivered.socket;
                closed = a.delivered.closed;
                logger = a.delivered.logger;
                working = a.delivered.working;
              });
        idle = record {
          unsent = a.idle.unsent;
          unchunked = a.idle.unchunked;
          no_headers = a.idle.no_headers;
        };
        drivers_after = a.drivers_after;
        defined = a.defined;
      }

module _ {D : Type 0} (llhttp : Llhttp) (m : Methods D) where
  open llhttp use {State, execute}

  -- on_read closes the socket if the parser or a callback stops it, and only then: otherwise the
  -- connection is as the callbacks left it.
  pub on_read-closes :
      (bytes : Bytes) (parser : State) (h : Connection D)
      → let (events, accepted, parser') = execute parser bytes in
        let (finished, h') = run_callbacks m events h in
        let after = (on_read llhttp m bytes (parser, h)).1 in
        ((finished && accepted) ≡ true → after ≡ h')
        × ((finished && accepted) ≡ false → after.channel.socket ≡ none)
  unfolding on_read
  on_read-closes bytes parser h = (
    λ e. if_true _ _ e,
    λ e. ap (λ (k : Connection D). k.channel.socket) (if_false _ _ e) ∙ close-socket _,
  )
