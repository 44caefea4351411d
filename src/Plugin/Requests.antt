-- ===== src/Plugin/Requests.antt =====
-- A request from its first byte to the last byte of its answer.
use mathlib.Core.Path.{subst}
use docker_plugin_cpp.Base.{
  ℕ, ◌≡◌, refl, sym, ap, ◌∙◌, List, [], ◌∷◌, concat, Option, none, some, Bytes, text, Bool, true,
}
use docker_plugin_cpp.Logger.{info}
use docker_plugin_cpp.Json.{Picojson}
use docker_plugin_cpp.Http.Headers.{HeaderSet}
use docker_plugin_cpp.Http.Connection.{Connection}
use docker_plugin_cpp.Http.Response.Wire.{IsLive, IsIdle, IsIdle-IsPlain}
use docker_plugin_cpp.Http.Callbacks.{
  Event, url, url_complete, message_begin, headers_complete, body, message_complete, Methods,
  callback, run_callbacks,
}
use docker_plugin_cpp.Http.Callbacks.Assembly.{
  pieces, Fields, field_events, add_headers, add_header, run-urls, run-bodies, run-fields,
}
use docker_plugin_cpp.Plugin.Routes.{Endpoint, route}
use docker_plugin_cpp.Plugin.Methods.{Plugin, method_of}
use docker_plugin_cpp.Plugin.Handlers.{
  PluginState, PluginConnection, http_post, log, respond, dispatch, methods, on_message_begin,
  on_url, on_message_complete,
}
use docker_plugin_cpp.Plugin.Replies.{
  Answers, response_bytes, content_type, respond-Answers, invoke-Answers,
}

-- The events of one message: a method, and a URL, headers and a body that come in pieces.
unfoldable pub request_events : ℕ → List Bytes → Fields → List Bytes → List Event
request_events method urls fields bodies =
    message_begin
    ∷ pieces url urls (
        url_complete method
        ∷ field_events fields (headers_complete ∷ pieces body bodies (message_complete ∷ [])))

-- The connection with the headers of a message, and `bytes` in the buffer.
abbrev with_headers : {D : Type 0} → Fields → Bytes → Connection D → Connection D
with_headers fields bytes h = record h {
  buffer = bytes;
  headers = (add_headers fields h).headers;
  current_header = (add_headers fields h).current_header;
}

-- The headers of a message leave all else alone.
add_headers-with_headers :
    {D : Type 0} (fields : Fields) (bytes : Bytes) (h : Connection D)
    → record (add_headers fields h) { buffer = bytes } ≡ with_headers fields bytes h
unfolding add_headers
add_headers-with_headers [] bytes h = refl
add_headers-with_headers ((names, values) ∷ fields) bytes h =
    add_headers-with_headers fields bytes (add_header (concat names) (concat values) h)

module _ (json : Picojson) (convert_time : ℕ → Bytes) {S : Type 0} (plugin : Plugin S) where
  abbrev callbacks : Methods (PluginState S)
  callbacks = methods json convert_time plugin

  -- The connection behind the URL, and when the message is complete.
  abbrev addressed : List Bytes → PluginConnection S → PluginConnection S
  addressed urls h = record h {
    buffer = [];
    buffer_headers = true;
    buffer_body = true;
    derived = record h.derived { url = concat urls };
  }

  abbrev pub assembled : List Bytes → Fields → List Bytes → PluginConnection S → PluginConnection S
  assembled urls fields bodies h = with_headers fields (concat bodies) (addressed urls h)

  -- However the URL, the headers and the body of a POST request are cut into pieces,
  -- on_message_complete is called on a connection that holds the whole URL, every header under its
  -- name in lower case with its own value, and the whole body.
  pub run-post :
      (urls bodies : List Bytes) (fields : Fields) (h : PluginConnection S)
      → run_callbacks callbacks (request_events http_post urls fields bodies) h
        ≡ (true, (on_message_complete json convert_time plugin (assembled urls fields bodies h)).1)
  unfolding request_events run_callbacks callback methods on_message_begin on_url
      on_message_complete
  run-post urls bodies fields h =
      run-urls callbacks urls _
        (record h { buffer = []; buffer_headers = true; buffer_body = true })
      ∙ run-fields callbacks (λ part k. refl) (λ part k. refl) fields _ (addressed urls h) refl refl
      ∙ ap (run_callbacks callbacks (pieces body bodies (message_complete ∷ [])))
          (add_headers-with_headers fields [] (addressed urls h))
      ∙ run-bodies callbacks bodies _ (with_headers fields [] (addressed urls h)) refl

  -- The answer to a URL and a body in a state of the drivers: status, response, headers, new state.
  abbrev pub expected : Option Endpoint → Bytes → S → (ℕ × Bytes × HeaderSet) × S
  expected none str s = ((404, text "Not found", []), s)
  expected (some endpoint) str s =
      let ((status, response), s') = method_of json convert_time plugin endpoint str s in
      ((status, response, content_type), s')

  dispatch-Answers :
      (endpoint : Option Endpoint) (h : PluginConnection S)
      → IsIdle h
      → IsLive h.channel
      → let ((status, response, headers), s) = expected endpoint h.buffer h.derived.drivers in
        Answers
          (response_bytes status response headers)
          s
          h
          (dispatch json convert_time plugin endpoint h)
  unfolding dispatch
  dispatch-Answers none h idle live =
      subst
        (λ hs.
          Answers (response_bytes 404 (text "Not found") hs) h.derived.drivers h
            (respond (404, text "Not found") h))
        idle.no_headers (respond-Answers 404 (text "Not found") h (IsIdle-IsPlain h idle) live)
  dispatch-Answers (some endpoint) h idle live =
      invoke-Answers (method_of json convert_time plugin endpoint) h idle live

  -- The parts of the message and the logger are not seen on the wire.
  unlogged :
      {wire : Bytes} {s : S} (urls : List Bytes) (fields : Fields) (bodies : List Bytes)
      (h : PluginConnection S) {h' : PluginConnection S}
      → Answers wire s (log info (concat urls) (assembled urls fields bodies h)) h'
      → Answers wire s h h'
  unlogged urls fields bodies h a = record {
    delivered = record {
      sent = a.delivered.sent;
      socket = a.delivered.socket;
      closed = a.delivered.closed;
      logger = a.delivered.logger;
      working = a.delivered.working;
    };
    idle = a.idle;
    drivers_after = a.drivers_after;
    defined = a.defined;
  }

  -- A POST request on an idle connection, in any pieces: exactly one answer goes out, whole, with
  -- the status, the response and the headers that the URL and the body call for; the drivers are in
  -- the state that the method leaves, and the connection is idle again.
  pub request-Answers :
      (urls bodies : List Bytes) (fields : Fields) (h : PluginConnection S)
      → IsIdle h
      → IsLive h.channel
      → let ((status, response, headers), s) =
          expected (route (concat urls)) (concat bodies) h.derived.drivers in
        let (finished, h') =
          run_callbacks callbacks (request_events http_post urls fields bodies) h in
        (finished ≡ true) × Answers (response_bytes status response headers) s h h'
  unfolding on_message_complete
  request-Answers urls bodies fields h idle live =
      let k = log info (concat urls) (assembled urls fields bodies h) in
      let answers =
        dispatch-Answers (route (concat urls)) k
          (record {
            unsent = idle.unsent;
            unchunked = idle.unchunked;
            no_headers = idle.no_headers;
          })
          (record { fd = live.fd; is_open = live.is_open; working = live.working }) in
      let e = run-post urls bodies fields h in
      let ((status, response, headers), s) =
        expected (route (concat urls)) (concat bodies) h.derived.drivers in
      (
        ap (λ (r : Bool × PluginConnection S). r.0) e,
        subst
            (λ (r : Bool × PluginConnection S).
              Answers (response_bytes status response headers) s h r.1)
            (sym e) (unlogged urls fields bodies h answers),
      )
