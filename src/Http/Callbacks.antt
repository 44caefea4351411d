-- ===== src/Http/Callbacks.antt =====
-- The callbacks of get_settings, and on_read, which runs the parser. The parser is llhttp: an
-- argument that turns bytes into the events of the callbacks.
pub mod Assembly
pub mod Sockets
use docker_plugin_cpp.Base.{
  ℕ, zero, suc, ◌++◌, List, [], ◌∷◌, map, length, ltb, Option, none, some, Bytes, Bool, true, false,
  ◌&&◌, ◌==◌, if◌then◌else◌,
}
use docker_plugin_cpp.Map.{Map, emplace, emplace_at}
use docker_plugin_cpp.Channel.{close}
use docker_plugin_cpp.Http.Headers.{HeaderSet, to_lower, header_rank}
use docker_plugin_cpp.Http.Connection.{Connection}

-- The methods that a subclass overrides; each returns an int, and 0 lets the parser go on.
pub record Methods (D : Type 0) : Type 0 where
  pub on_message_begin : Connection D → ℕ × Connection D
  -- the method, as llhttp numbers it, and the URL
  pub on_url : ℕ → Bytes → Connection D → ℕ × Connection D
  pub on_header_field : Bytes → Connection D → ℕ × Connection D
  pub on_header_value : Bytes → Connection D → ℕ × Connection D
  pub on_headers_complete : Connection D → ℕ × Connection D
  pub on_body : Bytes → Connection D → ℕ × Connection D
  pub on_message_complete : Connection D → ℕ × Connection D

-- Those of http_connection itself.
unfoldable pub default_methods : {D : Type 0} → Methods D
default_methods = record {
  on_message_begin = λ h. (0, h);
  on_url = λ method url h. (0, h);
  on_header_field = λ field h. (0, h);
  on_header_value = λ value h. (0, h);
  on_headers_complete = λ h. (0, h);
  on_body = λ part h. (0, h);
  on_message_complete = λ h. (0, h);
}

-- A call of a callback by the parser.
pub data Event : Type 0 where
  message_begin : Event
  url : Bytes → Event
  url_complete : ℕ → Event
  header_field : Bytes → Event
  header_field_complete : Event
  header_value : Bytes → Event
  header_value_complete : Event
  headers_complete : Event
  body : Bytes → Event
  message_complete : Event

-- m_current_header->second = value; an iterator that refers to no entry makes it undefined
unfoldable pub set_value : ℕ → Bytes → HeaderSet → HeaderSet
set_value i value [] = []
set_value zero value ((key, old) ∷ hs) = (key, value) ∷ hs
set_value (suc i) value (entry ∷ hs) = entry ∷ set_value i value hs

module _ {D : Type 0} where
  unfoldable pub append_buffer : Bytes → Connection D → ℕ × Connection D
  append_buffer bytes h = (0, record h { buffer = h.buffer ++ bytes })

  abbrev clear_buffer : Connection D → Connection D
  clear_buffer h = record h { buffer = [] }

  -- m_current_header = m_headers.raw().emplace(…)
  unfoldable pub store_field : Connection D → Connection D
  store_field h =
      let key = map to_lower h.buffer in
      record h {
        headers = emplace header_rank key [] h.headers;
        current_header = some (emplace_at header_rank key h.headers);
      }

  unfoldable pub write_value : Option ℕ → Connection D → Connection D
  write_value none h = record h { undefined = true }
  write_value (some i) h =
      if ltb i (length h.headers) then record h { headers = set_value i h.buffer h.headers } else h

  unfoldable pub store_value : Connection D → Connection D
  store_value h = write_value h.current_header h

  module _ (m : Methods D) where
    unfoldable pub callback : Event → Connection D → ℕ × Connection D
    callback message_begin h = m.on_message_begin (clear_buffer h)
    callback (url at) h = append_buffer at h
    callback (url_complete method) h =
        let (res, h') = m.on_url method h.buffer h in (res, clear_buffer h')
    callback (header_field at) h = append_buffer at h
    callback header_field_complete h =
        let (res, h') = m.on_header_field h.buffer h in
        (res, clear_buffer (if h'.buffer_headers then store_field h' else h'))
    callback (header_value at) h = append_buffer at h
    callback header_value_complete h =
        let (res, h') = m.on_header_value h.buffer h in
        (res, clear_buffer (if h'.buffer_headers then store_value h' else h'))
    callback headers_complete h = m.on_headers_complete (clear_buffer h)
    callback (body at) h = if h.buffer_body then append_buffer at h else m.on_body at h
    callback message_complete h =
        if h.buffer_body
        then (let (res, h') = m.on_body h.buffer h in
            if res == 0 then m.on_message_complete h' else (res, h'))
        else m.on_message_complete (clear_buffer h)

    -- The parser stops at a callback that does not return 0.
    unfoldable pub run_callbacks : List Event → Connection D → Bool × Connection D
    run_callbacks [] h = (true, h)
    run_callbacks (event ∷ events) h =
        let (res, h') = callback event h in
        let rest = run_callbacks events h' in if res == 0 then rest else (false, h')

-- llhttp_execute, as far as it does not run the callbacks: the events in the bytes, whether they
-- are in order, and the parser's state behind them.
pub record Llhttp : Type 1 where
  pub State : Type 0
  pub init : State
  pub execute : State → Bytes → List Event × Bool × State

module _ {D : Type 0} (llhttp : Llhttp) (m : Methods D) where
  open llhttp use {State, execute}

  -- m_parser and the rest of the connection
  unfoldable pub on_read : Bytes → State × Connection D → State × Connection D
  on_read bytes (parser, h) =
      let (events, accepted, parser') = execute parser bytes in
      let (finished, h') = run_callbacks m events h in
      (parser', if finished && accepted then h' else record h' { channel = close h'.channel })
