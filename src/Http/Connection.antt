-- ===== src/Http/Connection.antt =====
-- The state of http_connection, with that of its subclass.
use docker_plugin_cpp.Base.{ℕ, [], Option, none, Bytes, text, Bool, false}
use docker_plugin_cpp.Channel.{Channel, write}
use docker_plugin_cpp.Http.Headers.{HeaderSet}

pub record Connection (D : Type 0) : Type 0 where
  pub channel : Channel
  pub buffer : Bytes
  pub buffer_body : Bool
  pub buffer_headers : Bool
  pub headers : HeaderSet
  -- m_current_header: the place of its entry, or `none` for `{}`
  pub current_header : Option ℕ
  pub response_status : ℕ
  pub response_message : Bytes
  pub response_headers : HeaderSet
  pub response_headers_sent : Bool
  pub response_chunked : Bool
  -- set when the code writes through an iterator that refers to no entry
  pub undefined : Bool
  -- the members of the subclass
  pub derived : D

-- http_connection::http_connection, on a channel that was just accepted
unfoldable pub connect : {D : Type 0} → Channel → D → Connection D
connect channel derived = record {
  channel = channel;
  buffer = [];
  buffer_body = false;
  buffer_headers = false;
  headers = [];
  current_header = none;
  response_status = 200;
  response_message = text "OK";
  response_headers = [];
  response_headers_sent = false;
  response_chunked = false;
  undefined = false;
  derived = derived;
}

-- this->write, whose result the callers ignore
unfoldable pub transmit : {D : Type 0} → Bytes → Connection D → Connection D
transmit bytes h = record h { channel = (write bytes h.channel).1 }
