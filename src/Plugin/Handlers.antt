-- ===== src/Plugin/Handlers.antt =====
-- plugin_http_connection: the overridden callbacks, and the call of a driver's method.
use docker_plugin_cpp.Base.{
  ℕ, ◌++◌, [], Option, none, some, Bytes, text, true, not, ◌==◌, if◌then◌else◌,
}
use docker_plugin_cpp.Logger.{Level, info, warning}
use docker_plugin_cpp.Channel.{log_if}
use docker_plugin_cpp.Http.Connection.{Connection}
use docker_plugin_cpp.Http.Response.{response_status, set_response_header, finish_with}
use docker_plugin_cpp.Http.Callbacks.{Methods}
use docker_plugin_cpp.Json.{Picojson}
use docker_plugin_cpp.Plugin.Routes.{Endpoint, route}
use docker_plugin_cpp.Plugin.Methods.{Plugin, method_of}

-- The members of plugin_http_connection, and the state of the drivers that its plugin refers to.
pub record PluginState (S : Type 0) : Type 0 where
  pub url : Bytes
  pub drivers : S

abbrev pub PluginConnection : Type 0 → Type 0
PluginConnection S = Connection (PluginState S)

-- HTTP_POST of llhttp_method
abbrev pub http_post : ℕ
http_post = 3

-- m_plugin->m_logger->log, where there is a logger
abbrev pub log : {S : Type 0} → Level → Bytes → PluginConnection S → PluginConnection S
log level message h = record h { channel = log_if h.channel.logger level message h.channel }

module _ {S : Type 0} where
  unfoldable pub respond : ℕ × Bytes → PluginConnection S → PluginConnection S
  respond (status, response) h = finish_with response (response_status status [] h)

  -- response_headers().set("content-type", …)
  unfoldable pub set_content_type : PluginConnection S → PluginConnection S
  set_content_type h =
      set_response_header (text "content-type") (text "application/vnd.docker.plugins.v1.1+json") h

  -- The rest of invoke_plugin_handler: the content type before the call, the answer behind it.
  unfoldable pub invoke_plugin_handler :
      (Bytes → S → (ℕ × Bytes) × S) → PluginConnection S → PluginConnection S
  invoke_plugin_handler method h =
      let h' = set_content_type h in
      let (result, s) = method h'.buffer h'.derived.drivers in
      respond result (record h' { derived = record h'.derived { drivers = s } })

module _ (json : Picojson) (convert_time : ℕ → Bytes) {S : Type 0} (plugin : Plugin S) where
  unfoldable pub on_message_begin : PluginConnection S → ℕ × PluginConnection S
  on_message_begin h = (0, record h { buffer_headers = true; buffer_body = true })

  unfoldable pub on_url : ℕ → Bytes → PluginConnection S → ℕ × PluginConnection S
  on_url method url h =
      if not (method == http_post)
      then (
        1,
        finish_with (text "Method not allowed") (
            response_status 405 []
              (log warning (text "Get a non post request for '" ++ url ++ text "'") h)),
      )
      else (0, record h { derived = record h.derived { url = url } })

  -- The chain of else-if on m_url.
  unfoldable pub dispatch : Option Endpoint → PluginConnection S → PluginConnection S
  dispatch (some endpoint) h = invoke_plugin_handler (method_of json convert_time plugin endpoint) h
  dispatch none h = respond (404, text "Not found") h

  unfoldable pub on_message_complete : PluginConnection S → ℕ × PluginConnection S
  on_message_complete h = (0, dispatch (route h.derived.url) (log info h.derived.url h))

  unfoldable pub methods : Methods (PluginState S)
  methods = record {
    on_message_begin = on_message_begin;
    on_url = on_url;
    on_header_field = λ field h. (0, h);
    on_header_value = λ value h. (0, h);
    on_headers_complete = λ h. (0, h);
    on_body = λ part h. (0, h);
    on_message_complete = on_message_complete;
  }
