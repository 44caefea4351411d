-- ===== src/Plugin/Sockets.antt =====
-- The socket over the plugin's callbacks.
use docker_plugin_cpp.Base.{ℕ, refl, Bytes, text, Option, none, some, not, ◌==◌}
use docker_plugin_cpp.Json.{Picojson}
use docker_plugin_cpp.Logger.{Level, info}
use docker_plugin_cpp.Http.Response.{response_status, set_response_header}
use docker_plugin_cpp.Http.Response.Sockets.{
  SameSocket, SameSocket-refl, SameSocket-trans, finish_with-SameSocket,
}
use docker_plugin_cpp.Http.Callbacks.Sockets.{KeepsSocket, branch_of_pair}
use docker_plugin_cpp.Plugin.Routes.{Endpoint, route}
use docker_plugin_cpp.Plugin.Methods.{Plugin}
use docker_plugin_cpp.Plugin.Handlers.{
  PluginConnection, http_post, log, respond, set_content_type, invoke_plugin_handler,
  on_message_begin, on_url, dispatch, on_message_complete, methods,
}

module _ {S : Type 0} where
  respond-SameSocket :
      (status : ℕ) (response : Bytes) (h : PluginConnection S)
      → SameSocket h (respond (status, response) h)
  unfolding respond response_status
  respond-SameSocket status response h =
      SameSocket-trans (record { same = refl }) (finish_with-SameSocket response _)

  log-SameSocket :
      (level : Level) (message : Bytes) (h : PluginConnection S)
      → SameSocket h (log level message h)
  log-SameSocket level message h = record { same = refl }

  invoke-SameSocket :
      (method : Bytes → S → (ℕ × Bytes) × S) (h : PluginConnection S)
      → SameSocket h (invoke_plugin_handler method h)
  unfolding invoke_plugin_handler set_content_type set_response_header
  invoke-SameSocket method h = SameSocket-trans (record { same = refl }) (respond-SameSocket _ _ _)

module _ (json : Picojson) (convert_time : ℕ → Bytes) {S : Type 0} (plugin : Plugin S) where
  dispatch-SameSocket :
      (endpoint : Option Endpoint) (h : PluginConnection S)
      → SameSocket h (dispatch json convert_time plugin endpoint h)
  unfolding dispatch
  dispatch-SameSocket none h = respond-SameSocket _ _ h
  dispatch-SameSocket (some endpoint) h = invoke-SameSocket _ h

  on_url-SameSocket :
      (method : ℕ) (u : Bytes) (h : PluginConnection S)
      → SameSocket h (on_url json convert_time plugin method u h).1
  unfolding on_url response_status
  on_url-SameSocket method u h =
      branch_of_pair (not (method == http_post)) _ _
        (SameSocket-trans (record { same = refl })
          (finish_with-SameSocket (text "Method not allowed") _))
        (record { same = refl })

  on_message_complete-SameSocket :
      (h : PluginConnection S) → SameSocket h (on_message_complete json convert_time plugin h).1
  unfolding on_message_complete
  on_message_complete-SameSocket h =
      SameSocket-trans (log-SameSocket info h.derived.url h)
        (dispatch-SameSocket (route h.derived.url) _)

  pub methods-KeepsSocket : KeepsSocket (methods json convert_time plugin)
  unfolding methods on_message_begin
  methods-KeepsSocket = record {
    message_begin = λ h. record { same = refl };
    on_url = on_url-SameSocket;
    header_field = λ field h. SameSocket-refl h;
    header_value = λ value h. SameSocket-refl h;
    headers_complete = SameSocket-refl;
    on_body = λ part h. SameSocket-refl h;
    message_complete = on_message_complete-SameSocket;
  }
