-- ===== src/Plugin/Replies.antt =====
-- What an answer of the plugin puts on the wire.
use docker_plugin_cpp.Base.{
  ℕ, ◌≡◌, refl, ap, ◌++◌, [], Bytes, text, true, false, length, compare_by,
}
use mathlib.Core.Path.{subst}
use docker_plugin_cpp.Base.Digits.{to_string}
use docker_plugin_cpp.Map.{equivalent}
use docker_plugin_cpp.Channel.Writing.{Delivers}
use docker_plugin_cpp.Http.Headers.{HeaderSet, header_rank, to_lower, set}
use docker_plugin_cpp.Http.Status.{message_for}
use docker_plugin_cpp.Http.Response.{response_head, response_status, set_response_header}
use docker_plugin_cpp.Http.Response.Wire.{
  IsLive, IsPlain, IsIdle, IsIdle-IsPlain, finish_with_keeps, finish_with-Delivers,
  set_response_header-IsPlain,
}
use docker_plugin_cpp.Plugin.Handlers.{
  PluginState, PluginConnection, respond, set_content_type, invoke_plugin_handler,
}

-- The bytes of a response with these headers, to which the length is added.
unfoldable pub response_bytes : ℕ → Bytes → HeaderSet → Bytes
response_bytes status response headers =
    response_head status (message_for status [])
      (set (text "content-length") (to_string (length response)) true headers)
    ++ response

-- The answer goes out whole and the connection is ready for the next request.
pub record Answers {S : Type 0} (wire : Bytes) (drivers : S) (h h' : PluginConnection S)
    : Type 0 where
  pub delivered : Delivers wire h.channel h'.channel
  pub idle : IsIdle h'
  pub drivers_after : h'.derived.drivers ≡ drivers
  pub defined : h'.undefined ≡ h.undefined

type_key : equivalent header_rank (text "transfer-encoding") (text "content-type") ≡ false
unfolding text header_rank to_lower compare_by
type_key = refl

-- The headers that a call of a method sets.
abbrev pub content_type : HeaderSet
content_type = set (text "content-type") (text "application/vnd.docker.plugins.v1.1+json") true []

module _ {S : Type 0} where
  response_status-IsPlain :
      (status : ℕ) (msg : Bytes) (h : PluginConnection S)
      → IsPlain h
      → IsPlain (response_status status msg h)
  unfolding response_status
  response_status-IsPlain status msg h p = record {
    unsent = p.unsent;
    unchunked = p.unchunked;
    no_encoding = p.no_encoding;
  }

  pub respond-Answers :
      (status : ℕ) (response : Bytes) (h : PluginConnection S)
      → IsPlain h
      → IsLive h.channel
      → Answers
          (response_bytes status response h.response_headers)
          h.derived.drivers
          h
          (respond (status, response) h)
  unfolding respond response_status response_bytes
  respond-Answers status response h p live =
      let p' = response_status-IsPlain status [] h p in
      let (idle, same, same_undefined) =
        finish_with_keeps response (response_status status [] h) p' in
      record {
        delivered = finish_with-Delivers response (response_status status [] h) p' live;
        idle = idle;
        drivers_after = ap (λ d. d.drivers) same;
        defined = same_undefined;
      }

  pub invoke-Answers :
      (method : Bytes → S → (ℕ × Bytes) × S) (h : PluginConnection S)
      → IsIdle h
      → IsLive h.channel
      → let ((status, response), s) = method h.buffer h.derived.drivers in
        Answers (response_bytes status response content_type) s h (invoke_plugin_handler method h)
  unfolding invoke_plugin_handler set_content_type set_response_header
  invoke-Answers method h idle live =
      let ((status, response), s) = method h.buffer h.derived.drivers in
      let typed = set_content_type h in
      let called = record typed { derived = record typed.derived { drivers = s } } in
      let plain =
        set_response_header-IsPlain (text "content-type") _ h type_key (IsIdle-IsPlain h idle) in
      let answers = respond-Answers status response called (plain_called plain) live in
      record {
        delivered =
            subst
              (λ hs.
                Delivers
                  (response_bytes status response (
                    set (text "content-type") (text "application/vnd.docker.plugins.v1.1+json") true
                      hs))
                  h.channel (respond (status, response) called).channel)
              idle.no_headers answers.delivered;
        idle = answers.idle;
        drivers_after = answers.drivers_after;
        defined = answers.defined;
      }
    where
      plain_called :
          {h : PluginConnection S} {d : PluginState S}
          → IsPlain h
          → IsPlain (record h { derived = d })
      plain_called p = record {
        unsent = p.unsent;
        unchunked = p.unchunked;
        no_encoding = p.no_encoding;
      }
