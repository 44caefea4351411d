-- ===== src/Tests/Requests.antt =====
-- Requests to a plugin with a small volume driver.
use docker_plugin_cpp.Base.{
  inl, ℕ, suc, ◌≡◌, ◌↔◌, refl, List, [], ◌∷◌, concat, none, some, Bytes, text, compare_by, true,
  false, arith,
}
use docker_plugin_cpp.Result.{Result, returned, threw, standard, ErrorResponse}
use docker_plugin_cpp.Volume
use docker_plugin_cpp.Volume.FromJson.{create_request}
use docker_plugin_cpp.Messages.{ActivateResponse, error_response}
use docker_plugin_cpp.Json.{parse_object, put}
use docker_plugin_cpp.Map
use docker_plugin_cpp.Http.Response.Wire.{IsIdle}
use docker_plugin_cpp.Http.Callbacks.{message_begin, url, url_complete, run_callbacks}
use docker_plugin_cpp.Http.Callbacks.Assembly.{pieces, Fields}
use docker_plugin_cpp.Plugin.Routes.{volume_create, network_leave, route}
use docker_plugin_cpp.Plugin.Routes.Reachable.{url_of, route_iff}
use docker_plugin_cpp.Plugin.Methods.{Plugin, method_of, plugin_activate, perform, call, answer}
use docker_plugin_cpp.Plugin.Handlers.{PluginConnection, http_post, methods, on_message_complete}
use docker_plugin_cpp.Plugin.Replies.{Answers, response_bytes, content_type}
use docker_plugin_cpp.Plugin.Requests.{
  request_events, expected, assembled, run-post, request-Answers,
}
use docker_plugin_cpp.Plugin.Registration.{network, is_registered, method_of-unregistered}
use docker_plugin_cpp.Plugin.Malformed.{NotObject, method_of-malformed}
use docker_plugin_cpp.Plugin.Activation.{family_name, contains, plugin_activate_lem}
use docker_plugin_cpp.Plugin.Refusals.{refusal-Answers}
use docker_plugin_cpp.Tests.Values.{json}
use docker_plugin_cpp.Tests.Wire.{slow, slow-IsLive}

abbrev pub no_error : Result ErrorResponse
no_error = returned (record { status = 0; error = [] })

-- A driver that counts the volumes that it made.
abbrev pub driver : Volume.Driver ℕ
driver = record {
  create = λ request made. (no_error, suc made);
  list = λ made. (returned (record { volumes = [] }), made);
  get = λ request made. (threw (standard (text "no such volume")), made);
  remove = λ request made. (no_error, made);
  path = λ request made. (returned (record { mountpoint = [] }), made);
  mount = λ request made. (returned (record { mountpoint = text "/mnt" }), made);
  unmount = λ request made. (no_error, made);
  capabilities =
      λ made. (returned (record { capabilities = record { scope = text "local" } }), made);
}

abbrev pub plugin : Plugin ℕ
plugin = record { volume_driver = some driver; network_driver = none; ipam_driver = none }

abbrev pub time : ℕ → Bytes
time seconds = text "2000-01-01T00:00:00Z"

abbrev pub connection : PluginConnection ℕ
connection = record {
  channel = slow;
  buffer = [];
  buffer_body = false;
  buffer_headers = false;
  headers = [];
  current_header = none;
  response_status = 200;
  response_message = text "OK";
  response_headers = [];
  response_headers_sent = false;
  response_chunked = false;
  undefined = false;
  derived = record { url = []; drivers = 0 };
}

pub connection-IsIdle : IsIdle connection
connection-IsIdle = record { unsent = refl; unchunked = refl; no_headers = refl }

-- The URL comes in two pieces, and so does the body.
abbrev pub urls : List Bytes
urls = text "/VolumeDriver" ∷ text ".Create" ∷ []

abbrev pub bodies : List Bytes
bodies = text "v" ∷ text "1" ∷ []

abbrev pub fields : Fields
fields = (text "Host" ∷ [], text "doc" ∷ text "ker" ∷ []) ∷ []

run-post_example :
    run_callbacks
      (methods json time plugin)
      (request_events http_post urls fields bodies)
      connection
    ≡ (
      true,
      (on_message_complete json time plugin
          (assembled json time plugin urls fields bodies connection)).1,
    )
run-post_example = run-post json time plugin urls bodies fields connection

request-Answers_example :
    let ((status, response, headers), made) =
      expected json time plugin (route (concat urls)) (concat bodies) 0 in
    let (finished, h) =
      run_callbacks
        (methods json time plugin)
        (request_events http_post urls fields bodies)
        connection in
    (finished ≡ true) × Answers (response_bytes status response headers) made connection h
request-Answers_example =
    request-Answers json time plugin urls bodies fields connection connection-IsIdle slow-IsLive

-- The method of that URL is called: there is one volume then.
expected_test :
    expected json time plugin (some volume_create) (text "v1") 0
    ≡ ((200, text "Err:", content_type), 1)
unfolding method_of perform call answer create_request error_response parse_object put text
    Map.lookup Map.assign compare_by
expected_test = refl

refusal-Answers_example :
    let (finished, h) =
      run_callbacks
        (methods json time plugin)
        (message_begin ∷ pieces url urls (url_complete 1 ∷ []))
        connection in
    (finished ≡ false) × Answers (response_bytes 405 (text "Method not allowed") []) 0 connection h
refusal-Answers_example =
    refusal-Answers json time plugin 1 urls [] connection (λ e. absurd (omega arith))
      connection-IsIdle slow-IsLive

route_iff_example :
    (route (text "/VolumeDriver.Create") ≡ some volume_create)
    ↔ (text "/VolumeDriver.Create" ≡ url_of volume_create)
route_iff_example = route_iff (text "/VolumeDriver.Create") volume_create

-- There is no network driver.
method_of-unregistered_example :
    method_of json time plugin network_leave (text "{}") 2 ≡ ((404, text "Not found"), 2)
method_of-unregistered_example =
    method_of-unregistered json time plugin network_leave (text "{}") 2 refl

-- An empty body is not JSON.
empty_is_malformed : NotObject json [] (text "syntax error")
unfolding text
empty_is_malformed = ((json.parse []).1, inl (refl, refl))

method_of-malformed_example :
    method_of json time plugin volume_create [] 2
    ≡ ((400, error_response json (record { status = 0; error = text "syntax error" })), 2)
method_of-malformed_example =
    method_of-malformed json time plugin volume_create [] (text "syntax error") 2 refl refl
      empty_is_malformed

plugin_activate_example :
    (response : ActivateResponse) × (plugin_activate json time plugin 2 ≡ (returned response, 2))
    × (contains (family_name network) response.implements ≡ is_registered plugin network)
plugin_activate_example = plugin_activate_lem json time plugin network 2
