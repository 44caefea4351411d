-- ===== src/Tests/Client.antt =====
-- A client of the sample plugin: a volume is created, and then looked for.
use docker_plugin_cpp.Base.{
  Bytes, bytes_eq, if◌then◌else◌, some, ◌≡◌, compare_by, refl, ◌++◌, [], ◌∷◌, concat, none, text,
  false, arith,
}
use docker_plugin_cpp.Volume
use docker_plugin_cpp.Volume.{CreateRequest, GetResponse}
use docker_plugin_cpp.Result.{returned}
use docker_plugin_cpp.Json.{parse_object, string_at, map_at}
use docker_plugin_cpp.Http.Response.Wire.{IsIdle}
use docker_plugin_cpp.Plugin.Handlers.{PluginConnection}
use docker_plugin_cpp.Plugin.Pipelines.{Request}
use docker_plugin_cpp.Sample.Replies.{sample}
use docker_plugin_cpp.Sample.Served.{create-get-seen}
use docker_plugin_cpp.Http.Callbacks.{run_callbacks}
use docker_plugin_cpp.Plugin.Handlers.{methods}
use docker_plugin_cpp.Plugin.Client.{read_answers}
use docker_plugin_cpp.Volume.Reading.{read_get_response}
use docker_plugin_cpp.Volume.ToJson.{to_json_raw}
use docker_plugin_cpp.Plugin.Pipelines.{session_events}
use docker_plugin_cpp.Json.{Picojson, put}
use docker_plugin_cpp.Tests.Values.{json, Value, an_object, field, no_fields, parse_text}
use docker_plugin_cpp.Tests.Wire.{slow, slow-IsLive}
use docker_plugin_cpp.Tests.Requests.{urls, bodies, fields, time}
use docker_plugin_cpp.Tests.Volumes.{
  Disk, disk_files, disk_files-Storage, root, mounted, made, v1_open_ended, v1_absent, v1_made,
  v1_written,
}

abbrev connection : PluginConnection Disk
connection = record {
  channel = slow;
  buffer = [];
  buffer_body = false;
  buffer_headers = false;
  headers = [];
  current_header = none;
  response_status = 200;
  response_message = text "OK";
  response_headers = [];
  response_headers_sent = false;
  response_chunked = false;
  undefined = false;
  derived = record { url = []; drivers = mounted };
}

abbrev creation : Request
creation = record { urls = urls; fields = fields; bodies = bodies }

abbrev look : Request
look = record { urls = text "/VolumeDriver.Get" ∷ []; fields = []; bodies = text "v1" ∷ [] }

abbrev req : CreateRequest
req = record { name = text "v1"; options = [] }

connection-IsIdle : IsIdle connection
connection-IsIdle = record { unsent = refl; unchunked = refl; no_headers = refl }

creation_url : concat urls ≡ text "/VolumeDriver.Create"
unfolding text
creation_url = refl

look_url : concat (look.urls) ≡ text "/VolumeDriver.Get"
unfolding text
look_url = refl

abbrev response : GetResponse
response = record {
  volume = record {
    name = text "v1";
    mountpoint = root ++ text "v1";
    created_at = 1700000000;
    status = [];
  };
}

-- picojson, which reads back the text of that response.
abbrev answered : Value
answered = an_object (field (text "Volume") (to_json_raw json time (response.volume)) no_fields)

abbrev answering : Picojson
answering = record json {
  serialize = λ val. text "volume";
  parse = λ str. if bytes_eq str (text "volume") then ([], answered) else parse_text str;
}

creation_read : Volume.FromJson.create_request answering (concat bodies) ≡ returned req
unfolding Volume.FromJson.create_request parse_object string_at map_at text compare_by bytes_eq
creation_read = refl

look_read :
    Volume.FromJson.get_request answering (concat (look.bodies))
    ≡ returned (record { name = text "v1" })
unfolding Volume.FromJson.get_request parse_object string_at text compare_by bytes_eq
look_read = refl

create-get-seen_example :
    let (finished, h') =
      run_callbacks
        (methods answering time (sample disk_files root answering time))
        (session_events (creation ∷ look ∷ []))
        connection in
    (wire : Bytes) × (body body' : Bytes) × (h'.channel.sent ≡ [] ++ wire)
    × (read_answers 2 wire ≡ some ((200, body) ∷ (200, body') ∷ [], []))
    × (read_get_response answering body'
        ≡ some (record {
          name = text "v1";
          mountpoint = root ++ text "v1";
          created_at = text "2000-01-01T00:00:00Z";
        }))
unfolding put bytes_eq text to_json_raw
create-get-seen_example =
    create-get-seen disk_files root answering time disk_files-Storage creation look req connection
      made connection-IsIdle slow-IsLive creation_url creation_read look_url look_read v1_open_ended
      (omega arith) v1_absent v1_made v1_written refl
