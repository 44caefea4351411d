-- ===== src/Sample/Served.antt =====
-- The sample's volumes as a client of the plugin sees them, from the requests to the bytes of the
-- answers.
use mathlib.Core.Path.{subst}
use docker_plugin_cpp.Base.{
  ℕ, ◌≤◌, ◌≡◌, ap, ◌∙◌, ◌++◌, [], ◌∷◌, concat, some, Bytes, text, c_str, true, false,
}
use docker_plugin_cpp.Base.Digits.{to_string}
use docker_plugin_cpp.Json.{Picojson}
use docker_plugin_cpp.Result.{returned}
use docker_plugin_cpp.Messages
use docker_plugin_cpp.Volume.{CreateRequest, GetRequest, GetResponse}
use docker_plugin_cpp.Volume
use docker_plugin_cpp.Http.Callbacks.{run_callbacks}
use docker_plugin_cpp.Http.Response.Wire.{IsLive, IsIdle}
use docker_plugin_cpp.Plugin.Routes.{volume_create, volume_get}
use docker_plugin_cpp.Plugin.Handlers.{PluginConnection, methods}
use docker_plugin_cpp.Plugin.Replies.{Answers, response_bytes, content_type}
use docker_plugin_cpp.Plugin.Requests.{expected}
use docker_plugin_cpp.Plugin.Client.{read_answers, session-read_answers}
use docker_plugin_cpp.Volume.ToJson.{to_json_raw}
use docker_plugin_cpp.Volume.Reading.{member, read_get_response, read_get_response_lem}
use docker_plugin_cpp.Plugin.Pipelines.{Request, session_events, session-Answers}
use docker_plugin_cpp.Sample.Files.{Files}
use docker_plugin_cpp.Sample.Util.{is_dir, make_dirs, mode_rwx, ends_in_slash}
use docker_plugin_cpp.Sample.Times.{latest}
use docker_plugin_cpp.Sample.Driver.{create}
use docker_plugin_cpp.Sample.Driver.Volumes.{Storage, said, create-get}
use docker_plugin_cpp.Sample.Replies.{
  sample, create_expected, get_expected, replies_lem, results_lem,
}

module _ {W : Type 0} (files : Files W) (root : Bytes) (json : Picojson)
    (convert_time : ℕ → Bytes) where
  abbrev pub Session : Request → Request → PluginConnection W → Bytes × W → Type 0
  Session first second h (wire, v) =
      let (finished, h') =
        run_callbacks (methods json convert_time (sample files root json convert_time))
          (session_events (first ∷ second ∷ [])) h in
      (finished ≡ true) × Answers wire v h h'

  module _ (storage : Storage files) (first second : Request) (req : CreateRequest)
      (h : PluginConnection W) (w' : W) (idle : IsIdle h) (live : IsLive h.channel)
      (url : concat first.urls ≡ text "/VolumeDriver.Create")
      (parsed : Volume.FromJson.create_request json (concat first.bodies) ≡ returned req)
      (url' : concat second.urls ≡ text "/VolumeDriver.Get")
      (parsed' : Volume.FromJson.get_request json (concat second.bodies)
        ≡ returned (record { name = req.name }))
      (open_ended : ends_in_slash (root ++ req.name) ≡ false) (fits : files.now w' ≤ latest)
      (absent : is_dir files (root ++ req.name) h.derived.drivers ≡ false)
      (made : make_dirs files
          (root ++ req.name)
          mode_rwx
          (said files root (text "Creating volume ") req.name h.derived.drivers)
        ≡ (true, w'))
      (written : files.read_file (c_str (root ++ req.name ++ text ".create_ts")) (
          files.write_file
            (c_str (root ++ req.name ++ text ".create_ts"))
            (to_string (files.now w'))
            w')
        ≡ some (to_string (files.now w'))) where
    -- The volume that is created.
    abbrev pub the_volume : GetResponse
    the_volume = record {
      volume = record {
        name = req.name;
        mountpoint = root ++ req.name;
        created_at = files.now w';
        status = [];
      };
    }

    abbrev pub create_body : Bytes
    create_body = Messages.error_response json (record { status = 0; error = [] })

    abbrev pub get_body : Bytes
    get_body = Volume.ToJson.get_response json convert_time the_volume

    -- The two calls of the driver.
    create-get-expected :
        (expected json convert_time
            (sample files root json convert_time)
            (some volume_create)
            (concat first.bodies)
            h.derived.drivers
          ≡ ((200, create_body, content_type), (create files root req h.derived.drivers).1))
        × (expected json convert_time
              (sample files root json convert_time)
              (some volume_get)
              (concat second.bodies)
              (create files root req h.derived.drivers).1
            ≡ (
              (200, get_body, content_type),
              said files root
                  (text "Get volume ")
                  req.name
                  (create files root req h.derived.drivers).1,
            ))
    create-get-expected =
        let w = h.derived.drivers in
        let (answered, got) =
          create-get files root storage req w w' open_ended fits absent made written in
        let v = (create files root req w).1 in
        (
          create_expected files root json convert_time (concat first.bodies) req w v _ parsed
              (ap (λ r. (r, v)) answered),
          get_expected files root json convert_time (concat second.bodies)
              (record { name = req.name }) v _ the_volume parsed' got,
        )

    -- A request to create a volume and one to get it, one behind the other on an idle connection
    -- with an open socket on which no send fails, in any pieces, of a volume that was not there and
    -- can be made: the answers that go out are that of create, with the status 200 and no error, and
    -- that of get, with the status 200 and the name, the path and the time of creation of the volume.
    -- The file that create writes holds then, and after the output of get, what was written; the
    -- name has no NUL and does not end in a slash, the root has no NUL, and the time fits 64 bits.
    pub create-get-Answers :
        let (finished, h') =
          run_callbacks
            (methods json convert_time (sample files root json convert_time))
            (session_events (first ∷ second ∷ []))
            h in
        (finished ≡ true)
        × Answers
            (response_bytes 200 create_body content_type
              ++ response_bytes 200 get_body content_type)
            (said files root
              (text "Get volume ")
              req.name
              (create files root req h.derived.drivers).1)
            h
            h'
    create-get-Answers =
        let (created, got) = create-get-expected in
        subst (λ (r : Bytes × W). Session first second h r)
          (replies_lem files root json convert_time first second h.derived.drivers _ _ _ _ created
            got url url')
          (session-Answers json convert_time (sample files root json convert_time)
            (first ∷ second ∷ []) h idle live)

    -- A request to create a volume and one to get it, one behind the other on an idle connection
    -- with an open socket on which no send fails, in any pieces, of a volume that was not there and
    -- can be made: what Docker reads of the bytes that go out is two answers with the status 200 and
    -- nothing else, and in the second one the name, the path and the time of creation of the volume.
    -- The file that create writes holds then, and after the output of get, what was written; the
    -- name does not end in a slash, the time is before the year 2262, and picojson reads back what it
    -- wrote of the volume. The output is assumed to be none of the files, a directory to stay one
    -- whichever file is written, and mkdir to behave as documented.
    pub create-get-seen :
        (let val =
            member json convert_time
              (text "Volume")
              (to_json_raw json convert_time the_volume.volume) in
          json.parse (json.serialize val) ≡ ([], val))
        → let (finished, h') =
            run_callbacks
              (methods json convert_time (sample files root json convert_time))
              (session_events (first ∷ second ∷ []))
              h in
          (wire : Bytes) × (body body' : Bytes) × (h'.channel.sent ≡ h.channel.sent ++ wire)
          × (read_answers 2 wire ≡ some ((200, body) ∷ (200, body') ∷ [], []))
          × (read_get_response json body'
              ≡ some (record {
                name = req.name;
                mountpoint = root ++ req.name;
                created_at = convert_time (files.now w');
              }))
    create-get-seen reads_back =
        let (created, got) = create-get-expected in
        let (wire, sent, answers) =
          session-read_answers json convert_time (sample files root json convert_time)
            (first ∷ second ∷ []) h idle live in
        (
          wire,
          create_body,
          get_body,
          sent,
          answers
              ∙ ap (λ results. some (results, []))
                  (results_lem files root json convert_time first second h.derived.drivers _ _ _ _
                    created got url url'),
          read_get_response_lem json convert_time the_volume reads_back,
        )
