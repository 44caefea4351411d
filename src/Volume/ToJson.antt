-- ===== src/Volume/ToJson.antt =====
-- to_json of serialize.cpp, for the responses of a volume driver.
use docker_plugin_cpp.Base.{ℕ, [], Bytes, text, map}
use docker_plugin_cpp.Json.{Picojson, put, write_map}
use docker_plugin_cpp.Volume.{
  MountResponse, PathResponse, GetResponse, ListResponse, CapabilitiesResponse, VolumeInfo,
}

-- `convert_time` gives a time as gmtime and strftime write it, "%FT%TZ".
module _ (json : Picojson) (convert_time : ℕ → Bytes) where
  open json use {Value, of_string, of_bool, of_int64, of_array, of_object, serialize}

  unfoldable pub to_json_raw : VolumeInfo → Value
  unfolding text put write_map
  to_json_raw e = of_object (
      put json (text "Status") (write_map json e.status) (
        put json (text "CreatedAt") (of_string (convert_time e.created_at)) (
          put json (text "Mountpoint") (of_string e.mountpoint)
            (put json (text "Name") (of_string e.name) []))))

  unfoldable pub mount_response : MountResponse → Bytes
  unfolding text put
  mount_response e =
      serialize (of_object (put json (text "Mountpoint") (of_string e.mountpoint) []))

  unfoldable pub path_response : PathResponse → Bytes
  unfolding text put
  path_response e = serialize (of_object (put json (text "Mountpoint") (of_string e.mountpoint) []))

  unfoldable pub get_response : GetResponse → Bytes
  unfolding text put to_json_raw
  get_response e = serialize (of_object (put json (text "Volume") (to_json_raw e.volume) []))

  unfoldable pub list_response : ListResponse → Bytes
  unfolding text put to_json_raw
  list_response e =
      serialize (of_object (put json (text "Volumes") (of_array (map to_json_raw e.volumes)) []))

  unfoldable pub capabilities_response : CapabilitiesResponse → Bytes
  unfolding text put
  capabilities_response e = serialize (
      of_object (
        put json (text "Capabilities")
          (of_object (put json (text "Scope") (of_string e.capabilities.scope) [])) []))
