-- ===== src/Volume/FromJson.antt =====
-- from_json of serialize.cpp, for the requests of a volume driver.
use docker_plugin_cpp.Base.{Bytes, text}
use docker_plugin_cpp.Result.{Result, returned, ◌>>=◌}
use docker_plugin_cpp.Json.{Picojson, parse_object, string_at, map_at}
use docker_plugin_cpp.Volume.{
  CreateRequest, RemoveRequest, MountRequest, UnmountRequest, PathRequest, GetRequest,
}

module _ (json : Picojson) where
  open json use {Value, get_string, get_bool, get_int64, get_array, get_object}

  unfoldable pub create_request : Bytes → Result CreateRequest
  unfolding text parse_object string_at map_at
  create_request str = do
    obj ← parse_object json str
    options ← map_at json (text "Opts") obj
    returned (record { name = string_at json (text "Name") obj; options = options })

  unfoldable pub remove_request : Bytes → Result RemoveRequest
  unfolding text parse_object string_at
  remove_request str = do
    obj ← parse_object json str
    returned (record { name = string_at json (text "Name") obj })

  unfoldable pub mount_request : Bytes → Result MountRequest
  unfolding text parse_object string_at
  mount_request str = do
    obj ← parse_object json str
    returned
        (record { name = string_at json (text "Name") obj; id = string_at json (text "ID") obj })

  unfoldable pub unmount_request : Bytes → Result UnmountRequest
  unfolding text parse_object string_at
  unmount_request str = do
    obj ← parse_object json str
    returned
        (record { name = string_at json (text "Name") obj; id = string_at json (text "ID") obj })

  unfoldable pub path_request : Bytes → Result PathRequest
  unfolding text parse_object string_at
  path_request str = do
    obj ← parse_object json str
    returned (record { name = string_at json (text "Name") obj })

  unfoldable pub get_request : Bytes → Result GetRequest
  unfolding text parse_object string_at
  get_request str = do
    obj ← parse_object json str
    returned (record { name = string_at json (text "Name") obj })
