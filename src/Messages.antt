-- ===== src/Messages.antt =====
-- The types of plugin.h that every driver shares, and their to_json of serialize.cpp.
use docker_plugin_cpp.Base.{List, [], map, Bytes, text}
use docker_plugin_cpp.Result.{ErrorResponse}
use docker_plugin_cpp.Json.{Picojson, put}

pub record ActivateResponse : Type 0 where
  -- a std::set, in the order of the names
  pub implements : List Bytes

module _ (json : Picojson) where
  open json use {of_string, of_array, of_object, serialize}

  unfoldable pub activate_response : ActivateResponse → Bytes
  unfolding text put
  activate_response e =
      serialize
        (of_object (put json (text "Implements") (of_array (map of_string e.implements)) []))

  unfoldable pub error_response : ErrorResponse → Bytes
  unfolding text put
  error_response e = serialize (of_object (put json (text "Err") (of_string e.error) []))
