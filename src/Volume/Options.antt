-- ===== src/Volume/Options.antt =====
-- What the request to create a volume gives the driver.
use docker_plugin_cpp.Base.{◌≡◌, [], Bytes, text, Bool-cases, inl, inr, if◌then◌else◌}
use docker_plugin_cpp.Map.{Map}
use docker_plugin_cpp.Map
use docker_plugin_cpp.Result.{returned, threw, standard}
use docker_plugin_cpp.Json.{Picojson, byte_rank, parse_object, string_at}
use docker_plugin_cpp.Json.Laws.{map_at_lem, is_not_object}
use docker_plugin_cpp.Volume.FromJson.{create_request}

module _ (json : Picojson) where
  -- Of a body that is an object, the request to create a volume is read without any option: the
  -- options are empty where Opts is missing or an object, whatever it holds, and where Opts is any
  -- other value, the request is refused by the exception of get<object>().
  pub create_request_lem :
      (body : Bytes) (obj : Map json.Value)
      → parse_object json body ≡ returned obj
      → create_request json body ≡ (
          if is_not_object json (Map.lookup byte_rank (text "Opts") obj)
          then threw (standard json.mismatch)
          else returned (record { name = string_at json (text "Name") obj; options = [] }))
  unfolding create_request
  create_request_lem body obj e =
      elim (Bool-cases (is_not_object json (Map.lookup byte_rank (text "Opts") obj))) [
        | inl other ↦ cc (e, other, map_at_lem json (text "Opts") obj)
        | inr read ↦ cc (e, read, map_at_lem json (text "Opts") obj)
      ]
