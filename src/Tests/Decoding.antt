-- ===== src/Tests/Decoding.antt =====
-- Requests and responses of the drivers, at concrete values.
use mathlib.Core.List.Permᴰ
use docker_plugin_cpp.Base.{
  Bytes, none, some, map, ◌≡◌, refl, [], ◌∷◌, text, compare_by, if◌then◌else◌,
}
use docker_plugin_cpp.Map.{Map}
use docker_plugin_cpp.Map
use docker_plugin_cpp.Result.{returned, threw, standard, ◌>>=◌}
use docker_plugin_cpp.Json.Unordered.{IsDistinct, entry_or, write_map_reordered}
use docker_plugin_cpp.Volume.{ListResponse}
use docker_plugin_cpp.Volume.ToJson.{to_json_raw, list_response}
use docker_plugin_cpp.Volume.Reading.{seen, read_list_response, read_list_response_lem}
use docker_plugin_cpp.Tests.Requests.{time}
use docker_plugin_cpp.Json.{
  Picojson, Strings, put, put_strings, write_map, parse_object, byte_rank, string_at,
}
use docker_plugin_cpp.Json.Laws.{is_not_object}
use docker_plugin_cpp.Volume.FromJson.{create_request}
use docker_plugin_cpp.Volume.Options.{create_request_lem}
use docker_plugin_cpp.Network.{EndpointInterface}
use docker_plugin_cpp.Network.FromJson.{
  create_network_request, ipam_data_at, parse_endpoint_interface,
}
use docker_plugin_cpp.Network.ToJson.{serialize_endpoint_interface}
use docker_plugin_cpp.Network.Options.{create_network_request_lem, created}
use docker_plugin_cpp.Network.RoundTrip.{parse-serialize_endpoint_interface}
use docker_plugin_cpp.Tests.Values.{Value, a_string, an_object, field, no_fields, json}

abbrev volume_object : Map Value
volume_object =
    (text "Name", a_string (text "v1"))
    ∷ (text "Opts", an_object (field (text "size") (a_string (text "10")) no_fields))
    ∷ []

volume_object_parsed : parse_object json (text "v1") ≡ returned volume_object
unfolding parse_object text
volume_object_parsed = refl

create_request_example : create_request json (text "v1") ≡ (
    if is_not_object json (Map.lookup byte_rank (text "Opts") volume_object)
    then threw (standard (text "type mismatch"))
    else returned (record { name = string_at json (text "Name") volume_object; options = [] }))
create_request_example = create_request_lem json (text "v1") volume_object volume_object_parsed

-- The request names a volume and an option; the driver is given the name only.
create_request_test :
    create_request json (text "v1") ≡ returned (record { name = text "v1"; options = [] })
unfolding create_request parse_object text Map.lookup compare_by
create_request_test = refl

create_network_request_example : create_network_request json (text "v1") ≡ (
    if is_not_object json (Map.lookup byte_rank (text "Options") volume_object)
    then threw (standard (text "type mismatch"))
    else ipam_data_at json (text "IPv4Data") volume_object >>= created json volume_object)
create_network_request_example =
    create_network_request_lem json (text "v1") volume_object volume_object_parsed

abbrev interface : EndpointInterface
interface = record {
  ipv4_address = text "10.0.0.2/24";
  ipv6_address = [];
  mac_address = text "02:42:0a:00:00:02";
}

parse-serialize_endpoint_interface_example :
    parse_endpoint_interface json (serialize_endpoint_interface json interface) ≡ interface
parse-serialize_endpoint_interface_example = parse-serialize_endpoint_interface json interface

-- The options of a volume, in two orders.
abbrev options : Strings
options = (text "size", text "10") ∷ (text "type", text "ext4") ∷ []

abbrev options_again : Strings
options_again = (text "type", text "ext4") ∷ (text "size", text "10") ∷ []

options-IsDistinct : IsDistinct options
unfolding text compare_by
options-IsDistinct = ((refl, tt), (tt, tt))

write_map_reordered_example :
    (write_map json options ≡ write_map json options_again)
    × ((key : Bytes)
        → Map.lookup byte_rank key (put_strings json [] options)
          ≡ entry_or json (Map.lookup byte_rank key options) none)
write_map_reordered_example =
    write_map_reordered json options options_again options-IsDistinct (Permᴰ.swap refl refl)

abbrev volumes : ListResponse
volumes = record {
  volumes =
      record { name = text "v1"; mountpoint = text "/v1"; created_at = 5; status = [] }
      ∷ record { name = text "v2"; mountpoint = text "/v2"; created_at = 6; status = [] }
      ∷ [];
}

abbrev written : Value
written =
    json.of_object
      (put json (text "Volumes") (json.of_array (map (to_json_raw json time) volumes.volumes)) [])

-- picojson, which reads back the text of that response.
abbrev listing : Picojson
listing = record json { serialize = λ val. text "volumes"; parse = λ str. ([], written) }

read_list_response_example :
    read_list_response listing (list_response listing time volumes)
    ≡ some (map (seen listing time) volumes.volumes)
unfolding text to_json_raw
read_list_response_example = read_list_response_lem listing time volumes refl
