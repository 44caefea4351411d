-- ===== src/Ipam/ToJson.antt =====
-- to_json of serialize.cpp, for the responses of a ipam driver.
use docker_plugin_cpp.Base.{[], Bytes, text}
use docker_plugin_cpp.Json.{Picojson, put, write_map}
use docker_plugin_cpp.Ipam.{
  CapabilitiesResponse, AddressSpacesResponse, RequestPoolResponse, RequestAddressResponse,
}

module _ (json : Picojson) where
  open json use {Value, of_string, of_bool, of_int64, of_array, of_object, serialize}

  unfoldable pub capabilities_response : CapabilitiesResponse → Bytes
  unfolding text put
  capabilities_response e =
      serialize
        (of_object (put json (text "RequiresMACAddress") (of_bool e.requires_mac_address) []))

  unfoldable pub address_spaces_response : AddressSpacesResponse → Bytes
  unfolding text put
  address_spaces_response e = serialize (
      of_object (
        put json (text "GlobalDefaultAddressSpace") (of_string e.local_default_address_space) (
          put json (text "LocalDefaultAddressSpace") (of_string e.local_default_address_space) [])))

  unfoldable pub request_pool_response : RequestPoolResponse → Bytes
  unfolding text put write_map
  request_pool_response e = serialize (
      of_object (
        put json (text "Data") (write_map json e.response_data) (
          put json (text "Pool") (of_string e.pool)
            (put json (text "PoolID") (of_string e.pool_id) []))))

  unfoldable pub request_address_response : RequestAddressResponse → Bytes
  unfolding text put write_map
  request_address_response e = serialize (
      of_object (
        put json (text "Data") (write_map json e.response_data)
          (put json (text "Address") (of_string e.address) [])))
