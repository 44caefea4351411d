-- ===== src/Ipam/FromJson.antt =====
-- from_json of serialize.cpp, for the requests of a ipam driver.
use docker_plugin_cpp.Base.{Bytes, text}
use docker_plugin_cpp.Result.{Result, returned, ◌>>=◌}
use docker_plugin_cpp.Json.{Picojson, parse_object, string_at, bool_at, map_at}
use docker_plugin_cpp.Ipam.{
  RequestPoolRequest, ReleasePoolRequest, RequestAddressRequest, ReleaseAddressRequest,
}

module _ (json : Picojson) where
  open json use {Value, get_string, get_bool, get_int64, get_array, get_object}

  unfoldable pub request_pool_request : Bytes → Result RequestPoolRequest
  unfolding text parse_object string_at bool_at map_at
  request_pool_request str = do
    obj ← parse_object json str
    options ← map_at json (text "Options") obj
    returned (record {
      address_space = string_at json (text "AddressSpace") obj;
      pool = string_at json (text "Pool") obj;
      sub_pool = string_at json (text "SubPool") obj;
      options = options;
      ipv6 = bool_at json (text "V6") obj;
    })

  unfoldable pub release_pool_request : Bytes → Result ReleasePoolRequest
  unfolding text parse_object string_at
  release_pool_request str = do
    obj ← parse_object json str
    returned (record { pool_id = string_at json (text "PoolID") obj })

  unfoldable pub request_address_request : Bytes → Result RequestAddressRequest
  unfolding text parse_object string_at map_at
  request_address_request str = do
    obj ← parse_object json str
    options ← map_at json (text "Options") obj
    returned (record {
      pool_id = string_at json (text "PoolID") obj;
      address = string_at json (text "Address") obj;
      options = options;
    })

  unfoldable pub release_address_request : Bytes → Result ReleaseAddressRequest
  unfolding text parse_object string_at
  release_address_request str = do
    obj ← parse_object json str
    returned (record {
      pool_id = string_at json (text "PoolID") obj;
      address = string_at json (text "Address") obj;
    })
