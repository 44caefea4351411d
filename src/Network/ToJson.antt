-- ===== src/Network/ToJson.antt =====
-- to_json of serialize.cpp, for the responses of a network driver.
use docker_plugin_cpp.Base.{◌&&◌, [], Bytes, text, Bool, is_empty, map, if◌then◌else◌}
use docker_plugin_cpp.Json.{Picojson, put, write_map}
use docker_plugin_cpp.Network.{
  CapabilitiesResponse, AllocateNetworkResponse, CreateEndpointResponse, InfoResponse, JoinResponse,
  EndpointInterface, InterfaceName, StaticRoute,
}

module _ (json : Picojson) where
  open json use {Value, of_string, of_bool, of_int64, of_array, of_object, serialize}

  -- endpoint_interface::empty
  unfoldable pub interface_is_empty : EndpointInterface → Bool
  interface_is_empty e =
      is_empty e.ipv4_address && is_empty e.ipv6_address && is_empty e.mac_address

  unfoldable pub serialize_endpoint_interface : EndpointInterface → Value
  unfolding text put
  serialize_endpoint_interface ei = of_object (
      put json (text "MacAddress") (of_string ei.mac_address) (
        put json (text "AddressIPv6") (of_string ei.ipv6_address)
          (put json (text "Address") (of_string ei.ipv4_address) [])))

  unfoldable pub capabilities_response : CapabilitiesResponse → Bytes
  unfolding text put
  capabilities_response e = serialize (
      of_object (
        put json (text "ConnectivityScope") (of_string e.connectivity_scope)
          (put json (text "Scope") (of_string e.scope) [])))

  unfoldable pub allocate_network_response : AllocateNetworkResponse → Bytes
  unfolding text put write_map
  allocate_network_response e =
      serialize (of_object (put json (text "Options") (write_map json e.options) []))

  unfoldable pub create_endpoint_response : CreateEndpointResponse → Bytes
  unfolding text put serialize_endpoint_interface interface_is_empty
  create_endpoint_response e = serialize (
      of_object (
        if interface_is_empty e.interface
        then []
        else put json (text "Interface") (serialize_endpoint_interface e.interface) []))

  unfoldable pub info_response : InfoResponse → Bytes
  unfolding text put write_map
  info_response e = serialize (of_object (put json (text "Value") (write_map json e.value) []))

  unfoldable pub interface_name : InterfaceName → Value
  unfolding text put
  interface_name e = of_object (
      put json (text "DstPrefix") (of_string e.dst_prefix)
        (put json (text "SrcName") (of_string e.src_name) []))

  unfoldable pub static_route : StaticRoute → Value
  unfolding text put
  static_route r = of_object (
      put json (text "NextHop") (of_string r.next_hop) (
        put json (text "RouteType") (of_int64 r.route_type)
          (put json (text "Destination") (of_string r.destination) [])))

  unfoldable pub join_response : JoinResponse → Bytes
  unfolding text put interface_name static_route
  join_response e = serialize (
      of_object (
        put json (text "StaticRoutes") (of_array (map static_route e.static_routes)) (
          put json (text "DisableGatewayService") (of_bool e.disable_gateway_service) (
            put json (text "GatewayIPv6") (of_string e.gateway_ipv6) (
              put json (text "Gateway") (of_string e.gateway_ipv4)
                (put json (text "InterfaceName") (interface_name e.interface_name) []))))))
