-- ===== src/Network/FromJson.antt =====
-- from_json of serialize.cpp, for the requests of a network driver.
use docker_plugin_cpp.Base.{
  ◌==◌, ◌||◌, not, List, [], ◌∷◌, none, some, Bytes, text, Bool, false, is_empty, if◌then◌else◌,
}
use docker_plugin_cpp.Base.Int.{ℤ, pos, negsuc, to_int32}
use docker_plugin_cpp.Map.{Map}
use docker_plugin_cpp.Map
use docker_plugin_cpp.Result.{Result, returned, ◌>>=◌}
use docker_plugin_cpp.Json.{Picojson, byte_rank, parse_object, string_at, bool_at, map_at}
use docker_plugin_cpp.Network.{
  CreateNetworkRequest, AllocateNetworkRequest, DeleteNetworkRequest, FreeNetworkRequest,
  CreateEndpointRequest, DeleteEndpointRequest, InfoRequest, JoinRequest, LeaveRequest,
  DiscoveryNotification, ProgramExternalConnectivityRequest, RevokeExternalConnectivityRequest,
  IpamData, EndpointInterface, NodeInfo,
}

module _ (json : Picojson) where
  open json use {Value, get_string, get_bool, get_int64, get_array, get_object}

  -- The body of the loop in parse_ipam_data.
  unfoldable pub ipam_data_of : Map Value → Result IpamData
  unfolding text string_at map_at
  ipam_data_of obj = do
    aux_addresses ← map_at json (text "AuxAddresses") obj
    returned (record {
      address_space = string_at json (text "AddressSpace") obj;
      pool = string_at json (text "Pool") obj;
      gateway = string_at json (text "Gateway") obj;
      aux_addresses = aux_addresses;
    })

  abbrev pub ipam_data_is_used : IpamData → Bool
  ipam_data_is_used e =
      not (is_empty e.address_space)
      || not (is_empty e.pool)
      || not (is_empty e.gateway)
      || not (is_empty e.aux_addresses)

  unfoldable pub parse_ipam_items : List Value → Result (List IpamData)
  unfolding ipam_data_of
  parse_ipam_items [] = returned []
  parse_ipam_items (e ∷ arr) = elim (get_object e) [
    | none ↦ parse_ipam_items arr
    | some obj ↦ do
      ipam ← ipam_data_of obj
      rest ← parse_ipam_items arr
      returned (if ipam_data_is_used ipam then ipam ∷ rest else rest)
  ]

  unfoldable pub parse_ipam_data : Value → Result (List IpamData)
  unfolding parse_ipam_items
  parse_ipam_data val = elim (get_array val) [
    | none ↦ returned []
    | some arr ↦ parse_ipam_items arr
  ]

  -- if (obj.count(key) != 0) res = parse_ipam_data(obj.at(key)); into a list that is empty
  unfoldable pub ipam_data_at : Bytes → Map Value → Result (List IpamData)
  unfolding Map.lookup parse_ipam_data
  ipam_data_at key obj = elim (Map.lookup byte_rank key obj) [
    | none ↦ returned []
    | some val ↦ parse_ipam_data val
  ]

  abbrev no_interface : EndpointInterface
  no_interface = record { ipv4_address = []; ipv6_address = []; mac_address = [] }

  unfoldable pub parse_endpoint_interface : Value → EndpointInterface
  unfolding text string_at
  parse_endpoint_interface val = elim (get_object val) [
    | none ↦ no_interface
    | some obj ↦ record {
      ipv4_address = string_at json (text "Address") obj;
      ipv6_address = string_at json (text "AddressIPv6") obj;
      mac_address = string_at json (text "MacAddress") obj;
    }
  ]

  unfoldable pub endpoint_interface_at : Bytes → Map Value → EndpointInterface
  unfolding Map.lookup parse_endpoint_interface
  endpoint_interface_at key obj = elim (Map.lookup byte_rank key obj) [
    | none ↦ no_interface
    | some val ↦ parse_endpoint_interface val
  ]

  unfoldable pub create_network_request : Bytes → Result CreateNetworkRequest
  unfolding text parse_object string_at map_at ipam_data_at
  create_network_request str = do
    obj ← parse_object json str
    options ← map_at json (text "Options") obj
    first_ipv4_data ← ipam_data_at (text "IPv4Data") obj
    ipv4_data ← ipam_data_at (text "IPv4Data") obj
    returned (record {
      network_id = string_at json (text "NetworkID") obj;
      options = options;
      ipv4_data = ipv4_data;
      ipv6_data = [];
    })

  unfoldable pub allocate_network_request : Bytes → Result AllocateNetworkRequest
  unfolding text parse_object string_at map_at ipam_data_at
  allocate_network_request str = do
    obj ← parse_object json str
    options ← map_at json (text "Options") obj
    first_ipv4_data ← ipam_data_at (text "IPv4Data") obj
    ipv4_data ← ipam_data_at (text "IPv4Data") obj
    returned (record {
      network_id = string_at json (text "NetworkID") obj;
      options = options;
      ipv4_data = ipv4_data;
      ipv6_data = [];
    })

  unfoldable pub delete_network_request : Bytes → Result DeleteNetworkRequest
  unfolding text parse_object string_at
  delete_network_request str = do
    obj ← parse_object json str
    returned (record { network_id = string_at json (text "NetworkID") obj })

  unfoldable pub free_network_request : Bytes → Result FreeNetworkRequest
  unfolding text parse_object string_at
  free_network_request str = do
    obj ← parse_object json str
    returned (record { network_id = string_at json (text "NetworkID") obj })

  unfoldable pub create_endpoint_request : Bytes → Result CreateEndpointRequest
  unfolding text parse_object string_at map_at endpoint_interface_at
  create_endpoint_request str = do
    obj ← parse_object json str
    options ← map_at json (text "Options") obj
    returned (record {
      network_id = string_at json (text "NetworkID") obj;
      endpoint_id = string_at json (text "EndpointID") obj;
      interface = endpoint_interface_at (text "Interface") obj;
      options = options;
    })

  unfoldable pub delete_endpoint_request : Bytes → Result DeleteEndpointRequest
  unfolding text parse_object string_at
  delete_endpoint_request str = do
    obj ← parse_object json str
    returned (record {
      network_id = string_at json (text "NetworkID") obj;
      endpoint_id = string_at json (text "EndpointID") obj;
    })

  unfoldable pub info_request : Bytes → Result InfoRequest
  unfolding text parse_object string_at
  info_request str = do
    obj ← parse_object json str
    returned (record {
      network_id = string_at json (text "NetworkID") obj;
      endpoint_id = string_at json (text "EndpointID") obj;
    })

  unfoldable pub join_request : Bytes → Result JoinRequest
  unfolding text parse_object string_at map_at
  join_request str = do
    obj ← parse_object json str
    options ← map_at json (text "Options") obj
    returned (record {
      network_id = string_at json (text "NetworkID") obj;
      endpoint_id = string_at json (text "EndpointID") obj;
      sandbox_key = string_at json (text "SandboxKey") obj;
      options = options;
    })

  unfoldable pub leave_request : Bytes → Result LeaveRequest
  unfolding text parse_object string_at
  leave_request str = do
    obj ← parse_object json str
    returned (record {
      network_id = string_at json (text "NetworkID") obj;
      endpoint_id = string_at json (text "EndpointID") obj;
    })

  unfoldable pub discovery_type_at : Map Value → ℤ
  unfolding text Map.lookup to_int32
  discovery_type_at obj = elim (Map.lookup byte_rank (text "DiscoveryType") obj) [
    | none ↦ pos 0
    | some val ↦ elim (get_int64 val) [ none ↦ pos 0 | some i ↦ to_int32 i ]
  ]

  abbrev no_node : NodeInfo
  no_node = record { address = []; self = false }

  -- The object under "DiscoveryData", read by the type of the notification.
  unfoldable pub node_info_of : ℤ → Map Value → NodeInfo
  unfolding text string_at bool_at
  node_info_of (pos n) obj =
      if n == 1
      then record {
        address = string_at json (text "Address") obj;
        self = bool_at json (text "self") obj;
      }
      else no_node
  node_info_of (negsuc n) obj = no_node

  unfoldable pub node_info_at : ℤ → Map Value → NodeInfo
  unfolding text Map.lookup node_info_of
  node_info_at type obj = elim (Map.lookup byte_rank (text "DiscoveryData") obj) [
    | none ↦ no_node
    | some val ↦ elim (get_object val) [ none ↦ no_node | some inner ↦ node_info_of type inner ]
  ]

  unfoldable pub discovery_notification : Bytes → Result DiscoveryNotification
  unfolding parse_object discovery_type_at node_info_at
  discovery_notification str = do
    obj ← parse_object json str
    let type = discovery_type_at obj
    returned (record { discovery_type = type; node_info = node_info_at type obj })

  unfoldable pub program_external_connectivity_request :
      Bytes → Result ProgramExternalConnectivityRequest
  unfolding text parse_object string_at map_at
  program_external_connectivity_request str = do
    obj ← parse_object json str
    options ← map_at json (text "Options") obj
    returned (record {
      network_id = string_at json (text "NetworkID") obj;
      endpoint_id = string_at json (text "EndpointID") obj;
      options = options;
    })

  unfoldable pub revoke_external_connectivity_request :
      Bytes → Result RevokeExternalConnectivityRequest
  unfolding text parse_object string_at
  revoke_external_connectivity_request str = do
    obj ← parse_object json str
    returned (record {
      network_id = string_at json (text "NetworkID") obj;
      endpoint_id = string_at json (text "EndpointID") obj;
    })
