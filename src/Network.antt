-- ===== src/Network.antt =====
-- network/api.h: the requests and responses of a network driver, and the driver as an interface.
pub mod FromJson
pub mod ToJson
pub mod RoundTrip
pub mod Options
use docker_plugin_cpp.Base.{Bytes, Bool, List}
use docker_plugin_cpp.Base.Int.{ℤ}
use docker_plugin_cpp.Json.{Strings}
use docker_plugin_cpp.Result.{Result, ErrorResponse}

pub record CapabilitiesResponse : Type 0 where
  pub scope : Bytes
  pub connectivity_scope : Bytes

pub record IpamData : Type 0 where
  pub address_space : Bytes
  pub pool : Bytes
  pub gateway : Bytes
  pub aux_addresses : Strings

pub record CreateNetworkRequest : Type 0 where
  pub network_id : Bytes
  pub options : Strings
  pub ipv4_data : List IpamData
  pub ipv6_data : List IpamData

pub record AllocateNetworkRequest : Type 0 where
  pub network_id : Bytes
  pub options : Strings
  pub ipv4_data : List IpamData
  pub ipv6_data : List IpamData

pub record AllocateNetworkResponse : Type 0 where
  pub options : Strings

pub record DeleteNetworkRequest : Type 0 where
  pub network_id : Bytes

pub record FreeNetworkRequest : Type 0 where
  pub network_id : Bytes

pub record EndpointInterface : Type 0 where
  pub ipv4_address : Bytes
  pub ipv6_address : Bytes
  pub mac_address : Bytes

pub record CreateEndpointRequest : Type 0 where
  pub network_id : Bytes
  pub endpoint_id : Bytes
  pub interface : EndpointInterface
  pub options : Strings

pub record CreateEndpointResponse : Type 0 where
  pub interface : EndpointInterface

pub record DeleteEndpointRequest : Type 0 where
  pub network_id : Bytes
  pub endpoint_id : Bytes

pub record InfoRequest : Type 0 where
  pub network_id : Bytes
  pub endpoint_id : Bytes

pub record InfoResponse : Type 0 where
  pub value : Strings

pub record JoinRequest : Type 0 where
  pub network_id : Bytes
  pub endpoint_id : Bytes
  pub sandbox_key : Bytes
  pub options : Strings

pub record StaticRoute : Type 0 where
  pub destination : Bytes
  pub route_type : ℤ
  pub next_hop : Bytes

pub record InterfaceName : Type 0 where
  pub src_name : Bytes
  pub dst_prefix : Bytes

pub record JoinResponse : Type 0 where
  pub interface_name : InterfaceName
  pub gateway_ipv4 : Bytes
  pub gateway_ipv6 : Bytes
  pub static_routes : List StaticRoute
  pub disable_gateway_service : Bool

pub record LeaveRequest : Type 0 where
  pub network_id : Bytes
  pub endpoint_id : Bytes

pub record NodeInfo : Type 0 where
  pub address : Bytes
  pub self : Bool

pub record DiscoveryNotification : Type 0 where
  -- an enum over int; node is 1
  pub discovery_type : ℤ
  pub node_info : NodeInfo

pub record ProgramExternalConnectivityRequest : Type 0 where
  pub network_id : Bytes
  pub endpoint_id : Bytes
  pub options : Strings

pub record RevokeExternalConnectivityRequest : Type 0 where
  pub network_id : Bytes
  pub endpoint_id : Bytes

-- A driver's methods, over a state of its own. A method may throw.
pub record Driver (S : Type 0) : Type 0 where
  pub capabilities : S → Result CapabilitiesResponse × S
  pub create_network : CreateNetworkRequest → S → Result ErrorResponse × S
  pub allocate_network : AllocateNetworkRequest → S → Result AllocateNetworkResponse × S
  pub delete_network : DeleteNetworkRequest → S → Result ErrorResponse × S
  pub free_network : FreeNetworkRequest → S → Result ErrorResponse × S
  pub create_endpoint : CreateEndpointRequest → S → Result CreateEndpointResponse × S
  pub delete_endpoint : DeleteEndpointRequest → S → Result ErrorResponse × S
  pub endpoint_info : InfoRequest → S → Result InfoResponse × S
  pub join : JoinRequest → S → Result JoinResponse × S
  pub leave : LeaveRequest → S → Result ErrorResponse × S
  pub discover_new : DiscoveryNotification → S → Result ErrorResponse × S
  pub discover_delete : DiscoveryNotification → S → Result ErrorResponse × S
  pub program_external_connectivity :
      ProgramExternalConnectivityRequest → S → Result ErrorResponse × S
  pub revoke_external_connectivity :
      RevokeExternalConnectivityRequest → S → Result ErrorResponse × S
