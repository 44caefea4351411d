-- ===== src/Ipam.antt =====
-- ipam/api.h: the requests and responses of a ipam driver, and the driver as an interface.
pub mod FromJson
pub mod ToJson
use docker_plugin_cpp.Base.{Bytes, Bool}
use docker_plugin_cpp.Json.{Strings}
use docker_plugin_cpp.Result.{Result, ErrorResponse}

pub record CapabilitiesResponse : Type 0 where
  pub requires_mac_address : Bool

pub record AddressSpacesResponse : Type 0 where
  pub local_default_address_space : Bytes
  pub global_default_address_space : Bytes

pub record RequestPoolRequest : Type 0 where
  pub address_space : Bytes
  pub pool : Bytes
  pub sub_pool : Bytes
  pub options : Strings
  pub ipv6 : Bool

pub record RequestPoolResponse : Type 0 where
  pub pool_id : Bytes
  pub pool : Bytes
  pub response_data : Strings

pub record ReleasePoolRequest : Type 0 where
  pub pool_id : Bytes

pub record RequestAddressRequest : Type 0 where
  pub pool_id : Bytes
  pub address : Bytes
  pub options : Strings

pub record RequestAddressResponse : Type 0 where
  pub address : Bytes
  pub response_data : Strings

pub record ReleaseAddressRequest : Type 0 where
  pub pool_id : Bytes
  pub address : Bytes

-- A driver's methods, over a state of its own. A method may throw.
pub record Driver (S : Type 0) : Type 0 where
  pub capabilities : S → Result CapabilitiesResponse × S
  pub default_address_spaces : S → Result AddressSpacesResponse × S
  pub request_pool : RequestPoolRequest → S → Result RequestPoolResponse × S
  pub release_pool : ReleasePoolRequest → S → Result ErrorResponse × S
  pub request_address : RequestAddressRequest → S → Result RequestAddressResponse × S
  pub release_address : ReleaseAddressRequest → S → Result ErrorResponse × S
