-- ===== src/Plugin/Routes.antt =====
-- The URLs that on_message_complete knows.
pub mod Reachable
use docker_plugin_cpp.Base.{List, [], ◌∷◌, Option, none, some, Bytes, text, bytes_eq, if◌then◌else◌}

-- A method that a request can call.
pub data Endpoint : Type 0 where
  plugin_activates : Endpoint
  volume_create : Endpoint
  volume_remove : Endpoint
  volume_mount : Endpoint
  volume_path : Endpoint
  volume_unmount : Endpoint
  volume_get : Endpoint
  volume_list : Endpoint
  volume_capabilities : Endpoint
  network_capabilities : Endpoint
  network_create_network : Endpoint
  network_allocate_network : Endpoint
  network_delete_network : Endpoint
  network_free_network : Endpoint
  network_create_endpoint : Endpoint
  network_delete_endpoint : Endpoint
  network_endpoint_info : Endpoint
  network_join : Endpoint
  network_leave : Endpoint
  network_discover_new : Endpoint
  network_discover_delete : Endpoint
  network_program_external_connectivity : Endpoint
  network_revoke_external_connectivity : Endpoint
  ipam_capabilities : Endpoint
  ipam_default_address_spaces : Endpoint
  ipam_request_pool : Endpoint
  ipam_release_pool : Endpoint
  ipam_request_address : Endpoint
  ipam_release_address : Endpoint

-- The tests of m_url, in their order.
unfoldable pub routes : List (Bytes × Endpoint)
routes =
    (text "/Plugin.Activate", plugin_activates)
    ∷ (text "/VolumeDriver.Create", volume_create)
    ∷ (text "/VolumeDriver.Remove", volume_remove)
    ∷ (text "/VolumeDriver.Mount", volume_mount)
    ∷ (text "/VolumeDriver.Path", volume_path)
    ∷ (text "/VolumeDriver.Unmount", volume_unmount)
    ∷ (text "/VolumeDriver.Get", volume_get)
    ∷ (text "/VolumeDriver.List", volume_list)
    ∷ (text "/VolumeDriver.Capabilities", volume_capabilities)
    ∷ (text "/NetworkDriver.GetCapabilities", network_capabilities)
    ∷ (text "/NetworkDriver.CreateNetwork", network_create_network)
    ∷ (text "/NetworkDriver.AllocateNetwork", network_allocate_network)
    ∷ (text "/NetworkDriver.DeleteNetwork", network_delete_network)
    ∷ (text "/NetworkDriver.FreeNetwork", network_free_network)
    ∷ (text "/NetworkDriver.CreateEndpoint", network_create_endpoint)
    ∷ (text "/NetworkDriver.DeleteEndpoint", network_delete_endpoint)
    ∷ (text "/NetworkDriver.EndpointOperInfo", network_endpoint_info)
    ∷ (text "/NetworkDriver.Join", network_join)
    ∷ (text "/NetworkDriver.Leave", network_leave)
    ∷ (text "/NetworkDriver.DiscoverNew", network_discover_new)
    ∷ (text "/NetworkDriver.DiscoverDelete", network_discover_delete)
    ∷ (text "/NetworkDriver.ProgramExternalConnectivity", network_program_external_connectivity)
    ∷ (text "/NetworkDriver.RevokeExternalConnectivity", network_revoke_external_connectivity)
    ∷ (text "/IpamDriver.GetCapabilities", ipam_capabilities)
    ∷ (text "/IpamDriver.GetDefaultAddressSpaces", ipam_default_address_spaces)
    ∷ (text "/IpamDriver.RequestPool", ipam_request_pool)
    ∷ (text "/IpamDriver.ReleasePool", ipam_release_pool)
    ∷ (text "/IpamDriver.RequestAddress", ipam_request_address)
    ∷ (text "/IpamDriver.ReleaseAddress", ipam_release_address)
    ∷ []

-- The chain of else-if.
unfoldable pub find_route : Bytes → List (Bytes × Endpoint) → Option Endpoint
find_route url [] = none
find_route url ((name, endpoint) ∷ rest) =
    if bytes_eq url name then some endpoint else find_route url rest

unfoldable pub route : Bytes → Option Endpoint
route url = find_route url routes
