-- ===== src/Plugin/Routes/Reachable.antt =====
-- The branches of the chain of else-if.
use mathlib.Core.Path.{subst, sym}
use mathlib.Core.List.{Memᴰ}
use docker_plugin_cpp.Base.{
  ◌≡◌, ◌↔◌, refl, List, [], ◌∷◌, All, some, Bytes, bytes_eq, bytes_eq_iff, text, ◌++◌, arith,
  Bool-cases, inl, inr,
}
use docker_plugin_cpp.Plugin.Routes.{
  Endpoint, routes, find_route, route, plugin_activates, volume_create, volume_remove, volume_mount,
  volume_path, volume_unmount, volume_get, volume_list, volume_capabilities, network_capabilities,
  network_create_network, network_allocate_network, network_delete_network, network_free_network,
  network_create_endpoint, network_delete_endpoint, network_endpoint_info, network_join,
  network_leave, network_discover_new, network_discover_delete,
  network_program_external_connectivity, network_revoke_external_connectivity, ipam_capabilities,
  ipam_default_address_spaces, ipam_request_pool, ipam_release_pool, ipam_request_address,
  ipam_release_address,
}

find_route-mem :
    (u : Bytes) (e : Endpoint) (table : List (Bytes × Endpoint))
    → find_route u table ≡ some e
    → Memᴰ (u, e) table
unfolding find_route
find_route-mem u e [] h = cc
find_route-mem u e ((name, endpoint) ∷ table) h = elim (Bool-cases (bytes_eq u name)) [
  | inl same ↦ Memᴰ.head (ground (arith, bytes_eq_iff u name))
  | inr other ↦ Memᴰ.tail (find_route-mem u e table (rw other at h))
]

-- The URL of each method in Docker's plugin protocol: the kind of the driver, and the method's name.
unfoldable pub url_of : Endpoint → Bytes
unfolding text
url_of plugin_activates = text "/Plugin." ++ text "Activate"
url_of volume_create = text "/VolumeDriver." ++ text "Create"
url_of volume_remove = text "/VolumeDriver." ++ text "Remove"
url_of volume_mount = text "/VolumeDriver." ++ text "Mount"
url_of volume_path = text "/VolumeDriver." ++ text "Path"
url_of volume_unmount = text "/VolumeDriver." ++ text "Unmount"
url_of volume_get = text "/VolumeDriver." ++ text "Get"
url_of volume_list = text "/VolumeDriver." ++ text "List"
url_of volume_capabilities = text "/VolumeDriver." ++ text "Capabilities"
url_of network_capabilities = text "/NetworkDriver." ++ text "GetCapabilities"
url_of network_create_network = text "/NetworkDriver." ++ text "CreateNetwork"
url_of network_allocate_network = text "/NetworkDriver." ++ text "AllocateNetwork"
url_of network_delete_network = text "/NetworkDriver." ++ text "DeleteNetwork"
url_of network_free_network = text "/NetworkDriver." ++ text "FreeNetwork"
url_of network_create_endpoint = text "/NetworkDriver." ++ text "CreateEndpoint"
url_of network_delete_endpoint = text "/NetworkDriver." ++ text "DeleteEndpoint"
url_of network_endpoint_info = text "/NetworkDriver." ++ text "EndpointOperInfo"
url_of network_join = text "/NetworkDriver." ++ text "Join"
url_of network_leave = text "/NetworkDriver." ++ text "Leave"
url_of network_discover_new = text "/NetworkDriver." ++ text "DiscoverNew"
url_of network_discover_delete = text "/NetworkDriver." ++ text "DiscoverDelete"
url_of network_program_external_connectivity =
    text "/NetworkDriver." ++ text "ProgramExternalConnectivity"
url_of network_revoke_external_connectivity =
    text "/NetworkDriver." ++ text "RevokeExternalConnectivity"
url_of ipam_capabilities = text "/IpamDriver." ++ text "GetCapabilities"
url_of ipam_default_address_spaces = text "/IpamDriver." ++ text "GetDefaultAddressSpaces"
url_of ipam_request_pool = text "/IpamDriver." ++ text "RequestPool"
url_of ipam_release_pool = text "/IpamDriver." ++ text "ReleasePool"
url_of ipam_request_address = text "/IpamDriver." ++ text "RequestAddress"
url_of ipam_release_address = text "/IpamDriver." ++ text "ReleaseAddress"

routed : (e : Endpoint) → find_route (url_of e) routes ≡ some e
unfolding url_of routes find_route text bytes_eq
routed plugin_activates = refl
routed volume_create = refl
routed volume_remove = refl
routed volume_mount = refl
routed volume_path = refl
routed volume_unmount = refl
routed volume_get = refl
routed volume_list = refl
routed volume_capabilities = refl
routed network_capabilities = refl
routed network_create_network = refl
routed network_allocate_network = refl
routed network_delete_network = refl
routed network_free_network = refl
routed network_create_endpoint = refl
routed network_delete_endpoint = refl
routed network_endpoint_info = refl
routed network_join = refl
routed network_leave = refl
routed network_discover_new = refl
routed network_discover_delete = refl
routed network_program_external_connectivity = refl
routed network_revoke_external_connectivity = refl
routed ipam_capabilities = refl
routed ipam_default_address_spaces = refl
routed ipam_request_pool = refl
routed ipam_release_pool = refl
routed ipam_request_address = refl
routed ipam_release_address = refl

-- Each entry of the table has the URL of its method.
routes_named : All (λ (r : Bytes × Endpoint). r.0 ≡ url_of r.1) routes
unfolding routes url_of text
routes_named = (
  refl,
  (
    refl,
    (
      refl,
      (
        refl,
        (
          refl,
          (
            refl,
            (
              refl,
              (
                refl,
                (
                  refl,
                  (
                    refl,
                    (
                      refl,
                      (
                        refl,
                        (
                          refl,
                          (
                            refl,
                            (
                              refl,
                              (
                                refl,
                                (
                                  refl,
                                  (
                                    refl,
                                    (
                                      refl,
                                      (
                                        refl,
                                        (
                                          refl,
                                          (
                                            refl,
                                            (
                                              refl,
                                              (refl, (refl, (refl, (refl, (refl, (refl, tt)))))),
                                            ),
                                          ),
                                        ),
                                      ),
                                    ),
                                  ),
                                ),
                              ),
                            ),
                          ),
                        ),
                      ),
                    ),
                  ),
                ),
              ),
            ),
          ),
        ),
      ),
    ),
  ),
)

All-mem : {A : Type 0} (P : A → Type 0) (xs : List A) {x : A} → All P xs → Memᴰ x xs → P x
All-mem P [] _ m = elim m [ ]
All-mem P (y ∷ ys) (p, ps) (Memᴰ.head e) = subst P (sym e) p
All-mem P (y ∷ ys) (p, ps) (Memᴰ.tail m) = All-mem P ys ps m

-- A URL leads to a method exactly if it is the method's URL in Docker's plugin protocol, as url_of
-- spells it: each of the 29 URLs leads to its own method, and any other text to none.
pub route_iff : (u : Bytes) (e : Endpoint) → (route u ≡ some e) ↔ (u ≡ url_of e)
unfolding route
route_iff u e = (
  λ found.
      All-mem (λ (r : Bytes × Endpoint). r.0 ≡ url_of r.1) routes routes_named
        (find_route-mem u e routes found),
  λ same. subst (λ v. find_route v routes ≡ some e) (sym same) (routed e),
)
