-- ===== src/Plugin/Registration.antt =====
-- What the plugin does for the drivers that are registered, and for those that are not.
use mathlib.Core.Option
use docker_plugin_cpp.Base.{ℕ, ◌≡◌, refl, Option, none, some, Bytes, text, Bool, true, false}
use docker_plugin_cpp.Result.{Result}
use docker_plugin_cpp.Json.{Picojson}
use docker_plugin_cpp.Plugin.Routes.{
  Endpoint, plugin_activates, volume_create, volume_remove, volume_mount, volume_path,
  volume_unmount, volume_get, volume_list, volume_capabilities, network_capabilities,
  network_create_network, network_allocate_network, network_delete_network, network_free_network,
  network_create_endpoint, network_delete_endpoint, network_endpoint_info, network_join,
  network_leave, network_discover_new, network_discover_delete,
  network_program_external_connectivity, network_revoke_external_connectivity, ipam_capabilities,
  ipam_default_address_spaces, ipam_request_pool, ipam_release_pool, ipam_request_address,
  ipam_release_address,
}
use docker_plugin_cpp.Plugin.Methods.{Plugin, perform, method_of}

pub data Family : Type 0 where
  volume network ipam : Family

-- The driver that a method belongs to; Plugin.Activate belongs to none.
abbrev pub family : Endpoint → Option Family
family plugin_activates = none
family volume_create = some volume
family volume_remove = some volume
family volume_mount = some volume
family volume_path = some volume
family volume_unmount = some volume
family volume_get = some volume
family volume_list = some volume
family volume_capabilities = some volume
family network_capabilities = some network
family network_create_network = some network
family network_allocate_network = some network
family network_delete_network = some network
family network_free_network = some network
family network_create_endpoint = some network
family network_delete_endpoint = some network
family network_endpoint_info = some network
family network_join = some network
family network_leave = some network
family network_discover_new = some network
family network_discover_delete = some network
family network_program_external_connectivity = some network
family network_revoke_external_connectivity = some network
family ipam_capabilities = some ipam
family ipam_default_address_spaces = some ipam
family ipam_request_pool = some ipam
family ipam_release_pool = some ipam
family ipam_request_address = some ipam
family ipam_release_address = some ipam

-- The methods whose request is a JSON object; the others ignore the body.
abbrev pub takes_object : Endpoint → Bool
takes_object plugin_activates = false
takes_object volume_create = true
takes_object volume_remove = true
takes_object volume_mount = true
takes_object volume_path = true
takes_object volume_unmount = true
takes_object volume_get = true
takes_object volume_list = false
takes_object volume_capabilities = false
takes_object network_capabilities = false
takes_object network_create_network = true
takes_object network_allocate_network = true
takes_object network_delete_network = true
takes_object network_free_network = true
takes_object network_create_endpoint = true
takes_object network_delete_endpoint = true
takes_object network_endpoint_info = true
takes_object network_join = true
takes_object network_leave = true
takes_object network_discover_new = true
takes_object network_discover_delete = true
takes_object network_program_external_connectivity = true
takes_object network_revoke_external_connectivity = true
takes_object ipam_capabilities = false
takes_object ipam_default_address_spaces = false
takes_object ipam_request_pool = true
takes_object ipam_release_pool = true
takes_object ipam_request_address = true
takes_object ipam_release_address = true

abbrev pub is_some : {A : Type 0} → Option A → Bool
is_some none = false
is_some (some a) = true

abbrev pub is_registered : {S : Type 0} → Plugin S → Family → Bool
is_registered plugin volume = is_some plugin.volume_driver
is_registered plugin network = is_some plugin.network_driver
is_registered plugin ipam = is_some plugin.ipam_driver

-- No method is missing where it belongs to no driver, or to one that is registered.
abbrev pub is_available : {S : Type 0} → Plugin S → Endpoint → Bool
is_available plugin endpoint = elim (family endpoint) [
  | none ↦ true
  | some f ↦ is_registered plugin f
]

module _ (json : Picojson) (convert_time : ℕ → Bytes) {S : Type 0} where
  perform-missing :
      {Req Resp D : Type 0} (from_json : Bytes → Result Req) (to_json : Resp → Bytes)
      (method : D → Req → S → Result Resp × S) (d : Option D) (body : Bytes) (s : S)
      → is_some d ≡ false
      → perform json convert_time from_json to_json (Option.map method d) body s
        ≡ ((404, text "Not found"), s)
  unfolding perform
  perform-missing from_json to_json method none body s e = refl
  perform-missing from_json to_json method (some d) body s e = cc

  -- A method of a driver that is not registered answers 404, and no driver is called.
  pub method_of-unregistered :
      (plugin : Plugin S) (endpoint : Endpoint) (body : Bytes) (s : S)
      → is_available plugin endpoint ≡ false
      → method_of json convert_time plugin endpoint body s ≡ ((404, text "Not found"), s)
  unfolding method_of
  method_of-unregistered plugin plugin_activates body s missing = cc
  method_of-unregistered plugin volume_create body s missing =
      perform-missing _ _ _ _ body s missing
  method_of-unregistered plugin volume_remove body s missing =
      perform-missing _ _ _ _ body s missing
  method_of-unregistered plugin volume_mount body s missing = perform-missing _ _ _ _ body s missing
  method_of-unregistered plugin volume_path body s missing = perform-missing _ _ _ _ body s missing
  method_of-unregistered plugin volume_unmount body s missing =
      perform-missing _ _ _ _ body s missing
  method_of-unregistered plugin volume_get body s missing = perform-missing _ _ _ _ body s missing
  method_of-unregistered plugin volume_list body s missing = perform-missing _ _ _ _ body s missing
  method_of-unregistered plugin volume_capabilities body s missing =
      perform-missing _ _ _ _ body s missing
  method_of-unregistered plugin network_capabilities body s missing =
      perform-missing _ _ _ _ body s missing
  method_of-unregistered plugin network_create_network body s missing =
      perform-missing _ _ _ _ body s missing
  method_of-unregistered plugin network_allocate_network body s missing =
      perform-missing _ _ _ _ body s missing
  method_of-unregistered plugin network_delete_network body s missing =
      perform-missing _ _ _ _ body s missing
  method_of-unregistered plugin network_free_network body s missing =
      perform-missing _ _ _ _ body s missing
  method_of-unregistered plugin network_create_endpoint body s missing =
      perform-missing _ _ _ _ body s missing
  method_of-unregistered plugin network_delete_endpoint body s missing =
      perform-missing _ _ _ _ body s missing
  method_of-unregistered plugin network_endpoint_info body s missing =
      perform-missing _ _ _ _ body s missing
  method_of-unregistered plugin network_join body s missing = perform-missing _ _ _ _ body s missing
  method_of-unregistered plugin network_leave body s missing =
      perform-missing _ _ _ _ body s missing
  method_of-unregistered plugin network_discover_new body s missing =
      perform-missing _ _ _ _ body s missing
  method_of-unregistered plugin network_discover_delete body s missing =
      perform-missing _ _ _ _ body s missing
  method_of-unregistered plugin network_program_external_connectivity body s missing =
      perform-missing _ _ _ _ body s missing
  method_of-unregistered plugin network_revoke_external_connectivity body s missing =
      perform-missing _ _ _ _ body s missing
  method_of-unregistered plugin ipam_capabilities body s missing =
      perform-missing _ _ _ _ body s missing
  method_of-unregistered plugin ipam_default_address_spaces body s missing =
      perform-missing _ _ _ _ body s missing
  method_of-unregistered plugin ipam_request_pool body s missing =
      perform-missing _ _ _ _ body s missing
  method_of-unregistered plugin ipam_release_pool body s missing =
      perform-missing _ _ _ _ body s missing
  method_of-unregistered plugin ipam_request_address body s missing =
      perform-missing _ _ _ _ body s missing
  method_of-unregistered plugin ipam_release_address body s missing =
      perform-missing _ _ _ _ body s missing
