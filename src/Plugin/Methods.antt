-- ===== src/Plugin/Methods.antt =====
-- What a method of a driver is called with and what it answers: the templates from_json, the method
-- and to_json of invoke_plugin_handler, the branches of on_message_complete, and plugin_activate.
use mathlib.Core.Option
use docker_plugin_cpp.Base.{ℕ, ◌++◌, List, [], ◌∷◌, Option, none, some, Bytes, text}
use docker_plugin_cpp.Result.{
  Result, returned, threw, Exception, thrown_response, invalid_argument, standard,
}
use docker_plugin_cpp.Json.{Picojson}
use docker_plugin_cpp.Messages
use docker_plugin_cpp.Messages.{ActivateResponse}
use docker_plugin_cpp.Volume
use docker_plugin_cpp.Network
use docker_plugin_cpp.Ipam
use docker_plugin_cpp.Plugin.Routes.{
  Endpoint, plugin_activates, volume_create, volume_remove, volume_mount, volume_path,
  volume_unmount, volume_get, volume_list, volume_capabilities, network_capabilities,
  network_create_network, network_allocate_network, network_delete_network, network_free_network,
  network_create_endpoint, network_delete_endpoint, network_endpoint_info, network_join,
  network_leave, network_discover_new, network_discover_delete,
  network_program_external_connectivity, network_revoke_external_connectivity, ipam_capabilities,
  ipam_default_address_spaces, ipam_request_pool, ipam_release_pool, ipam_request_address,
  ipam_release_address,
}

-- The drivers of class plugin; `none` is a null pointer.
pub record Plugin (S : Type 0) : Type 0 where
  pub volume_driver : Option (Volume.Driver S)
  pub network_driver : Option (Network.Driver S)
  pub ipam_driver : Option (Ipam.Driver S)

-- from_json<empty_type>
unfoldable pub read_empty : Bytes → Result (Unit {0})
read_empty str = returned tt

-- The call in the try block; what from_json throws is thrown on, and no method is called.
unfoldable pub call :
    {S Req Resp : Type 0} → (Req → S → Result Resp × S) → Result Req → S → Result Resp × S
call fn (returned req) s = fn req s
call fn (threw e) s = (threw e, s)

-- A name that the set of plugin_activate holds if there is the driver.
abbrev pub announced : {A : Type 0} → Option A → Bytes → List Bytes
announced none name = []
announced (some _) name = name ∷ []

module _ (json : Picojson) (convert_time : ℕ → Bytes) where
  -- The catch blocks: the status and the body for an exception.
  unfoldable pub failure : Exception → ℕ × Bytes
  failure (thrown_response e) = (e.status, Messages.error_response json e)
  failure (invalid_argument what) =
      (400, Messages.error_response json (record { status = 0; error = what }))
  failure (standard what) =
      (500, Messages.error_response json (record { status = 0; error = what }))

  unfoldable pub answer : {Resp : Type 0} → (Resp → Bytes) → Result Resp → ℕ × Bytes
  answer to_json (returned res) = (200, to_json res)
  answer to_json (threw e) = failure e

  module _ {S : Type 0} where
    -- The status, the response and the drivers' state that the call of a method leaves; `none` is a
    -- driver that is not registered.
    unfoldable pub perform :
        {Req Resp : Type 0}
        → (Bytes → Result Req)
        → (Resp → Bytes)
        → Option (Req → S → Result Resp × S)
        → Bytes
        → S
        → (ℕ × Bytes) × S
    perform from_json to_json none body s = ((404, text "Not found"), s)
    perform from_json to_json (some fn) body s =
        let (res, s') = call fn (from_json body) s in (answer to_json res, s')

    module _ (plugin : Plugin S) where
      -- The set is in the order of the names.
      unfoldable pub plugin_activate : S → Result ActivateResponse × S
      plugin_activate s = (
        returned (record {
          implements =
              announced plugin.ipam_driver (text "IpamDriver")
              ++ announced plugin.network_driver (text "NetworkDriver")
              ++ announced plugin.volume_driver (text "VolumeDriver");
        }),
        s,
      )

      -- What invoke_plugin_handler is given in the branches of on_message_complete.
      unfoldable pub method_of : Endpoint → Bytes → S → (ℕ × Bytes) × S
      method_of plugin_activates =
          perform read_empty (Messages.activate_response json)
            (some (λ (req : Unit {0}). plugin_activate))
      method_of volume_create =
          perform (Volume.FromJson.create_request json) (Messages.error_response json)
            (Option.map (λ (d : Volume.Driver S). d.create) plugin.volume_driver)
      method_of volume_remove =
          perform (Volume.FromJson.remove_request json) (Messages.error_response json)
            (Option.map (λ (d : Volume.Driver S). d.remove) plugin.volume_driver)
      method_of volume_mount =
          perform (Volume.FromJson.mount_request json)
            (Volume.ToJson.mount_response json convert_time)
            (Option.map (λ (d : Volume.Driver S). d.mount) plugin.volume_driver)
      method_of volume_path =
          perform (Volume.FromJson.path_request json)
            (Volume.ToJson.path_response json convert_time)
            (Option.map (λ (d : Volume.Driver S). d.path) plugin.volume_driver)
      method_of volume_unmount =
          perform (Volume.FromJson.unmount_request json) (Messages.error_response json)
            (Option.map (λ (d : Volume.Driver S). d.unmount) plugin.volume_driver)
      method_of volume_get =
          perform (Volume.FromJson.get_request json) (Volume.ToJson.get_response json convert_time)
            (Option.map (λ (d : Volume.Driver S). d.get) plugin.volume_driver)
      method_of volume_list =
          perform read_empty (Volume.ToJson.list_response json convert_time)
            (Option.map (λ (d : Volume.Driver S) req. d.list) plugin.volume_driver)
      method_of volume_capabilities =
          perform read_empty (Volume.ToJson.capabilities_response json convert_time)
            (Option.map (λ (d : Volume.Driver S) req. d.capabilities) plugin.volume_driver)
      method_of network_capabilities =
          perform read_empty (Network.ToJson.capabilities_response json)
            (Option.map (λ (d : Network.Driver S) req. d.capabilities) plugin.network_driver)
      method_of network_create_network =
          perform (Network.FromJson.create_network_request json) (Messages.error_response json)
            (Option.map (λ (d : Network.Driver S). d.create_network) plugin.network_driver)
      method_of network_allocate_network =
          perform (Network.FromJson.allocate_network_request json)
            (Network.ToJson.allocate_network_response json)
            (Option.map (λ (d : Network.Driver S). d.allocate_network) plugin.network_driver)
      method_of network_delete_network =
          perform (Network.FromJson.delete_network_request json) (Messages.error_response json)
            (Option.map (λ (d : Network.Driver S). d.delete_network) plugin.network_driver)
      method_of network_free_network =
          perform (Network.FromJson.free_network_request json) (Messages.error_response json)
            (Option.map (λ (d : Network.Driver S). d.free_network) plugin.network_driver)
      method_of network_create_endpoint =
          perform (Network.FromJson.create_endpoint_request json)
            (Network.ToJson.create_endpoint_response json)
            (Option.map (λ (d : Network.Driver S). d.create_endpoint) plugin.network_driver)
      method_of network_delete_endpoint =
          perform (Network.FromJson.delete_endpoint_request json) (Messages.error_response json)
            (Option.map (λ (d : Network.Driver S). d.delete_endpoint) plugin.network_driver)
      method_of network_endpoint_info =
          perform (Network.FromJson.info_request json) (Network.ToJson.info_response json)
            (Option.map (λ (d : Network.Driver S). d.endpoint_info) plugin.network_driver)
      method_of network_join =
          perform (Network.FromJson.join_request json) (Network.ToJson.join_response json)
            (Option.map (λ (d : Network.Driver S). d.join) plugin.network_driver)
      method_of network_leave =
          perform (Network.FromJson.leave_request json) (Messages.error_response json)
            (Option.map (λ (d : Network.Driver S). d.leave) plugin.network_driver)
      method_of network_discover_new =
          perform (Network.FromJson.discovery_notification json) (Messages.error_response json)
            (Option.map (λ (d : Network.Driver S). d.discover_new) plugin.network_driver)
      method_of network_discover_delete =
          perform (Network.FromJson.discovery_notification json) (Messages.error_response json)
            (Option.map (λ (d : Network.Driver S). d.discover_delete) plugin.network_driver)
      method_of network_program_external_connectivity =
          perform (Network.FromJson.program_external_connectivity_request json)
            (Messages.error_response json)
            (Option.map (λ (d : Network.Driver S). d.program_external_connectivity)
              plugin.network_driver)
      method_of network_revoke_external_connectivity =
          perform (Network.FromJson.revoke_external_connectivity_request json)
            (Messages.error_response json)
            (Option.map (λ (d : Network.Driver S). d.revoke_external_connectivity)
              plugin.network_driver)
      method_of ipam_capabilities =
          perform read_empty (Ipam.ToJson.capabilities_response json)
            (Option.map (λ (d : Ipam.Driver S) req. d.capabilities) plugin.ipam_driver)
      method_of ipam_default_address_spaces =
          perform read_empty (Ipam.ToJson.address_spaces_response json)
            (Option.map (λ (d : Ipam.Driver S) req. d.default_address_spaces) plugin.ipam_driver)
      method_of ipam_request_pool =
          perform (Ipam.FromJson.request_pool_request json) (Ipam.ToJson.request_pool_response json)
            (Option.map (λ (d : Ipam.Driver S). d.request_pool) plugin.ipam_driver)
      method_of ipam_release_pool =
          perform (Ipam.FromJson.release_pool_request json) (Messages.error_response json)
            (Option.map (λ (d : Ipam.Driver S). d.release_pool) plugin.ipam_driver)
      method_of ipam_request_address =
          perform (Ipam.FromJson.request_address_request json)
            (Ipam.ToJson.request_address_response json)
            (Option.map (λ (d : Ipam.Driver S). d.request_address) plugin.ipam_driver)
      method_of ipam_release_address =
          perform (Ipam.FromJson.release_address_request json) (Messages.error_response json)
            (Option.map (λ (d : Ipam.Driver S). d.release_address) plugin.ipam_driver)
