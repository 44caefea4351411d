-- ===== src/Plugin/Malformed.antt =====
-- Requests whose body is not a JSON object.
use mathlib.Core.Option
use docker_plugin_cpp.Base.{
  ℕ, ◌≡◌, ◌⊎◌, inl, inr, [], text, is_empty, Option, none, some, Bytes, true, false,
}
use docker_plugin_cpp.Result.{Result, threw, invalid_argument}
use docker_plugin_cpp.Json.{Picojson, parse_object}
use docker_plugin_cpp.Messages
use docker_plugin_cpp.Messages.{ActivateResponse}
use docker_plugin_cpp.Volume
use docker_plugin_cpp.Network
use docker_plugin_cpp.Ipam
use docker_plugin_cpp.Plugin.Routes.{
  Endpoint, plugin_activates, volume_create, volume_remove, volume_mount, volume_path,
  volume_unmount, volume_get, volume_list, volume_capabilities, network_capabilities,
  network_create_network, network_allocate_network, network_delete_network, network_free_network,
  network_create_endpoint, network_delete_endpoint, network_endpoint_info, network_join,
  network_leave, network_discover_new, network_discover_delete,
  network_program_external_connectivity, network_revoke_external_connectivity, ipam_capabilities,
  ipam_default_address_spaces, ipam_request_pool, ipam_release_pool, ipam_request_address,
  ipam_release_address,
}
use docker_plugin_cpp.Plugin.Methods.{Plugin, call, failure, answer, perform, method_of}
use docker_plugin_cpp.Plugin.Registration.{is_some, is_available, takes_object}

module _ (json : Picojson) where
  -- A body that picojson cannot parse, with its error, or that it parses as another value than an
  -- object.
  abbrev pub NotObject : Bytes → Bytes → Type 0
  NotObject body what =
      (val : json.Value) × (((json.parse body ≡ (what, val)) × (is_empty what ≡ false))
        ⊎ ((json.parse body ≡ ([], val))
            × (json.get_object val ≡ none)
            × (what ≡ text "not a json object")))

  NotObject-refused :
      (body what : Bytes)
      → NotObject body what
      → parse_object json body ≡ threw (invalid_argument what)
  unfolding parse_object
  NotObject-refused body what (val, inl (unparsed, there)) = cc (unparsed, there)
  NotObject-refused body what (val, inr (parsed, other, e)) = cc (parsed, other, e)

module _ (json : Picojson) (convert_time : ℕ → Bytes) {S : Type 0} where
  perform-unread :
      {Req Resp D : Type 0} (from_json : Bytes → Result Req) (to_json : Resp → Bytes)
      (method : D → Req → S → Result Resp × S) (d : Option D) (body what : Bytes) (s : S)
      → is_some d ≡ true
      → from_json body ≡ threw (invalid_argument what)
      → perform json convert_time from_json to_json (Option.map method d) body s
        ≡ (failure json convert_time (invalid_argument what), s)
  unfolding perform
  perform-unread from_json to_json method none body what s there e = cc
  perform-unread from_json to_json method (some d) body what s there e = unfold call answer in cc e

  -- A body that parse_object refuses.
  method_of-unparsed :
      (plugin : Plugin S) (endpoint : Endpoint) (body what : Bytes) (s : S)
      → is_available plugin endpoint ≡ true
      → takes_object endpoint ≡ true
      → parse_object json body ≡ threw (invalid_argument what)
      → method_of json convert_time plugin endpoint body s
        ≡ ((400, Messages.error_response json (record { status = 0; error = what })), s)
  unfolding method_of failure
  method_of-unparsed plugin plugin_activates body what s there takes e = cc takes
  method_of-unparsed plugin volume_create body what s there takes e =
      perform-unread _ _ _ _ body what s there (unfold Volume.FromJson.create_request in cc e)
  method_of-unparsed plugin volume_remove body what s there takes e =
      perform-unread _ _ _ _ body what s there (unfold Volume.FromJson.remove_request in cc e)
  method_of-unparsed plugin volume_mount body what s there takes e =
      perform-unread _ _ _ _ body what s there (unfold Volume.FromJson.mount_request in cc e)
  method_of-unparsed plugin volume_path body what s there takes e =
      perform-unread _ _ _ _ body what s there (unfold Volume.FromJson.path_request in cc e)
  method_of-unparsed plugin volume_unmount body what s there takes e =
      perform-unread _ _ _ _ body what s there (unfold Volume.FromJson.unmount_request in cc e)
  method_of-unparsed plugin volume_get body what s there takes e =
      perform-unread _ _ _ _ body what s there (unfold Volume.FromJson.get_request in cc e)
  method_of-unparsed plugin volume_list body what s there takes e = cc takes
  method_of-unparsed plugin volume_capabilities body what s there takes e = cc takes
  method_of-unparsed plugin network_capabilities body what s there takes e = cc takes
  method_of-unparsed plugin network_create_network body what s there takes e =
      perform-unread _ _ _ _ body what s there
        (unfold Network.FromJson.create_network_request in cc e)
  method_of-unparsed plugin network_allocate_network body what s there takes e =
      perform-unread _ _ _ _ body what s there
        (unfold Network.FromJson.allocate_network_request in cc e)
  method_of-unparsed plugin network_delete_network body what s there takes e =
      perform-unread _ _ _ _ body what s there
        (unfold Network.FromJson.delete_network_request in cc e)
  method_of-unparsed plugin network_free_network body what s there takes e =
      perform-unread _ _ _ _ body what s there
        (unfold Network.FromJson.free_network_request in cc e)
  method_of-unparsed plugin network_create_endpoint body what s there takes e =
      perform-unread _ _ _ _ body what s there
        (unfold Network.FromJson.create_endpoint_request in cc e)
  method_of-unparsed plugin network_delete_endpoint body what s there takes e =
      perform-unread _ _ _ _ body what s there
        (unfold Network.FromJson.delete_endpoint_request in cc e)
  method_of-unparsed plugin network_endpoint_info body what s there takes e =
      perform-unread _ _ _ _ body what s there (unfold Network.FromJson.info_request in cc e)
  method_of-unparsed plugin network_join body what s there takes e =
      perform-unread _ _ _ _ body what s there (unfold Network.FromJson.join_request in cc e)
  method_of-unparsed plugin network_leave body what s there takes e =
      perform-unread _ _ _ _ body what s there (unfold Network.FromJson.leave_request in cc e)
  method_of-unparsed plugin network_discover_new body what s there takes e =
      perform-unread _ _ _ _ body what s there
        (unfold Network.FromJson.discovery_notification in cc e)
  method_of-unparsed plugin network_discover_delete body what s there takes e =
      perform-unread _ _ _ _ body what s there
        (unfold Network.FromJson.discovery_notification in cc e)
  method_of-unparsed plugin network_program_external_connectivity body what s there takes e =
      perform-unread _ _ _ _ body what s there
        (unfold Network.FromJson.program_external_connectivity_request in cc e)
  method_of-unparsed plugin network_revoke_external_connectivity body what s there takes e =
      perform-unread _ _ _ _ body what s there
        (unfold Network.FromJson.revoke_external_connectivity_request in cc e)
  method_of-unparsed plugin ipam_capabilities body what s there takes e = cc takes
  method_of-unparsed plugin ipam_default_address_spaces body what s there takes e = cc takes
  method_of-unparsed plugin ipam_request_pool body what s there takes e =
      perform-unread _ _ _ _ body what s there (unfold Ipam.FromJson.request_pool_request in cc e)
  method_of-unparsed plugin ipam_release_pool body what s there takes e =
      perform-unread _ _ _ _ body what s there (unfold Ipam.FromJson.release_pool_request in cc e)
  method_of-unparsed plugin ipam_request_address body what s there takes e =
      perform-unread _ _ _ _ body what s there
        (unfold Ipam.FromJson.request_address_request in cc e)
  method_of-unparsed plugin ipam_release_address body what s there takes e =
      perform-unread _ _ _ _ body what s there
        (unfold Ipam.FromJson.release_address_request in cc e)

  -- A method that takes an object and is available answers 400 to a body that picojson cannot parse,
  -- with picojson's error, and to one that is another value than an object, with "not a json object";
  -- and no driver is called.
  pub method_of-malformed :
      (plugin : Plugin S) (endpoint : Endpoint) (body what : Bytes) (s : S)
      → is_available plugin endpoint ≡ true
      → takes_object endpoint ≡ true
      → NotObject json body what
      → method_of json convert_time plugin endpoint body s
        ≡ ((400, Messages.error_response json (record { status = 0; error = what })), s)
  method_of-malformed plugin endpoint body what s there takes h =
      method_of-unparsed plugin endpoint body what s there takes
        (NotObject-refused json body what h)
