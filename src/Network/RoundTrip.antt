-- ===== src/Network/RoundTrip.antt =====
-- An endpoint's interface, as serialize.cpp writes it and reads it.
use docker_plugin_cpp.Base.{◌≡◌, refl, ◌∙◌, text, [], compare_by}
use docker_plugin_cpp.Json.{Picojson, put, string_at}
use docker_plugin_cpp.Json.Laws.{string_at-put_self, string_at-put_ne}
use docker_plugin_cpp.Map.{Map}
use docker_plugin_cpp.Network.{EndpointInterface}
use docker_plugin_cpp.Network.FromJson.{parse_endpoint_interface}
use docker_plugin_cpp.Network.ToJson.{serialize_endpoint_interface}

module _ (json : Picojson) where
  open json use {Value, of_string, of_object, get_object, get_object-of_object}

  -- The interface that is read of an object.
  abbrev interface_of : Map Value → EndpointInterface
  interface_of obj = record {
    ipv4_address = string_at json (text "Address") obj;
    ipv6_address = string_at json (text "AddressIPv6") obj;
    mac_address = string_at json (text "MacAddress") obj;
  }

  parse-of_object :
      (obj : Map Value) → parse_endpoint_interface json (of_object obj) ≡ interface_of obj
  unfolding parse_endpoint_interface
  parse-of_object obj = cc (get_object-of_object obj)

  abbrev written : EndpointInterface → Map Value
  written ei = put json (text "MacAddress") (of_string ei.mac_address) (
      put json (text "AddressIPv6") (of_string ei.ipv6_address)
        (put json (text "Address") (of_string ei.ipv4_address) []))

  ipv4_address-written :
      (ei : EndpointInterface) → string_at json (text "Address") (written ei) ≡ ei.ipv4_address
  unfolding text compare_by
  ipv4_address-written ei =
      string_at-put_ne json (text "Address") (text "MacAddress") _ _ refl
      ∙ string_at-put_ne json (text "Address") (text "AddressIPv6") _ _ refl
      ∙ string_at-put_self json (text "Address") _ _

  ipv6_address-written :
      (ei : EndpointInterface) → string_at json (text "AddressIPv6") (written ei) ≡ ei.ipv6_address
  unfolding text compare_by
  ipv6_address-written ei =
      string_at-put_ne json (text "AddressIPv6") (text "MacAddress") _ _ refl
      ∙ string_at-put_self json (text "AddressIPv6") _ _

  interface_of-written : (ei : EndpointInterface) → interface_of (written ei) ≡ ei
  interface_of-written ei = cc (
    ipv4_address-written ei,
    ipv6_address-written ei,
    string_at-put_self json (text "MacAddress") ei.mac_address (
        put json (text "AddressIPv6") (of_string ei.ipv6_address)
          (put json (text "Address") (of_string ei.ipv4_address) [])),
  )

  -- What serialize_endpoint_interface writes, parse_endpoint_interface reads back, whatever the
  -- three addresses are.
  pub parse-serialize_endpoint_interface :
      (ei : EndpointInterface)
      → parse_endpoint_interface json (serialize_endpoint_interface json ei) ≡ ei
  unfolding serialize_endpoint_interface
  parse-serialize_endpoint_interface ei = parse-of_object (written ei) ∙ interface_of-written ei
