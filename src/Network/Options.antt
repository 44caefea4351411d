-- ===== src/Network/Options.antt =====
-- What the requests to create and to allocate a network give the driver.
use docker_plugin_cpp.Base.{◌≡◌, refl, List, [], Bytes, text, Bool-cases, inl, inr, if◌then◌else◌}
use docker_plugin_cpp.Map.{Map}
use docker_plugin_cpp.Map
use docker_plugin_cpp.Result.{Result, returned, threw, standard, ◌>>=◌}
use docker_plugin_cpp.Json.{Picojson, byte_rank, parse_object, string_at}
use docker_plugin_cpp.Json.Laws.{map_at_lem, is_not_object}
use docker_plugin_cpp.Network.{CreateNetworkRequest, IpamData}
use docker_plugin_cpp.Network.FromJson.{create_network_request, ipam_data_at}

module _ (json : Picojson) where
  -- Reading a field twice is reading it once.
  read_twice :
      {A B : Type 0} (m : Result A) (f : A → Result B) → (m >>= λ (_ : A). m >>= f) ≡ (m >>= f)
  read_twice (returned a) f = refl
  read_twice (threw e) f = refl

  abbrev pub created : Map json.Value → List IpamData → Result CreateNetworkRequest
  created obj pools = returned (record {
    network_id = string_at json (text "NetworkID") obj;
    options = [];
    ipv4_data = pools;
    ipv6_data = [];
  })

  -- Of a body that is an object, the request to create a network is read with the name and the
  -- IPv4 pools that it carries, without any option and without any IPv6 pool. Where Options is
  -- there and not an object, it is refused by the exception of get<object>(), and where the IPv4
  -- pools cannot be read, by the exception of theirs.
  pub create_network_request_lem :
      (body : Bytes) (obj : Map json.Value)
      → parse_object json body ≡ returned obj
      → create_network_request json body ≡ (
          if is_not_object json (Map.lookup byte_rank (text "Options") obj)
          then threw (standard json.mismatch)
          else ipam_data_at json (text "IPv4Data") obj >>= λ pools. returned (record {
            network_id = string_at json (text "NetworkID") obj;
            options = [];
            ipv4_data = pools;
            ipv6_data = [];
          }))
  unfolding create_network_request
  create_network_request_lem body obj e =
      elim (Bool-cases (is_not_object json (Map.lookup byte_rank (text "Options") obj))) [
        | inl other ↦ cc (e, other, map_at_lem json (text "Options") obj)
        | inr read ↦ cc (
          e,
          read,
          map_at_lem json (text "Options") obj,
          read_twice (ipam_data_at json (text "IPv4Data") obj) (created obj),
        )
      ]
