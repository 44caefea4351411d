-- ===== src/Volume/Reading.antt =====
-- How Docker reads the volumes in a response.
use docker_plugin_cpp.Base.{
  ℕ, ◌≡◌, refl, ◌∙◌, List, [], ◌∷◌, map, Option, none, some, Bytes, text, compare_by,
  compare_by_self,
}
use docker_plugin_cpp.Json.{Picojson, byte_rank, string_at, put, write_map}
use docker_plugin_cpp.Json.Laws.{string_at-put_self, string_at-put_ne}
use docker_plugin_cpp.Map.{Map}
use docker_plugin_cpp.Map
use docker_plugin_cpp.Volume.{VolumeInfo, GetResponse, ListResponse}
use docker_plugin_cpp.Volume.ToJson.{to_json_raw, get_response, list_response}

-- A volume as a response shows it.
pub record Seen : Type 0 where
  pub name : Bytes
  pub mountpoint : Bytes
  pub created_at : Bytes

module _ (json : Picojson) where
  open json use {
    Value, of_object, of_array, of_string, get_object, get_array, parse, serialize,
    get_object-of_object, get_array-of_array, get_string-of_string,
  }

  read_volume : Value → Option Seen
  read_volume val = elim (get_object val) [
    | none ↦ none
    | some obj ↦ some (record {
      name = string_at json (text "Name") obj;
      mountpoint = string_at json (text "Mountpoint") obj;
      created_at = string_at json (text "CreatedAt") obj;
    })
  ]

  -- The value under a key of the object that a text is.
  member_of : Bytes → Bytes → Option Value
  member_of key str = elim (get_object (parse str).1) [
    | none ↦ none
    | some obj ↦ Map.lookup byte_rank key obj
  ]

  pub read_get_response : Bytes → Option Seen
  read_get_response str = elim (member_of (text "Volume") str) [
    | none ↦ none
    | some val ↦ read_volume val
  ]

  read_volumes : List Value → Option (List Seen)
  read_volumes [] = some []
  read_volumes (val ∷ vals) = elim (read_volume val) [
    | none ↦ none
    | some v ↦ elim (read_volumes vals) [ none ↦ none | some vs ↦ some (v ∷ vs) ]
  ]

  pub read_list_response : Bytes → Option (List Seen)
  read_list_response str = elim (member_of (text "Volumes") str) [
    | none ↦ none
    | some val ↦ elim (get_array val) [ none ↦ none | some vals ↦ read_volumes vals ]
  ]

  module _ (convert_time : ℕ → Bytes) where
    abbrev pub seen : VolumeInfo → Seen
    seen v = record {
      name = v.name;
      mountpoint = v.mountpoint;
      created_at = convert_time v.created_at;
    }

    abbrev written : VolumeInfo → Map Value
    written v = put json (text "Status") (write_map json v.status) (
        put json (text "CreatedAt") (of_string (convert_time v.created_at)) (
          put json (text "Mountpoint") (of_string v.mountpoint)
            (put json (text "Name") (of_string v.name) [])))

    created_at-written :
        (v : VolumeInfo) → string_at json (text "CreatedAt") (written v) ≡ convert_time v.created_at
    unfolding text compare_by
    created_at-written v =
        string_at-put_ne json (text "CreatedAt") (text "Status") _ _ refl
        ∙ string_at-put_self json (text "CreatedAt") _ _

    mountpoint-written :
        (v : VolumeInfo) → string_at json (text "Mountpoint") (written v) ≡ v.mountpoint
    unfolding text compare_by
    mountpoint-written v =
        string_at-put_ne json (text "Mountpoint") (text "Status") _ _ refl
        ∙ string_at-put_ne json (text "Mountpoint") (text "CreatedAt") _ _ refl
        ∙ string_at-put_self json (text "Mountpoint") _ _

    name-written : (v : VolumeInfo) → string_at json (text "Name") (written v) ≡ v.name
    unfolding text compare_by
    name-written v =
        string_at-put_ne json (text "Name") (text "Status") _ _ refl
        ∙ string_at-put_ne json (text "Name") (text "CreatedAt") _ _ refl
        ∙ string_at-put_ne json (text "Name") (text "Mountpoint") _ _ refl
        ∙ string_at-put_self json (text "Name") _ _

    read_volume-to_json_raw :
        (v : VolumeInfo) → read_volume (to_json_raw json convert_time v) ≡ some (seen v)
    unfolding read_volume to_json_raw
    read_volume-to_json_raw v = cc (
      get_object-of_object (written v),
      name-written v,
      mountpoint-written v,
      created_at-written v,
    )

    read_volumes-map :
        (vs : List VolumeInfo)
        → read_volumes (map (to_json_raw json convert_time) vs) ≡ some (map seen vs)
    unfolding read_volumes
    read_volumes-map [] = refl
    read_volumes-map (v ∷ vs) = cc (read_volume-to_json_raw v, read_volumes-map vs)

    abbrev pub member : Bytes → Value → Value
    member key val = of_object (put json key val [])

    member_of-member :
        (key : Bytes) (val : Value)
        → parse (serialize (member key val)) ≡ ([], member key val)
        → member_of key (serialize (member key val)) ≡ some val
    unfolding member_of put Map.assign Map.lookup
    member_of-member key val h =
        cc (h, get_object-of_object ((key, val) ∷ []), compare_by_self byte_rank key)

    -- What Docker reads of the response to get is the name of the volume, its mountpoint and the time
    -- of its creation, if picojson reads back what it wrote.
    pub read_get_response_lem :
        (r : GetResponse)
        → (let val = member (text "Volume") (to_json_raw json convert_time r.volume) in
            parse (serialize val) ≡ ([], val))
        → read_get_response (get_response json convert_time r) ≡ some (seen r.volume)
    unfolding read_get_response get_response
    read_get_response_lem r h =
        let val = to_json_raw json convert_time r.volume in
        cc (member_of-member (text "Volume") val h, read_volume-to_json_raw r.volume)

    -- What Docker reads of the response to list are the names of the volumes, their mountpoints and
    -- the times of their creation, in the order of the set, if picojson reads back what it wrote.
    pub read_list_response_lem :
        (r : ListResponse)
        → (let val =
              member (text "Volumes") (of_array (map (to_json_raw json convert_time) r.volumes)) in
            parse (serialize val) ≡ ([], val))
        → read_list_response (list_response json convert_time r) ≡ some (map seen r.volumes)
    unfolding read_list_response list_response
    read_list_response_lem r h =
        let vals = map (to_json_raw json convert_time) r.volumes in
        cc (
          member_of-member (text "Volumes") (of_array vals) h,
          get_array-of_array vals,
          read_volumes-map r.volumes,
        )
