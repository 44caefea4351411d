-- ===== src/Json/Laws.antt =====
-- What the helpers of serialize.cpp give on the objects that they build and on the values they
-- are given.
use docker_plugin_cpp.Base.{
  ◌≡◌, ◌∙◌, inl, inr, Bytes, [], Option, none, some, Bool, true, false, Option-cases, if◌then◌else◌,
  if_true, if_false, compare_by_self,
}
use docker_plugin_cpp.Map.{Map}
use docker_plugin_cpp.Map
use docker_plugin_cpp.Map.Laws.{lookup-assign}
use docker_plugin_cpp.Result.{returned, threw, standard}
use docker_plugin_cpp.Json.{
  Picojson, Strings, byte_rank, object_of, read_map, map_at, put, string_at,
}

module _ (json : Picojson) where
  open json use {Value, of_string, get_object, get_string-of_string}

  pub read_map-object :
      (map : Strings) (val : Value) (obj : Map Value)
      → get_object val ≡ some obj
      → read_map json map val ≡ returned map
  unfolding read_map
  read_map-object map val obj e = cc

  pub read_map-other :
      (map : Strings) (val : Value)
      → get_object val ≡ none
      → read_map json map val ≡ threw (standard json.mismatch)
  unfolding read_map object_of
  read_map-other map val e = cc

  -- The key is there, and its value is not an object.
  abbrev pub is_not_object : Option Value → Bool
  is_not_object none = false
  is_not_object (some val) = elim (get_object val) [ none ↦ true | some _ ↦ false ]

  -- Whatever a request carries under a key, the map that is read of it is empty.
  pub map_at_lem :
      (key : Bytes) (obj : Map Value)
      → map_at json key obj ≡ (
          if is_not_object (Map.lookup byte_rank key obj)
          then threw (standard json.mismatch)
          else returned [])
  unfolding map_at
  map_at_lem key obj = elim (Option-cases (Map.lookup byte_rank key obj)) [
    | inl absent ↦ cc absent
    | inr (val, found) ↦ elim (Option-cases (get_object val)) [
      | inl other ↦ cc (found, read_map-other [] val other)
      | inr (inner, e) ↦ cc (found, read_map-object [] val inner e)
    ]
  ]

  pub string_at-found :
      (key s : Bytes) (obj : Map Value)
      → Map.lookup byte_rank key obj ≡ some (of_string s)
      → string_at json key obj ≡ s
  unfolding string_at
  string_at-found key s obj e = cc (e, get_string-of_string s)

  pub string_at-put_self :
      (key s : Bytes) (obj : Map Value) → string_at json key (put json key (of_string s) obj) ≡ s
  unfolding put
  string_at-put_self key s obj =
      let same : Map.equivalent byte_rank key key ≡ true = cc (compare_by_self byte_rank key) in
      string_at-found key s (put json key (of_string s) obj)
        (lookup-assign byte_rank key key (of_string s) obj ∙ if_true _ _ same)

  pub string_at-put_ne :
      (key other : Bytes) (val : Value) (obj : Map Value)
      → Map.equivalent byte_rank key other ≡ false
      → string_at json key (put json other val obj) ≡ string_at json key obj
  unfolding put string_at
  string_at-put_ne key other val obj differ = cc (
    lookup-assign byte_rank other key val obj,
    if_false (some val) (Map.lookup byte_rank key obj) differ,
  )
