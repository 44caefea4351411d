-- ===== src/Json.antt =====
-- What serialize.cpp uses of picojson, as an interface; and its own helpers: parse_object and
-- convert_map. An object is picojson's std::map, in the order of its keys.
pub mod Laws
pub mod Unordered
use docker_plugin_cpp.Base.{
  ℕ, ◌≡◌, ◌++◌, List, [], ◌∷◌, Option, none, some, Bytes, text, Bool, true, false, is_empty,
  if◌then◌else◌,
}
use docker_plugin_cpp.Base.Int.{ℤ}
use docker_plugin_cpp.Map.{Map}
use docker_plugin_cpp.Map
use docker_plugin_cpp.Result.{Result, returned, threw, invalid_argument, standard, ◌>>=◌}

-- std::string's own order is that of the bytes.
abbrev pub byte_rank : ℕ → ℕ
byte_rank b = b

pub record Picojson : Type 1 where
  pub Value : Type 0
  -- value(const std::string&) and the other constructors
  pub of_string : Bytes → Value
  pub of_bool : Bool → Value
  pub of_int64 : ℤ → Value
  pub of_array : List Value → Value
  pub of_object : Map Value → Value
  -- get<T>() where is<T>() holds
  pub get_string : Value → Option Bytes
  pub get_bool : Value → Option Bool
  pub get_int64 : Value → Option ℤ
  pub get_array : Value → Option (List Value)
  pub get_object : Value → Option (Map Value)
  -- what() of the std::runtime_error that get<object>() throws where is<object>() does not hold
  pub mismatch : Bytes
  -- picojson::parse: the error text, empty where there is none, and the value
  pub parse : Bytes → Bytes × Value
  -- value::serialize
  pub serialize : Value → Bytes
  -- What was put in is got back, under its own type only.
  pub get_string-of_string : (s : Bytes) → get_string (of_string s) ≡ some s
  pub get_bool-of_bool : (b : Bool) → get_bool (of_bool b) ≡ some b
  pub get_int64-of_int64 : (i : ℤ) → get_int64 (of_int64 i) ≡ some i
  pub get_array-of_array : (xs : List Value) → get_array (of_array xs) ≡ some xs
  pub get_object-of_object : (m : Map Value) → get_object (of_object m) ≡ some m
  pub get_object-of_string : (s : Bytes) → get_object (of_string s) ≡ none

-- std::unordered_map<std::string, std::string>, in some order of iteration
abbrev pub Strings : Type 0
Strings = Map Bytes

-- unordered_map::emplace, which keeps the entry of a key that is there
unfoldable pub emplace_new : Bytes → Bytes → Strings → Strings
unfolding Map.lookup
emplace_new key value m = elim (Map.lookup byte_rank key m) [
  | none ↦ m ++ (key, value) ∷ []
  | some _ ↦ m
]

module _ (json : Picojson) where
  open json use {Value, of_string, of_object, get_string, get_bool, get_int64, get_object, parse}

  unfoldable pub parse_object : Bytes → Result (Map Value)
  unfolding text
  parse_object str =
      let (err, val) = parse str in
      if is_empty err
      then elim (get_object val) [
        | none ↦ threw (invalid_argument (text "not a json object"))
        | some obj ↦ returned obj
      ]
      else threw (invalid_argument err)

  abbrev string_or_empty : Option Bytes → Bytes
  string_or_empty none = []
  string_or_empty (some s) = s

  -- if (obj.count(key) != 0 && obj.at(key).is<std::string>()) res = …; into a field that is empty
  unfoldable pub string_at : Bytes → Map Value → Bytes
  unfolding Map.lookup
  string_at key obj = elim (Map.lookup byte_rank key obj) [
    | none ↦ []
    | some val ↦ string_or_empty (get_string val)
  ]

  -- The same for bool, into a field that is false.
  unfoldable pub bool_at : Bytes → Map Value → Bool
  unfolding Map.lookup
  bool_at key obj = elim (Map.lookup byte_rank key obj) [
    | none ↦ false
    | some val ↦ elim (get_bool val) [ none ↦ false | some b ↦ b ]
  ]

  -- The body of the loop in convert_map(map, val).
  unfoldable pub emplace_strings : Strings → Map Value → Strings
  unfolding emplace_new
  emplace_strings map [] = map
  emplace_strings map ((key, val) ∷ obj) =
      emplace_strings (elim (get_string val) [ none ↦ map | some s ↦ emplace_new key s map ]) obj

  -- get<picojson::object>(), which throws on another type
  unfoldable pub object_of : Value → Result (Map Value)
  object_of val = elim (get_object val) [
    | none ↦ threw (standard json.mismatch)
    | some obj ↦ returned obj
  ]

  -- convert_map(map, val): the test returns early where `val` is an object
  unfoldable pub read_map : Strings → Value → Result Strings
  unfolding object_of emplace_strings
  read_map map val = elim (get_object val) [
    | some _ ↦ returned map
    | none ↦ object_of val >>= λ obj. returned (emplace_strings map obj)
  ]

  -- if (obj.count(key) != 0) convert_map(res, obj.at(key)); into a map that is empty
  unfoldable pub map_at : Bytes → Map Value → Result Strings
  unfolding Map.lookup read_map
  map_at key obj = elim (Map.lookup byte_rank key obj) [
    | none ↦ returned []
    | some val ↦ read_map [] val
  ]

  -- obj[key] = val
  unfoldable pub put : Bytes → Value → Map Value → Map Value
  unfolding Map.assign
  put key val obj = Map.assign byte_rank key val obj

  -- The loop of convert_map(map).
  unfoldable pub put_strings : Map Value → Strings → Map Value
  unfolding put
  put_strings obj [] = obj
  put_strings obj ((key, s) ∷ map) = put_strings (put key (of_string s) obj) map

  -- convert_map(map)
  unfoldable pub write_map : Strings → Value
  unfolding put_strings
  write_map map = of_object (put_strings [] map)
