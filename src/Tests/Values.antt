-- ===== src/Tests/Values.antt =====
-- A small instance of the interface to picojson, for the tests.
use docker_plugin_cpp.Base.{
  ◌≡◌, refl, ap, ◌++◌, List, [], ◌∷◌, Option, none, some, Bytes, text, Bool,
}
use docker_plugin_cpp.Base.Int.{ℤ}
use docker_plugin_cpp.Map.{Map}
use docker_plugin_cpp.Json.{Picojson}

mutual
  pub data Value : Type 0 where
    a_string : Bytes → Value
    a_bool : Bool → Value
    an_int : ℤ → Value
    an_array : Items → Value
    an_object : Fields → Value

  pub data Items : Type 0 where
    no_items : Items
    item : Value → Items → Items

  pub data Fields : Type 0 where
    no_fields : Fields
    field : Bytes → Value → Fields → Fields

abbrev pub to_items : List Value → Items
to_items [] = no_items
to_items (v ∷ vs) = item v (to_items vs)

abbrev pub of_items : Items → List Value
of_items no_items = []
of_items (item v vs) = v ∷ of_items vs

pub of_items-to_items : (vs : List Value) → of_items (to_items vs) ≡ vs
of_items-to_items [] = refl
of_items-to_items (v ∷ vs) = ap (◌∷◌ v) (of_items-to_items vs)

abbrev pub to_fields : Map Value → Fields
to_fields [] = no_fields
to_fields ((k, v) ∷ m) = field k v (to_fields m)

abbrev pub of_fields : Fields → Map Value
of_fields no_fields = []
of_fields (field k v m) = (k, v) ∷ of_fields m

pub of_fields-to_fields : (m : Map Value) → of_fields (to_fields m) ≡ m
of_fields-to_fields [] = refl
of_fields-to_fields ((k, v) ∷ m) = ap (◌∷◌ (k, v)) (of_fields-to_fields m)

abbrev pub string_of : Value → Option Bytes
string_of (a_string s) = some s
string_of _ = none

abbrev pub bool_of : Value → Option Bool
bool_of (a_bool b) = some b
bool_of _ = none

abbrev pub int_of : Value → Option ℤ
int_of (an_int i) = some i
int_of _ = none

abbrev pub array_of : Value → Option (List Value)
array_of (an_array vs) = some (of_items vs)
array_of _ = none

abbrev pub object_of : Value → Option (Map Value)
object_of (an_object m) = some (of_fields m)
object_of _ = none

-- The text of an object's first string.
abbrev pub print : Value → Bytes
print (a_string s) = s
print (an_object (field k (a_string s) m)) = k ++ text ":" ++ s
print _ = text "{}"

-- A volume's name is the whole of the text, and it has one option.
abbrev pub parse_text : Bytes → Bytes × Value
parse_text [] = (text "syntax error", a_string [])
parse_text (b ∷ str) = (
  [],
  an_object (
      field (text "Name") (a_string (b ∷ str)) (
        field (text "Opts") (an_object (field (text "size") (a_string (text "10")) no_fields))
          no_fields)),
)

abbrev pub json : Picojson
json = record {
  Value = Value;
  of_string = a_string;
  of_bool = a_bool;
  of_int64 = an_int;
  of_array = λ vs. an_array (to_items vs);
  of_object = λ m. an_object (to_fields m);
  get_string = string_of;
  get_bool = bool_of;
  get_int64 = int_of;
  get_array = array_of;
  get_object = object_of;
  mismatch = text "type mismatch";
  parse = parse_text;
  serialize = print;
  get_string-of_string = λ s. refl;
  get_bool-of_bool = λ b. refl;
  get_int64-of_int64 = λ i. refl;
  get_array-of_array = λ vs. ap some (of_items-to_items vs);
  get_object-of_object = λ m. ap some (of_fields-to_fields m);
  get_object-of_string = λ s. refl;
}
