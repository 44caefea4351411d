-- ===== src/Http/Headers.antt =====
-- http_header_set: a multimap whose keys are compared without regard to the case of letters.
pub mod Laws
use docker_plugin_cpp.Base.{
  ℕ, ◌+◌, ◌-◌, ◌≡◌, ◌<◌, List, [], ◌∷◌, Option, none, some, Bytes, Bool, true, false, ◌&&◌, ltb,
  leb, not, ◌==◌, length, if◌then◌else◌,
}
use docker_plugin_cpp.Map.{Map, lookup, count}
use docker_plugin_cpp.Map

-- tolower in the C locale
unfoldable pub to_lower : ℕ → ℕ
to_lower c = if leb b'A' c && leb c b'Z' then c + 32 else c

-- A byte's place in the order of (signed) char.
abbrev pub signed_rank : ℕ → ℕ
signed_rank c = if ltb c 128 then c + 128 else c - 128

-- case_insensitive_less is the lexicographic order of these ranks.
unfoldable pub header_rank : ℕ → ℕ
header_rank c = signed_rank (to_lower c)

abbrev pub HeaderSet : Type 0
HeaderSet = Map Bytes

unfoldable pub set : Bytes → Bytes → Bool → HeaderSet → HeaderSet
set key value replace hs =
    Map.emplace header_rank key value (if replace then Map.erase header_rank key hs else hs)

abbrev or_empty : Option Bytes → Bytes
or_empty none = []
or_empty (some v) = v

unfoldable pub get : Bytes → HeaderSet → Bytes
get key hs = or_empty (Map.lookup header_rank key hs)

unfoldable pub has : Bytes → HeaderSet → Bool
has key hs = not (Map.count header_rank key hs == 0)

unfoldable pub get_all : Bytes → HeaderSet → HeaderSet
get_all key hs = Map.equal_range header_rank key hs

unfoldable pub size : HeaderSet → ℕ
size hs = length hs

unfoldable pub erase : Bytes → HeaderSet → HeaderSet
erase key hs = Map.erase header_rank key hs

unfoldable pub clear : HeaderSet → HeaderSet
clear hs = []
