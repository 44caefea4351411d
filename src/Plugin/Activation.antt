-- ===== src/Plugin/Activation.antt =====
-- Plugin.Activate: the drivers that the plugin announces.
use docker_plugin_cpp.Base.{
  ℕ, ◌≡◌, refl, ◌∙◌, ◌++◌, List, [], ◌∷◌, Option, none, some, Bytes, text, bytes_eq, ◌&&◌, ◌||◌,
  arith, Bool, false,
}
use docker_plugin_cpp.Result.{returned}
use docker_plugin_cpp.Json.{Picojson}
use docker_plugin_cpp.Messages.{ActivateResponse}
use docker_plugin_cpp.Plugin.Methods.{Plugin, plugin_activate, announced}
use docker_plugin_cpp.Plugin.Registration.{Family, volume, network, ipam, is_some, is_registered}

-- Whether a text is in a list.
abbrev pub contains : Bytes → List Bytes → Bool
contains k [] = false
contains k (j ∷ names) = bytes_eq k j || contains k names

contains-append :
    (k : Bytes) (xs ys : List Bytes) → contains k (xs ++ ys) ≡ (contains k xs || contains k ys)
contains-append k [] ys = refl
contains-append k (x ∷ xs) ys = ground (arith, contains-append k xs ys)

contains-announced :
    {A : Type 0} (k name : Bytes) (o : Option A)
    → contains k (announced o name) ≡ (bytes_eq k name && is_some o)
contains-announced k name none = ground arith
contains-announced k name (some a) = ground arith

-- The name that Docker knows a driver by.
abbrev pub family_name : Family → Bytes
family_name volume = text "VolumeDriver"
family_name network = text "NetworkDriver"
family_name ipam = text "IpamDriver"

contains-implements :
    {A B C : Type 0} (k : Bytes) (a : Option A) (b : Option B) (c : Option C)
    → contains k (
        announced a (text "IpamDriver")
        ++ announced b (text "NetworkDriver")
        ++ announced c (text "VolumeDriver"))
      ≡ ((bytes_eq k (text "IpamDriver") && is_some a)
          || (bytes_eq k (text "NetworkDriver") && is_some b)
          || (bytes_eq k (text "VolumeDriver") && is_some c))
contains-implements k a b c = cc (
  contains-append k (announced a (text "IpamDriver") ++ announced b (text "NetworkDriver"))
      (announced c (text "VolumeDriver")),
  contains-append k (announced a (text "IpamDriver")) (announced b (text "NetworkDriver")),
  contains-announced k (text "IpamDriver") a,
  contains-announced k (text "NetworkDriver") b,
  contains-announced k (text "VolumeDriver") c,
)

family-announced :
    {A B C : Type 0} (a : Option A) (b : Option B) (c : Option C) (f : Family)
    → contains (family_name f) (
        announced a (text "IpamDriver")
        ++ announced b (text "NetworkDriver")
        ++ announced c (text "VolumeDriver"))
      ≡ elim f [ volume ↦ is_some c | network ↦ is_some b | ipam ↦ is_some a ]
unfolding text bytes_eq
family-announced a b c volume = contains-implements (text "VolumeDriver") a b c ∙ ground arith
family-announced a b c network = contains-implements (text "NetworkDriver") a b c ∙ ground arith
family-announced a b c ipam = contains-implements (text "IpamDriver") a b c ∙ ground arith

registered_lem :
    {S : Type 0} (plugin : Plugin S) (f : Family)
    → elim f [
      | volume ↦ is_some plugin.volume_driver
      | network ↦ is_some plugin.network_driver
      | ipam ↦ is_some plugin.ipam_driver
    ]
      ≡ is_registered plugin f
registered_lem plugin volume = refl
registered_lem plugin network = refl
registered_lem plugin ipam = refl

-- Plugin.Activate announces a kind of driver exactly if one is registered, and leaves the state as
-- it is.
pub plugin_activate_lem :
    {S : Type 0} (json : Picojson) (convert_time : ℕ → Bytes) (plugin : Plugin S) (f : Family)
    (s : S)
    → (response : ActivateResponse) × (plugin_activate json convert_time plugin s
        ≡ (returned response, s))
      × (contains (family_name f) response.implements ≡ is_registered plugin f)
unfolding plugin_activate
plugin_activate_lem json convert_time plugin f s = (
  _,
  refl,
  family-announced plugin.ipam_driver plugin.network_driver plugin.volume_driver f
      ∙ registered_lem plugin f,
)
