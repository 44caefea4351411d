-- ===== src/Volume.antt =====
-- volume/api.h: the requests and responses of a volume driver, and the driver as an interface.
pub mod FromJson
pub mod ToJson
pub mod Reading
pub mod Times
pub mod Options
use docker_plugin_cpp.Base.{Bytes, List, ℕ}
use docker_plugin_cpp.Json.{Strings}
use docker_plugin_cpp.Result.{Result, ErrorResponse}

pub record VolumeInfo : Type 0 where
  pub name : Bytes
  pub mountpoint : Bytes
  -- in seconds since the epoch
  pub created_at : ℕ
  pub status : Strings

pub record CreateRequest : Type 0 where
  pub name : Bytes
  pub options : Strings

pub record RemoveRequest : Type 0 where
  pub name : Bytes

pub record MountRequest : Type 0 where
  pub name : Bytes
  pub id : Bytes

pub record MountResponse : Type 0 where
  pub mountpoint : Bytes

pub record UnmountRequest : Type 0 where
  pub name : Bytes
  pub id : Bytes

pub record PathRequest : Type 0 where
  pub name : Bytes

pub record PathResponse : Type 0 where
  pub mountpoint : Bytes

pub record GetRequest : Type 0 where
  pub name : Bytes

pub record GetResponse : Type 0 where
  pub volume : VolumeInfo

pub record ListResponse : Type 0 where
  -- a std::set, in the order of the names
  pub volumes : List VolumeInfo

pub record Capabilities : Type 0 where
  pub scope : Bytes

pub record CapabilitiesResponse : Type 0 where
  pub capabilities : Capabilities

-- A driver's methods, over a state of its own. A method may throw.
pub record Driver (S : Type 0) : Type 0 where
  pub create : CreateRequest → S → Result ErrorResponse × S
  pub list : S → Result ListResponse × S
  pub get : GetRequest → S → Result GetResponse × S
  pub remove : RemoveRequest → S → Result ErrorResponse × S
  pub path : PathRequest → S → Result PathResponse × S
  pub mount : MountRequest → S → Result MountResponse × S
  pub unmount : UnmountRequest → S → Result ErrorResponse × S
  pub capabilities : S → Result CapabilitiesResponse × S
