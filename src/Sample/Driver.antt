-- ===== src/Sample/Driver.antt =====
-- volume_plugin of sample_volume/src/main.cpp.
pub mod Listing
pub mod Volumes
use docker_plugin_cpp.Base.{
  ℕ, ◌++◌, ◌||◌, List, [], ◌∷◌, Option, none, some, Bytes, text, c_str, Bool, true, false, not,
  Ordering, compare_by, bytes_eq, if◌then◌else◌,
}
use docker_plugin_cpp.Base.Digits.{to_string}
use docker_plugin_cpp.Json.{byte_rank}
use docker_plugin_cpp.Result.{Result, returned, threw, thrown_response, ErrorResponse}
use docker_plugin_cpp.Volume
use docker_plugin_cpp.Volume.{
  VolumeInfo, CreateRequest, RemoveRequest, MountRequest, MountResponse, UnmountRequest,
  PathRequest, PathResponse, GetRequest, GetResponse, ListResponse, CapabilitiesResponse,
}
use docker_plugin_cpp.Sample.Files.{Files}
use docker_plugin_cpp.Sample.Util.{
  is_dot, is_dir, make_dirs, mode_rwx, loop_dir, remove_dir, remove_file,
}
use docker_plugin_cpp.Sample.Times.{create_time}

-- An error that is thrown, and one that is returned.
abbrev pub refuse : {A : Type 0} → ℕ → Bytes → Result A
refuse status error = threw (thrown_response (record { status = status; error = error }))

abbrev pub report : Bytes → Result ErrorResponse
report error = returned (record { status = 0; error = error })

-- insert on std::set<volume_info>, in the order of the names; an entry that is there is kept
unfoldable pub insert : VolumeInfo → List VolumeInfo → List VolumeInfo
insert v [] = v ∷ []
insert v (x ∷ volumes) = elim (compare_by byte_rank v.name x.name) [
  | Ordering.lt ↦ v ∷ x ∷ volumes
  | Ordering.eq ↦ x ∷ volumes
  | Ordering.gt ↦ x ∷ insert v volumes
]

module _ {W : Type 0} (files : Files W) (root : Bytes) where
  open files use {now, print, write_file}

  -- std::cout << what << name << std::endl
  abbrev say : Bytes → Bytes → W → W
  say what name w = print (what ++ name ++ text "\n") w

  -- The volume of a name, as list and get describe it.
  unfoldable pub info : Bytes → W → VolumeInfo
  unfolding create_time
  info name w = record {
    name = name;
    mountpoint = root ++ name;
    created_at = create_time files (root ++ name) w;
    status = [];
  }

  -- The end of create, where the directory was not there.
  unfoldable pub record_creation : Bytes → Bool × W → Result ErrorResponse × W
  unfolding text c_str to_string
  record_creation name (false, w) = (report (text "Failed to create volume directory"), w)
  record_creation name (true, w) =
      (report [], write_file (c_str (root ++ name ++ text ".create_ts")) (to_string (now w)) w)

  unfoldable pub create : CreateRequest → W → Result ErrorResponse × W
  unfolding text is_dir make_dirs record_creation
  create req w =
      let w' = say (text "Creating volume ") req.name w in
      if is_dir files (root ++ req.name) w'
      then (refuse 409 (text "volume " ++ req.name ++ text " already exists"), w')
      else record_creation req.name (make_dirs files (root ++ req.name) mode_rwx w')

  -- The callback of list: the volumes so far, in a world that it does not change.
  unfoldable pub list_entry : W → Bytes → Bool → List VolumeInfo → Bool × List VolumeInfo
  unfolding is_dot insert info
  list_entry w path is_directory volumes =
      if not is_directory || is_dot path
      then (true, volumes)
      else (true, insert (info path w) volumes)

  unfoldable pub list : W → Result ListResponse × W
  unfolding text loop_dir list_entry
  list w =
      let w' = print (text "Listing volumes\n") w in
      let (looped, volumes) = loop_dir files root (list_entry w') w' [] in
      (returned (record { volumes = volumes }), w')

  unfoldable pub get : GetRequest → W → Result GetResponse × W
  unfolding text is_dir info
  get req w =
      let w' = say (text "Get volume ") req.name w in
      if not (is_dir files (root ++ req.name) w')
      then (refuse 404 (text "Could not find volume"), w')
      else (returned (record { volume = info req.name w' }), w')

  -- The end of remove, where the directory was there; `none` is a call of remove_dir that is out of
  -- fuel.
  unfoldable pub forget_creation : Bytes → Option (Bool × W) → W → Result ErrorResponse × W
  unfolding text remove_file
  forget_creation name none w = (report (text "Failed to remove volume"), w)
  forget_creation name (some (false, w')) w = (report (text "Failed to remove volume"), w')
  forget_creation name (some (true, w')) w =
      (report [], (remove_file files (root ++ name ++ text ".create_ts") w').1)

  unfoldable pub remove : RemoveRequest → W → Result ErrorResponse × W
  unfolding text is_dir remove_dir forget_creation
  remove req w =
      let w' = say (text "Remove volume ") req.name w in
      if not (is_dir files (root ++ req.name) w')
      then (refuse 404 (text "Could not find volume " ++ req.name), w')
      else forget_creation req.name (remove_dir files (root ++ req.name) true w') w'

  unfoldable pub path : PathRequest → W → Result PathResponse × W
  unfolding text is_dir
  path req w =
      let w' = say (text "Get path for volume ") req.name w in
      if is_dir files (root ++ req.name) w'
      then (returned (record { mountpoint = root ++ req.name }), w')
      else (refuse 404 (text "Could not find volume " ++ req.name), w')

  unfoldable pub mount : MountRequest → W → Result MountResponse × W
  unfolding text is_dir
  mount req w =
      let w' = say (text "Mount volume ") req.name w in
      if is_dir files (root ++ req.name) w'
      then (returned (record { mountpoint = root ++ req.name }), w')
      else (refuse 404 (text "Could not find volume " ++ req.name), w')

  unfoldable pub unmount : UnmountRequest → W → Result ErrorResponse × W
  unfolding text
  unmount req w = (report [], say (text "Unmount volume ") req.name w)

  unfoldable pub capabilities : W → Result CapabilitiesResponse × W
  unfolding text
  capabilities w = (returned (record { capabilities = record { scope = text "Local" } }), w)

  -- The driver's methods, on the world as its state.
  unfoldable pub volume_plugin : Volume.Driver W
  unfolding create list get remove path mount unmount capabilities
  volume_plugin = record {
    create = create;
    list = list;
    get = get;
    remove = remove;
    path = path;
    mount = mount;
    unmount = unmount;
    capabilities = capabilities;
  }
