-- ===== src/Sample/Driver/Volumes.antt =====
-- What the driver does for one volume: a directory that is not there, and one that create makes.
use mathlib.Core.Path.{subst}
use docker_plugin_cpp.Base.{
  ℕ, ◌≤◌, ◌≡◌, sym, ap, ◌∙◌, ◌++◌, [], some, Bytes, text, c_str, true, false,
}
use docker_plugin_cpp.Base.Digits.{to_string}
use docker_plugin_cpp.Result.{Result, returned}
use docker_plugin_cpp.Sample.Files.{Files}
use docker_plugin_cpp.Sample.Util.{is_dir, make_dirs, mode_rwx, ends_in_slash}
use docker_plugin_cpp.Sample.Util.Directories.{MakesDirectories, make_dirs-AreDirs}
use docker_plugin_cpp.Sample.Times.{latest}
use docker_plugin_cpp.Sample.Times.RoundTrip.{create_time-written}
use docker_plugin_cpp.Volume.{CreateRequest, GetResponse}
use docker_plugin_cpp.Sample.Driver.{
  refuse, report, record_creation, info, create, get, path, mount, remove,
}

-- The output is none of the files, a directory stays one whichever file is written, and mkdir makes
-- directories.
pub record Storage {W : Type 0} (files : Files W) : Type 0 where
  pub print_keeps : (s p : Bytes) (w : W) → is_dir files p (files.print s w) ≡ is_dir files p w
  pub print_reads :
      (s p : Bytes) (w : W) → files.read_file p (files.print s w) ≡ files.read_file p w
  pub write_keeps :
      (p q s : Bytes) (w : W)
      → is_dir files q w ≡ true
      → is_dir files q (files.write_file p s w) ≡ true
  pub making : MakesDirectories files

module _ {W : Type 0} (files : Files W) (root : Bytes) where
  abbrev pub said : Bytes → Bytes → W → W
  said what name w = files.print (what ++ name ++ text "\n") w

  -- What get answers for a volume that was created at a time.
  abbrev pub described : Bytes → ℕ → W → Result GetResponse × W
  described name created_at v = (
    returned (record {
      volume = record {
        name = name;
        mountpoint = root ++ name;
        created_at = created_at;
        status = [];
      };
    }),
    said (text "Get volume ") name v,
  )

  abbrev pub ts_path : Bytes → Bytes
  ts_path name = root ++ name ++ text ".create_ts"

  -- The world behind a creation.
  abbrev pub created_world : CreateRequest → W → W
  created_world req w' = files.write_file (c_str (ts_path req.name)) (to_string (files.now w')) w'

  module _ (storage : Storage files) where
    -- Of a volume that is not there, get, path, mount and remove throw an error with the status 404
    -- and only say so on the output.
    pub absent-refused :
        (name : Bytes) (w : W)
        → is_dir files (root ++ name) w ≡ false
        → (get files root (record { name = name }) w
            ≡ (refuse 404 (text "Could not find volume"), said (text "Get volume ") name w))
          × (path files root (record { name = name }) w ≡ (
            refuse 404 (text "Could not find volume " ++ name),
            said (text "Get path for volume ") name w,
          ))
          × (mount files root (record { name = name; id = [] }) w ≡ (
            refuse 404 (text "Could not find volume " ++ name),
            said (text "Mount volume ") name w,
          ))
          × (remove files root (record { name = name }) w ≡ (
            refuse 404 (text "Could not find volume " ++ name),
            said (text "Remove volume ") name w,
          ))
    unfolding get path mount remove
    absent-refused name w absent = (
      cc (storage.print_keeps (text "Get volume " ++ name ++ text "\n") (root ++ name) w, absent),
      cc (
        storage.print_keeps (text "Get path for volume " ++ name ++ text "\n") (root ++ name) w,
        absent,
      ),
      cc (storage.print_keeps (text "Mount volume " ++ name ++ text "\n") (root ++ name) w, absent),
      cc (
        storage.print_keeps (text "Remove volume " ++ name ++ text "\n") (root ++ name) w,
        absent,
      ),
    )

    made_is_dir :
        (p : Bytes) (mode : ℕ) (w w' : W)
        → ends_in_slash p ≡ false
        → make_dirs files p mode w ≡ (true, w')
        → is_dir files p w' ≡ true
    made_is_dir p mode w w' open_ended made =
        let (below, there) = make_dirs-AreDirs files storage.making p mode w w' made in
        rw open_ended at there

    created_lem :
        (req : CreateRequest) (w w' : W)
        → is_dir files (root ++ req.name) w ≡ false
        → make_dirs files (root ++ req.name) mode_rwx (said (text "Creating volume ") req.name w)
          ≡ (true, w')
        → create files root req w ≡ (report [], created_world req w')
    unfolding create record_creation
    created_lem req w w' absent made =
        let seen =
          storage.print_keeps (text "Creating volume " ++ req.name ++ text "\n") (root ++ req.name)
            w
          ∙ absent in
        rw seen (ap (record_creation files root req.name) made)

    get-described :
        (name : Bytes) (n : ℕ) (v : W)
        → n ≤ latest
        → is_dir files (root ++ name) v ≡ true
        → files.read_file (c_str (ts_path name)) v ≡ some (to_string n)
        → get files root (record { name = name }) v ≡ described name n v
    unfolding get info
    get-described name n v fits there written =
        let line = text "Get volume " ++ name ++ text "\n" in
        let seen = storage.print_keeps line (root ++ name) v ∙ there in
        let time =
          create_time-written files (root ++ name) (said (text "Get volume ") name v) n fits
            (storage.print_reads line (c_str (ts_path name)) v ∙ written) in
        cc (seen, time)

    -- create, and then get, of a volume that was not there, where its directory can be made and its
    -- file, then and after the output of get, holds what was written: create returns an error
    -- response with an empty message, and get gives the name, the path under the root as its
    -- mountpoint and the time of its creation. The name does not end in a slash, and the time is one
    -- that the clock can hold, before the year 2262. The output is assumed to be none of the files, a
    -- directory to stay one whichever file is written, and mkdir to behave as documented.
    pub create-get :
        (req : CreateRequest) (w w' : W)
        → ends_in_slash (root ++ req.name) ≡ false
        → files.now w' ≤ latest
        → is_dir files (root ++ req.name) w ≡ false
        → make_dirs files (root ++ req.name) mode_rwx (said (text "Creating volume ") req.name w)
          ≡ (true, w')
        → files.read_file (c_str (root ++ req.name ++ text ".create_ts")) (
            files.write_file
              (c_str (root ++ req.name ++ text ".create_ts"))
              (to_string (files.now w'))
              w')
          ≡ some (to_string (files.now w'))
        → let (response, v) = create files root req w in
          (response ≡ report [])
          × (get files root (record { name = req.name }) v ≡ described req.name (files.now w') v)
    unfolding c_str text
    create-get req w w' open_ended fits absent made written =
        let directory =
          made_is_dir (root ++ req.name) mode_rwx (said (text "Creating volume ") req.name w) w'
            open_ended made in
        let there =
          storage.write_keeps _ (root ++ req.name) (to_string (files.now w')) w' directory in
        let created = created_lem req w w' absent made in
        let found =
          get-described req.name (files.now w') (created_world req w') fits there written in
        (
          ap (λ r. r.0) created,
          subst
              (λ v.
                get files root (record { name = req.name }) v ≡ described req.name (files.now w') v)
              (sym (ap (λ r. r.1) created)) found,
        )
