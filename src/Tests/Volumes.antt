-- ===== src/Tests/Volumes.antt =====
-- The sample driver and its helpers on small concrete files.
use docker_plugin_cpp.Base.{
  ◌+◌, ◌≡◌, ◌∙◌, ◌++◌, ◌||◌, refl, List, [], ◌∷◌, Option, none, some, Bytes, text, c_str, Bool,
  true, false, arith, bytes_eq, bytes_eq_iff, if◌then◌else◌,
}
use docker_plugin_cpp.Base.Digits.{to_string}
use docker_plugin_cpp.Result.{returned}
use docker_plugin_cpp.Volume.{VolumeInfo}
use docker_plugin_cpp.Sample.Files.{Files, Stat, DirEntry}
use docker_plugin_cpp.Sample.Util.{is_dir, make_dirs, mode_rwx, has_dir_bit, ends_in_slash}
use docker_plugin_cpp.Sample.Util.Paths.{parents, make_all, finish, make_dirs_lem}
use docker_plugin_cpp.Sample.Util.Directories.{MakesDirectories, AreDirs, make_dirs-AreDirs}
use docker_plugin_cpp.Sample.Util.Modes.{directory, is_dir_lem}
use docker_plugin_cpp.Sample.Driver.{report, create, list, get}
use docker_plugin_cpp.Sample.Driver.Listing.{Lists, list-Lists}
use docker_plugin_cpp.Sample.Driver.Volumes.{Storage, described, create-get}

-- The directories, and the files with what was written to them, from the last one on.
abbrev pub Disk : Type 0
Disk = List Bytes × List (Bytes × Bytes)

abbrev known : Bytes → List Bytes → Bool
known p [] = false
known p (q ∷ qs) = bytes_eq p q || known p qs

abbrev contents : Bytes → List (Bytes × Bytes) → Option Bytes
contents p [] = none
contents p ((q, s) ∷ files) = if bytes_eq p q then some s else contents p files

abbrev root_entries : List DirEntry
root_entries =
    record { d_name = text "."; is_dir = true }
    ∷ record { d_name = text "b"; is_dir = true }
    ∷ record { d_name = text "notes"; is_dir = false }
    ∷ record { d_name = text "a"; is_dir = true }
    ∷ []

abbrev pub disk_files : Files Disk
disk_files = record {
  stat = λ p w. if known p w.0 then some (record { st_mode = 16384 + 448; st_mtime = 5 }) else none;
  mkdir = λ p mode w. (true, (p ∷ w.0, w.1));
  unlink = λ p w. (true, w);
  rmdir = λ p w. (true, w);
  entries = λ p w. some root_entries;
  getcwd = λ size w. (none, w);
  errno = λ w. 0;
  set_errno = λ e w. w;
  read_file = λ p w. contents p w.1;
  write_file = λ p s w. (w.0, (p, s) ∷ w.1);
  now = λ w. 1700000000;
  print = λ s w. w;
  print_error = λ s w. w;
  indeterminate = λ w. 0;
  open_max = 1000;
}

known-mkdir :
    (p q : Bytes) (w : Disk) (old : Stat)
    → disk_files.stat q w ≡ some old
    → disk_files.stat q (disk_files.mkdir p mode_rwx w).1 ≡ disk_files.stat q w
known-mkdir p q w old e = ground (arith, e)

disk_files-MakesDirectories : MakesDirectories disk_files
unfolding has_dir_bit
disk_files-MakesDirectories = record {
  makes = λ p mode w made.
      (record { st_mode = 16384 + 448; st_mtime = 5 }, rw ((bytes_eq_iff p p).1 refl) refl, refl);
  keeps = λ p q mode w old e d. (old, known-mkdir p q w old e ∙ e, d);
}

pub disk_files-Storage : Storage disk_files
unfolding is_dir
disk_files-Storage = record {
  print_keeps = λ s p w. refl;
  print_reads = λ s p w. refl;
  write_keeps = λ p q s w there. there;
  making = disk_files-MakesDirectories;
}

abbrev pub root : Bytes
root = text "/srv/vols/"

abbrev pub mounted : Disk
mounted = (text "/srv" ∷ text "/srv/vols/" ∷ [], [])

make_dirs_example :
    make_dirs disk_files (text "/srv/vols/v1") mode_rwx mounted
    ≡ finish disk_files
        (text "/srv/vols/v1")
        mode_rwx
        (make_all disk_files (parents (text "/srv/vols/v1")) mode_rwx mounted)
unfolding text
make_dirs_example = make_dirs_lem disk_files (text "/srv/vols/v1") mode_rwx mounted

srv_is_known :
    disk_files.stat (c_str (text "/srv")) mounted ≡ some (record { st_mode = 16832; st_mtime = 5 })
unfolding c_str text bytes_eq
srv_is_known = refl

-- Of the volume v1: it is not there, and what create does for it.
abbrev pub made : Disk
made = (text "/srv/vols/v1" ∷ text "/srv/vols" ∷ mounted.0, [])

pub v1_open_ended : ends_in_slash (root ++ text "v1") ≡ false
unfolding ends_in_slash text
v1_open_ended = refl

pub v1_absent : is_dir disk_files (root ++ text "v1") mounted ≡ false
unfolding is_dir c_str text bytes_eq
v1_absent = refl

pub v1_made : make_dirs disk_files (root ++ text "v1") mode_rwx mounted ≡ (true, made)
unfolding make_dirs text c_str bytes_eq
v1_made = refl

pub v1_written :
    disk_files.read_file (c_str (root ++ text "v1" ++ text ".create_ts")) (
      disk_files.write_file
        (c_str (root ++ text "v1" ++ text ".create_ts"))
        (to_string 1700000000)
        made)
    ≡ some (to_string 1700000000)
v1_written =
    rw
      ((bytes_eq_iff (c_str (root ++ text "v1" ++ text ".create_ts"))
          (c_str (root ++ text "v1" ++ text ".create_ts"))).1
        refl)
      refl

is_dir_example : is_dir disk_files (text "/srv") mounted ≡ true
is_dir_example =
    is_dir_lem disk_files (text "/srv") mounted directory 448 5 (omega arith) srv_is_known

make_dirs-AreDirs_example :
    AreDirs disk_files disk_files-MakesDirectories made (parents (root ++ text "v1"))
    × ((ends_in_slash (root ++ text "v1") || is_dir disk_files (root ++ text "v1") made) ≡ true)
make_dirs-AreDirs_example =
    make_dirs-AreDirs disk_files disk_files-MakesDirectories (root ++ text "v1") mode_rwx mounted
      made v1_made

create-get_example :
    let (response, v) =
      create disk_files root (record { name = text "v1"; options = [] }) mounted in
    (response ≡ report [])
    × (get disk_files root (record { name = text "v1" }) v
        ≡ described disk_files root (text "v1") 1700000000 v)
create-get_example =
    create-get disk_files root disk_files-Storage (record { name = text "v1"; options = [] })
      mounted made v1_open_ended (omega arith) v1_absent v1_made v1_written

list-Lists_example :
    (volumes : List VolumeInfo) × (list disk_files root mounted
      ≡ (returned (record { volumes = volumes }), mounted))
    × Lists disk_files root mounted root_entries volumes
list-Lists_example = list-Lists disk_files root mounted root_entries refl
