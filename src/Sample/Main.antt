-- ===== src/Sample/Main.antt =====
-- The start of main, up to its loop: the root directory of the volumes. The loop calls run until a
-- signal comes; Server/Runs has any number of such calls.
use mathlib.Core.Path.{subst}
use docker_plugin_cpp.Base.{
  ◌∙◌, ap, ℕ, ◌<◌, ◌≡◌, refl, sym, ◌⊎◌, inl, inr, append_assoc, ◌++◌, Option, none, some, Bytes,
  text, Bool, true, false, arith, length, length-append,
}
use docker_plugin_cpp.Result.{Result, returned, threw}
use docker_plugin_cpp.Sample.Files.{Files}
use docker_plugin_cpp.Sample.Util.{cwd, is_dir, make_dirs, mode_rwx}
use docker_plugin_cpp.Sample.Util.Paths.{parents}
use docker_plugin_cpp.Sample.Util.Directories.{
  MakesDirectories, AreDirs, make_dirs-AreDirs, parent_is_dir,
}
use docker_plugin_cpp.Sample.Util.WorkingDirectory.{Cwd, cwd_lem}

module _ {W : Type 0} (files : Files W) where
  open files use {print_error}

  -- The root, or none where main returns -1.
  unfoldable pub make_root : Bytes → Bool × W → Option Bytes × W
  unfolding text
  make_root root (true, w) = (some root, w)
  make_root root (false, w) = (none, print_error (text "Failed to create volume directory\n") w)

  unfoldable pub choose_root : Result Bytes × W → Result (Option Bytes) × W
  unfolding text make_dirs make_root
  choose_root (threw e, w) = (threw e, w)
  choose_root (returned working, w) =
      let root = working ++ text "/vols/" in
      let (made, w') = make_root root (make_dirs files root mode_rwx w) in (returned made, w')

  -- m_root of the plugin that main registers; `none` is a loop of cwd that has not ended.
  unfoldable pub main_root : (ℕ → Bytes) → ℕ → W → Option (Result (Option Bytes) × W)
  unfolding cwd choose_root
  main_root message fuel w = elim (cwd files message fuel w) [
    | none ↦ none
    | some r ↦ some (choose_root r)
  ]

  choose_root-cases :
      (working : Bytes) (w : W) (r : Bool × W)
      → make_dirs files (working ++ text "/vols/") mode_rwx w ≡ r
      → (v : W) × ((choose_root (returned working, w) ≡ (returned none, v))
          ⊎ (choose_root (returned working, w) ≡ (returned (some (working ++ text "/vols/")), v)))
  unfolding choose_root make_root
  choose_root-cases working w (true, w') e = (w', inr (cc e))
  choose_root-cases working w (false, w') e =
      (print_error (text "Failed to create volume directory\n") w', inl (cc e))

  -- main has a root, or none.
  pub main_root-cases :
      (working : Bytes)
      → Cwd files working
      → (message : ℕ → Bytes) (fuel : ℕ) (w : W) → length working < fuel
      → files.errno w ≡ 0
      → (v : W) × ((main_root message fuel w ≡ some (returned none, v))
          ⊎ (main_root message fuel w ≡ some (returned (some (working ++ text "/vols/")), v)))
  unfolding main_root
  main_root-cases working laws message fuel w enough clear =
      let (u, e, clear') = cwd_lem files working laws message fuel w enough clear in
      let started : main_root message fuel w ≡ some (choose_root (returned working, u)) = cc e in
      let (v, chosen) = choose_root-cases working u _ refl in
      (
        v,
        elim chosen [
          | inl without ↦ inl (started ∙ ap some without)
          | inr root ↦ inr (started ∙ ap some root)
        ],
      )

  module _ (making : MakesDirectories files) (working : Bytes) (laws : Cwd files working) where
    abbrev pub Rooted : Option (Result (Option Bytes) × W) → Type 0
    Rooted started =
        (w' : W) × ((started
            ≡ some (returned none, print_error (text "Failed to create volume directory\n") w'))
          ⊎ ((started ≡ some (returned (some (working ++ text "/vols/")), w'))
              × (is_dir files (working ++ text "/vols") w' ≡ true)))

    length-vols : 0 < length (working ++ text "/vols")
    unfolding text
    length-vols = omega (arith, length-append working (text "/vols"))

    split_root : working ++ text "/vols/" ≡ working ++ text "/vols" ++ text "/"
    unfolding text
    split_root = sym (append_assoc working (text "/vols") (text "/"))

    vols_is_dir :
        (w w' : W)
        → make_dirs files (working ++ text "/vols/") mode_rwx w ≡ (true, w')
        → is_dir files (working ++ text "/vols") w' ≡ true
    vols_is_dir w w' made =
        let (below, last) =
          make_dirs-AreDirs files making (working ++ text "/vols/") mode_rwx w w' made in
        parent_is_dir files making (working ++ text "/vols") w' length-vols
          (subst (λ p. AreDirs files making w' (parents p)) split_root below)

    made_root :
        (w : W) (r : Bool × W)
        → make_dirs files (working ++ text "/vols/") mode_rwx w ≡ r
        → Rooted (some (choose_root (returned working, w)))
    unfolding choose_root make_root
    made_root w (true, w') e = (w', inr (cc e, vols_is_dir w w' e))
    made_root w (false, w') e = (w', inl (cc e))

    -- Where errno is 0 at first, main, with more rounds for cwd than its path has bytes, comes to an
    -- end with its root: either there is none, and main says so, or it is vols/ in the working
    -- directory, and is_dir holds of it without its slash, which may be a directory, or a block device
    -- or a socket, for which is_dir holds too. getcwd and mkdir are assumed to behave as documented.
    pub main_root_lem :
        (message : ℕ → Bytes) (fuel : ℕ) (w : W)
        → length working < fuel
        → files.errno w ≡ 0
        → Rooted (main_root message fuel w)
    unfolding main_root
    main_root_lem message fuel w enough clear =
        let (v, e, clear') = cwd_lem files working laws message fuel w enough clear in
        let started : main_root message fuel w ≡ some (choose_root (returned working, v)) = cc e in
        subst Rooted (sym started) (made_root v _ refl)
