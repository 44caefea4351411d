-- ===== src/Sample/Util/Removal.antt =====
-- The run of remove_dir.
use docker_plugin_cpp.Base.{ℕ, ◌≤◌, List, Option, none, some, Bytes, Bool, false}
use docker_plugin_cpp.Sample.Files.{Files, DirEntry}
use docker_plugin_cpp.Sample.Util.{loop_entries, remove_entry}

-- What is removed makes no directory deeper.
pub record Shrinking {W : Type 0} (files : Files W) (depth : Bytes → W → ℕ) : Type 0 where
  pub unlink_shrinks : (p q : Bytes) (w : W) → depth q (files.unlink p w).1 ≤ depth q w
  pub rmdir_shrinks : (p q : Bytes) (w : W) → depth q (files.rmdir p w).1 ≤ depth q w

module _ {W : Type 0} (files : Files W) (depth : Bytes → W → ℕ) where
  abbrev Shrinks : W → W → Type 0
  Shrinks v v' = (q : Bytes) → depth q v' ≤ depth q v

  -- A call that ended, in a world with nothing deeper.
  abbrev pub Ended : W → Option (Bool × W) → Type 0
  Ended v none = ⊥
  Ended v (some (removed, v')) = Shrinks v v'

  abbrev Looped : W → Bool × Option W → Type 0
  Looped v (go_on, none) = ⊥
  Looped v (go_on, some v') = Shrinks v v'

  module _ (shrinking : Shrinking files depth) where
    -- The two ends of loop_dir.
    abbrev OpenedLooped :
        (Bytes → W → Option (Bool × W)) → Bytes → W → Option (List DirEntry) → Type 0
    OpenedLooped remove_below path v o = Looped v (elim o [
      | none ↦ (false, some v)
      | some es ↦ loop_entries (remove_entry files remove_below path) es (some v)
    ])
