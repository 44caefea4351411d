-- ===== src/Sample/Util/WorkingDirectory.antt =====
-- The runs of cwd.
use docker_plugin_cpp.Base.{
  ℕ, zero, suc, ◌+◌, ◌*◌, ◌≤◌, ◌<◌, ◌≡◌, ◌≢◌, none, some, Bytes, c_str, true, false, arith, not,
  ◌==◌, length,
}
use native.Mathlib.Decide.{dec_lt}
use docker_plugin_cpp.Result.{returned, threw, standard}
use docker_plugin_cpp.Sample.Files.{Files}
use docker_plugin_cpp.Sample.Util.{erange, grow, cwd_result, cwd}

-- getcwd as it is documented: where the path and its NUL fit into the buffer, it gives the path and
-- leaves errno as it is; where they do not, it fails with ERANGE.
pub record Cwd {W : Type 0} (files : Files W) (path : Bytes) : Type 0 where
  pub fits : (size : ℕ) (w : W) → length path < size → files.getcwd size w ≡ (some path, w)
  pub too_long :
      (size : ℕ) (w : W)
      → size ≤ length path
      → ((files.getcwd size w).0 ≡ none) × (files.errno (files.getcwd size w).1 ≡ erange)
  pub errno_set : (e : ℕ) (w : W) → files.errno (files.set_errno e w) ≡ e
  pub c_string : c_str path ≡ path

module _ {W : Type 0} (files : Files W) (path : Bytes) (laws : Cwd files path) where
  -- From a buffer that is not empty on, the loop ends with the path.
  grow_lem :
      (fuel size : ℕ) (w : W)
      → 0 < size
      → length path + 1 < size + fuel
      → 0 < fuel
      → files.errno w ≡ 0
      → (w' : W) × (grow files fuel size w ≡ some (some path, w')) × (files.errno w' ≡ 0)
  unfolding grow
  grow_lem zero size w pos enough some_fuel clear = absurd (omega arith)
  grow_lem (suc fuel) size w pos enough some_fuel clear = elim (dec_lt (length path) size) [
    | yes fits ↦ (w, cc (laws.fits size w fits), clear)
    | no larger ↦
        let (null, range) = laws.too_long size w (omega arith) in
        let test : (files.errno (files.getcwd size w).1 == erange) ≡ true = ground (arith, range) in
        let (w', e, clear') =
          grow_lem fuel (size * 2) (files.set_errno 0 (files.getcwd size w).1) (omega arith)
            (omega arith) (omega arith) (laws.errno_set 0 _) in
        (w', cc (null, test, e), clear')
  ]

  -- If errno is 0 before it, cwd gives the path of the working directory, however long it is, and
  -- errno is 0 behind it; so many rounds as the path has bytes are enough.
  pub cwd_lem :
      (message : ℕ → Bytes) (fuel : ℕ) (w : W)
      → length path < fuel
      → files.errno w ≡ 0
      → (w' : W) × (cwd files message fuel w ≡ some (returned path, w')) × (files.errno w' ≡ 0)
  unfolding cwd cwd_result
  cwd_lem message fuel w enough clear =
      let (w', e, clear') = grow_lem fuel 10 w (omega arith) (omega arith) (omega arith) clear in
      let test : not (files.errno w' == 0) ≡ false = ground arith in
      (w', cc (e, test, laws.c_string), clear')

  -- If errno is not 0 before it and the path is of at most 9 bytes, cwd throws, although getcwd
  -- has not failed.
  pub cwd_stale :
      (message : ℕ → Bytes) (fuel : ℕ) (w : W)
      → 0 < fuel
      → length path < 10
      → files.errno w ≢ 0
      → cwd files message fuel w ≡ some (threw (standard (message (files.errno w))), w)
  unfolding cwd grow cwd_result
  cwd_stale message zero w pos short stale = absurd (omega arith)
  cwd_stale message (suc fuel) w pos short stale =
      let test : not (files.errno w == 0) ≡ true = ground arith in cc (laws.fits 10 w short, test)
