-- ===== src/Logger.antt =====
-- logger.h and logger.cpp: the levels, and the logger that prints.
use docker_plugin_cpp.Base.{
  c_str, ℕ, ◌++◌, Option, none, some, Bytes, text, Bool, leb, not, if◌then◌else◌,
}

pub data Level : Type 0 where
  error warning info debug trace : Level

unfoldable pub level_code : Level → ℕ
level_code error = 0
level_code warning = 1
level_code info = 2
level_code debug = 3
level_code trace = 4

-- The table `levels`.
unfoldable pub level_name : Level → Bytes
level_name error = text "error"
level_name warning = text "warning"
level_name info = text "info"
level_name debug = text "debug"
level_name trace = text "trace"

unfoldable pub should_log : Level → Level → Bool
unfolding level_code
should_log min_level l = leb (level_code l) (level_code min_level)

-- The line on stdout, given the time as text.
unfoldable pub stdout_log : Bytes → Level → Level → Bytes → Option Bytes
unfolding should_log level_name c_str text
stdout_log time min_level l msg =
    if not (should_log min_level l)
    then none
    else some (time ++ text " " ++ level_name l ++ text " " ++ c_str msg ++ text "\n")
