-- ===== src/Tests/Program.antt =====
-- The whole of the sample's main in a small world: a signal comes while select waits the second time.
use docker_plugin_cpp.Base.{◌+◌, ℕ, suc, [], none, some, Bytes, Bool, true, leb}
use docker_plugin_cpp.Server.{BindError, bytes, ready}
use docker_plugin_cpp.Server.Accounts.{held_fd}
use docker_plugin_cpp.Plugin.Serving.{Kernel, World}
use docker_plugin_cpp.Tests.Directories.{message}

-- How often the descriptor 3 was gained and lost, and the calls of select.
abbrev Clock : Type 0
Clock = ℕ × ℕ × ℕ

abbrev waiting : Kernel Clock
waiting = record {
  select = λ n fds t k. (ready [], (k.0, k.1, suc (k.2)));
  accept4 = λ s k. (none, k);
  recv = λ fd n k. (bytes [], k);
  send_answers = λ fd k. [];
  close_fd = λ fd k. (k.0, k.1 + held_fd 3 (some fd), k.2);
  socket = λ k. (some 3, (suc (k.0), k.1, k.2));
  unlink = λ path k. k;
  bind = λ fd path k. (true, k);
  listen = λ fd n k. (true, k);
  errno = λ k. 0;
  has_logger = true;
  log = λ level message k. k;
}

abbrev should_exit : Clock → Bool
should_exit k = leb 2 (k.2)

abbrev gained : Clock → ℕ
gained k = k.0

abbrev lost : Clock → ℕ
lost k = k.1

abbrev describe : BindError → Bytes
describe e = []

abbrev beginning : World Clock ℕ
beginning = record { kernel = (0, 0, 0); drivers = 0 }
