-- ===== src/Monitor/Program.antt =====
-- `main` of src/logmonitor/logmonitor.c, from its options to the end of the passes that are looked at.
pub mod Debounced
use docker_baseimage.Base.{ℕ, suc, Bool, List, [], ◌∷◌, Option, none, some, ◌+◌}
use docker_baseimage.Monitor.{MonitorContext, MonitorOs, Watch}
use docker_baseimage.Monitor.Config.{ConfigFs, ◌>>=◌, ◌>>◌, guard}
use docker_baseimage.Monitor.Config.Contexts.{MonitorOption, prepare}
use docker_baseimage.Monitor.Tail.{Look, open_files, tail_files}

abbrev pub initial_watch : MonitorContext → Watch
initial_watch ctx = record { ctx = ctx; calls = 0; events = [] }

-- `none` where the program fails before the first pass. The descriptors are those that the files are
-- opened with at first.
unfoldable pub run_monitor :
    MonitorOs
    → ConfigFs
    → Bool
    → List MonitorOption
    → List (Option ℕ)
    → List (List Look)
    → Option Watch
unfolding prepare open_files tail_files
run_monitor os fs handler_set options fds passes = do
  ctx ← prepare fs handler_set options
  guard (os.memory (os.bufsiz + 1))
  some (tail_files os passes (open_files 0 fds (initial_watch ctx)))
