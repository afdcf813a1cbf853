-- ===== src/Tests/Configurations.antt =====
-- The log monitor's configuration and its whole run, on a small configuration.
use docker_baseimage.Base.{
  ℕ, suc, ◌≡◌, ◌<◌, refl, true, ◌||◌, List, [], ◌∷◌, Option, none, some, arith, if◌then◌else◌,
  length, get_or,
}
use docker_baseimage.Text.{Bytes, codes, bytes_eq}
use docker_baseimage.Monitor.{
  MonitorContext, MonitorOs, Watch, FileStat, delivered, read_eintr, read_failed, full_read,
}
use docker_baseimage.Monitor.FullRead.{available, fails_first, full_read-available}
use docker_baseimage.Monitor.Notify.{no_target}
use docker_baseimage.Monitor.Notify.Kept.{times_of, IsDebounced}
use docker_baseimage.Monitor.Config.{ConfigFs, EntryKind, regular, directory}
use docker_baseimage.Monitor.Config.Contexts.{MonitorOption, opt_configdir, prepare}
use docker_baseimage.Monitor.Config.Contexts.Configured.{IsConfigured, prepare-IsConfigured}
use docker_baseimage.Monitor.Tail.{Look}
use docker_baseimage.Monitor.Program.{run_monitor}
use docker_baseimage.Monitor.Program.Debounced.{run_monitor-IsDebounced}

full_read-available_example :
    full_read 3 (read_eintr ∷ delivered (codes "ab") ∷ delivered (codes "cd") ∷ read_failed ∷ [])
    ≡ some (codes "abc")
unfolding available fails_first
full_read-available_example =
    full_read-available 2
      (read_eintr ∷ delivered (codes "ab") ∷ delivered (codes "cd") ∷ read_failed ∷ [])

abbrev lookup {ℓ} : {A : Type ℓ} → List (Bytes × A) → Bytes → Option A
lookup [] path = none
lookup ((p, a) ∷ rest) path = if bytes_eq p path then some a else lookup rest path

abbrev dirs : List (Bytes × List (Bytes × EntryKind))
dirs =
    (codes "/c/targets.d", (codes ".", directory) ∷ (codes "m", directory) ∷ [])
    ∷ (codes "/c/targets.d/m", (codes "send", regular) ∷ (codes "debouncing", regular) ∷ [])
    ∷ (codes "/c/notifications.d", (codes "n", directory) ∷ [])
    ∷ (
      codes "/c/notifications.d/n",
      (codes "filter", regular)
          ∷ (codes "title", regular)
          ∷ (codes "desc", regular)
          ∷ (codes "level", regular)
          ∷ (codes "source", regular)
          ∷ [],
    )
    ∷ []

abbrev files : List (Bytes × Bytes)
files =
    (codes "/c/targets.d/m/debouncing", codes "9\n")
    ∷ (codes "/c/notifications.d/n/title", codes "T")
    ∷ (codes "/c/notifications.d/n/desc", codes "D")
    ∷ (codes "/c/notifications.d/n/level", codes "INFO\n")
    ∷ (codes "/c/notifications.d/n/source", codes "log:/a\n")
    ∷ []

abbrev text_of : Option Bytes → Option ℕ
text_of none = none
text_of (some s) = some (length s)

abbrev fs : ConfigFs
fs = record {
  memory = λ size. true;
  opendir = lookup dirs;
  executable = λ path.
      bytes_eq path (codes "/c/targets.d/m/send")
      || bytes_eq path (codes "/c/notifications.d/n/filter");
  file_size = λ path. text_of (lookup files path);
  open_file = λ path. elim (lookup files path) [ none ↦ none | some s ↦ some (delivered s ∷ []) ];
  junk = [];
}

abbrev options : List MonitorOption
options = opt_configdir (codes "/c") ∷ []

abbrev os : MonitorOs
os = record {
  clock = suc;
  memory = λ size. true;
  pipe = λ k. true;
  run = λ k exe line. some (record { output = []; exit_status = some 0 });
  fork = λ k. true;
  bufsiz = 16;
}

abbrev stat : FileStat
stat = record { st_size = 2; st_mtime = 1; st_dev = 1; st_ino = 1 }

-- The log gets a line.
abbrev look : Look
look = record {
  path_stat = some stat;
  fd_stat = some stat;
  new_fd = none;
  turns = record { size = some 2; current = 0; answers = delivered (codes "x\n") ∷ [] } ∷ [];
}

abbrev prepared : Option MonitorContext
prepared = prepare fs true options

abbrev context_of : Option MonitorContext → MonitorContext
context_of none = record { config_dir = []; monitored_files = []; notifications = []; targets = [] }
context_of (some ctx) = ctx

prepare-IsConfigured_example :
    IsConfigured (context_of prepared)
    × (0 < length (context_of prepared).notifications)
    × (0 < length (context_of prepared).targets)
unfolding prepare
prepare-IsConfigured_example = prepare-IsConfigured fs true options (context_of prepared) refl

abbrev watch_of : Option Watch → Watch
watch_of none = record { ctx = context_of none; calls = 0; events = [] }
watch_of (some w) = w

abbrev result : Watch
result = watch_of (run_monitor os fs true options (some 3 ∷ []) ((look ∷ []) ∷ (look ∷ []) ∷ []))

run_monitor-IsDebounced_example :
    IsDebounced
      (get_or (context_of prepared).targets 0 no_target).debouncing
      (times_of 0 0 result.events)
unfolding prepare run_monitor
run_monitor-IsDebounced_example =
    run_monitor-IsDebounced os fs true options (some 3 ∷ []) ((look ∷ []) ∷ (look ∷ []) ∷ [])
      (context_of prepared) result 0 0 (λ k. omega arith) (λ k. omega arith) refl refl (omega arith)
      (omega arith)

-- The notification went out once: the second line comes too soon.
sent_once : times_of 0 0 result.events ≡ 3 ∷ []
unfolding run_monitor times_of
sent_once = refl
