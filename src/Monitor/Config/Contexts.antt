-- ===== src/Monitor/Config/Contexts.antt =====
-- `create_context`, and what `main` does before it tails the files.
pub mod Merging
pub mod Configured
use docker_baseimage.Base.{
  ℕ, zero, suc, ◌+◌, ◌-◌, Bool, true, false, not, ◌&&◌, ◌||◌, List, [], ◌∷◌, ◌++◌, Option, none,
  some, ltb, leb, ◌==◌, if◌then◌else◌, length, take, drop, replicate,
}
use docker_baseimage.Base.Int.{ℤ, pos, negsuc}
use docker_baseimage.Text.{Bytes, codes, bytes_eq, terminate_at_first_eol}
use docker_baseimage.Monitor.{
  Target, Notification, MonitoredFile, MonitorContext, max_num_notifications, max_num_targets,
}
use docker_baseimage.Monitor.Notify.{no_stat}
use docker_baseimage.Monitor.Config.{
  ConfigFs, ◌>>=◌, ◌>>◌, guard, allocate, join_path, file2str, each_file, is_set, str_starts_with,
  tokens, each_token,
}
use docker_baseimage.Monitor.Config.{EntryKind, regular, directory, other_kind}
use docker_baseimage.Monitor.Config.Targets.{alloc_target}
use docker_baseimage.Monitor.Config.Notifications.{alloc_notification}

-- The directories but '.' and '..'.
abbrev pub is_config_dir : Bytes × EntryKind → Bool
is_config_dir (name, directory) =
    not (bytes_eq name (codes ".")) && not (bytes_eq name (codes ".."))
is_config_dir (name, regular) = false
is_config_dir (name, other_kind) = false

-- The loop that loads each of them into an array of so many entries.
unfoldable pub each_dir {ℓ} :
    {A : Type ℓ} → ℕ → (Bytes → Option A) → List (Bytes × EntryKind) → List A → Option (List A)
each_dir max_num alloc [] loaded = some loaded
each_dir max_num alloc (e ∷ es) loaded =
    if is_config_dir e
    then (guard (ltb (length loaded) max_num)
        >> (alloc e.0 >>= λ a. each_dir max_num alloc es (loaded ++ a ∷ [])))
    else each_dir max_num alloc es loaded

unfoldable pub load_config_targets : ConfigFs → Bytes → Option (List Target)
unfolding each_dir alloc_target
load_config_targets fs dir = do
  entries ← fs.opendir dir
  each_dir max_num_targets (alloc_target fs dir) entries []

unfoldable pub load_config_notifications :
    ConfigFs → List Target → Bytes → Option (List Notification)
unfolding each_dir alloc_notification
load_config_notifications fs ts dir = do
  entries ← fs.opendir dir
  each_dir max_num_notifications (alloc_notification fs ts dir) entries []

abbrev pub same_type : Bool → Bool → Bool
same_type true b = b
same_type false b = not b

-- The inner loop that looks for a path: whether it is there, or `none` if it is of the other type.
unfoldable pub find_monitored : Bytes → Bool → List MonitoredFile → Option Bool
find_monitored path is_status [] = some false
find_monitored path is_status (mf ∷ mfs) =
    let rest = find_monitored path is_status mfs in
    if bytes_eq mf.path path
    then (if same_type mf.is_status is_status then some true else none)
    else rest

abbrev pub new_monitored : Bytes → Bool → MonitoredFile
new_monitored path is_status = record {
  path = path;
  fd = none;
  is_status = is_status;
  last_read = 0;
  last_stat = no_stat;
  pending_buf = none;
}

abbrev pub add_unless :
    ConfigFs → Bytes → Bool → List MonitoredFile → Bool → Option (List MonitoredFile)
add_unless fs path is_status mfs true = some mfs
add_unless fs path is_status mfs false =
    allocate fs (length path + 1) >> some (mfs ++ new_monitored path is_status ∷ [])

-- The files of one notification.
unfoldable pub add_monitored :
    ConfigFs → List (Bytes × Bool) → List MonitoredFile → Option (List MonitoredFile)
unfolding find_monitored
add_monitored fs [] mfs = some mfs
add_monitored fs ((path, is_status) ∷ files) mfs = find_monitored path is_status mfs >>= λ exists.
    add_unless fs path is_status mfs exists >>= add_monitored fs files

unfoldable pub add_all_monitored :
    ConfigFs → List Notification → List MonitoredFile → Option (List MonitoredFile)
unfolding add_monitored
add_all_monitored fs [] mfs = some mfs
add_all_monitored fs (n ∷ ns) mfs =
    add_monitored fs n.monitored_files mfs >>= add_all_monitored fs ns

-- sizeof(lm_context_t), where pointers, time_t and off_t have 8 bytes and a struct stat has 144.
abbrev pub context_size : ℕ
context_size = 12064

unfoldable pub create_context : ConfigFs → Bytes → Option MonitorContext
unfolding join_path load_config_targets load_config_notifications add_all_monitored
create_context fs cfgdir = do
  allocate fs context_size
  allocate fs (length cfgdir + 1)
  targets_dir ← join_path fs cfgdir (codes "targets.d")
  ts ← load_config_targets fs targets_dir
  notifications_dir ← join_path fs cfgdir (codes "notifications.d")
  ns ← load_config_notifications fs ts notifications_dir
  mfs ← add_all_monitored fs ns []
  some (record { config_dir = cfgdir; monitored_files = mfs; notifications = ns; targets = ts })

-- The options that getopt_long() gives.
pub data MonitorOption : Type 0 where
  opt_configdir : Bytes → MonitorOption
  opt_debug opt_help opt_unknown : MonitorOption

-- The configuration's directory; debugging only prints more.
unfoldable pub parse_options : List MonitorOption → Bytes → Option Bytes
parse_options [] cfgdir = some cfgdir
parse_options (opt_configdir dir ∷ os) cfgdir = parse_options os dir
parse_options (opt_debug ∷ os) cfgdir = parse_options os cfgdir
parse_options (opt_help ∷ os) cfgdir = none
parse_options (opt_unknown ∷ os) cfgdir = none

-- From the options to the context that the files are tailed with: SIGCHLD's handler has to be set,
-- and at least one notification and one target are needed.
unfoldable pub prepare : ConfigFs → Bool → List MonitorOption → Option MonitorContext
unfolding create_context parse_options
prepare fs handler_set options = do
  cfgdir ← parse_options options (codes "/etc/logmonitor")
  guard handler_set
  ctx ← create_context fs cfgdir
  guard (ltb 0 (length ctx.notifications))
  guard (ltb 0 (length ctx.targets))
  some ctx
