-- ===== src/Monitor/Config/Notifications.antt =====
-- `alloc_notification`: a notification from its directory.
pub mod Complete
pub mod Loaded
use docker_baseimage.Base.{
  ℕ, zero, suc, ◌+◌, ◌-◌, Bool, true, false, not, ◌&&◌, ◌||◌, List, [], ◌∷◌, ◌++◌, Option, none,
  some, ltb, leb, ◌==◌, if◌then◌else◌, length, take, drop, replicate,
}
use docker_baseimage.Base.Int.{ℤ, pos, negsuc}
use docker_baseimage.Text.{Bytes, codes, bytes_eq, terminate_at_first_eol}
use docker_baseimage.Monitor.{
  Target, Notification, max_num_monitored_files_per_notification, max_num_targets,
}
use docker_baseimage.Monitor.Notify.{is_level}
use docker_baseimage.Monitor.Config.{
  ConfigFs, ◌>>=◌, ◌>>◌, guard, allocate, join_path, file2str, each_file, is_set, str_starts_with,
  tokens, each_token,
}

-- strncmp(token, prefix, strlen(prefix)) == 0
abbrev pub has_prefix : Bytes → Bytes → Bool
has_prefix prefix token = bytes_eq (take (length prefix) token) prefix

-- The path and `is_status` of a line of 'source'.
abbrev pub source_of : Bytes → Bytes × Bool
source_of token =
    if has_prefix (codes "log:") token
    then (drop 4 token, false)
    else if has_prefix (codes "status:") token
    then (drop 7 token, true)
    else (token, false)

unfoldable pub add_source : ConfigFs → Notification → Bytes → Option Notification
add_source fs notif token =
    let source = source_of token in
    do
      guard (str_starts_with source.0 b'/')
      guard (ltb (length notif.monitored_files) max_num_monitored_files_per_notification)
      allocate fs (length source.0 + 1)
      some (record notif { monitored_files = notif.monitored_files ++ source ∷ [] })

-- The place of the target of a name in the context's array.
unfoldable pub find_target : Bytes → ℕ → List Target → Option ℕ
find_target name tidx [] = none
find_target name tidx (t ∷ ts) =
    let rest = find_target name (suc tidx) ts in if bytes_eq t.name name then some tidx else rest

unfoldable pub add_target : List Target → Notification → Bytes → Option Notification
unfolding find_target
add_target ts notif token = do
  tidx ← find_target token 0 ts
  guard (ltb (length notif.targets) max_num_targets)
  some (record notif { targets = notif.targets ++ tidx ∷ [] })

-- A title, a description or a level: the path of a program, or the first line of a file.
unfoldable pub text_setting : ConfigFs → Bytes → Option (Bytes × Bool)
unfolding file2str terminate_at_first_eol
text_setting fs filepath =
    if fs.executable filepath
    then some (filepath, true)
    else (do text ← file2str fs filepath; some (terminate_at_first_eol text, false))

-- A level in a file is checked, a program is not.
abbrev pub level_setting : Bytes × Bool → Option (Bytes × Bool)
level_setting (level, true) = some (level, true)
level_setting (level, false) = if is_level level then some (level, false) else none

-- The files that are looked for.
pub data NotificationFile : Type 0 where
  filter_file title_file desc_file level_file source_file target_names other_file : NotificationFile

abbrev pub notification_file_of : Bytes → NotificationFile
notification_file_of name =
    if bytes_eq name (codes "filter")
    then filter_file
    else if bytes_eq name (codes "title")
    then title_file
    else if bytes_eq name (codes "desc")
    then desc_file
    else if bytes_eq name (codes "level")
    then level_file
    else if bytes_eq name (codes "source")
    then source_file
    else if bytes_eq name (codes "target")
    then target_names
    else other_file

-- Each file of a notification's directory.
unfoldable pub notification_file :
    ConfigFs → List Target → Notification → Bytes → NotificationFile → Option Notification
unfolding file2str text_setting add_source add_target each_token tokens
notification_file fs ts notif filepath filter_file =
    if fs.executable filepath then some (record notif { filter = some filepath }) else none
notification_file fs ts notif filepath title_file = do
  text ← text_setting fs filepath
  some (record notif { title = some text.0; is_title_exe = text.1 || notif.is_title_exe })
notification_file fs ts notif filepath desc_file = do
  text ← text_setting fs filepath
  some (record notif { desc = some text.0; is_desc_exe = text.1 || notif.is_desc_exe })
notification_file fs ts notif filepath level_file = do
  text ← text_setting fs filepath
  level ← level_setting text
  some (record notif { level = some level.0; is_level_exe = level.1 || notif.is_level_exe })
notification_file fs ts notif filepath source_file = do
  text ← file2str fs filepath
  each_token (add_source fs) (tokens [] text) notif
notification_file fs ts notif filepath target_names = do
  text ← file2str fs filepath
  each_token (add_target ts) (tokens [] text) notif
notification_file fs ts notif filepath other_file = some notif

unfoldable pub notification_entry :
    ConfigFs → List Target → Bytes → Notification → Bytes → Option Notification
unfolding join_path notification_file
notification_entry fs ts dir notif name = do
  filepath ← join_path fs dir name
  notification_file fs ts notif filepath (notification_file_of name)

-- All of them, where 'target' names none.
abbrev pub default_targets : List Target → ℕ → List ℕ
default_targets [] tidx = []
default_targets (t ∷ ts) tidx = tidx ∷ default_targets ts (suc tidx)

abbrev pub with_default : List Target → Notification → Notification
with_default ts notif = record notif {
  targets = if length notif.targets == 0 then default_targets ts 0 else notif.targets;
}

abbrev pub new_notification : Bytes → Notification
new_notification name = record {
  name = name;
  filter = none;
  title = none;
  is_title_exe = false;
  desc = none;
  is_desc_exe = false;
  level = none;
  is_level_exe = false;
  monitored_files = [];
  targets = [];
}

-- sizeof(lm_notification_t), where pointers have 8 bytes.
abbrev pub notification_size : ℕ
notification_size = 264

-- The validation at the end.
abbrev pub is_complete : Notification → Bool
is_complete notif =
    is_set notif.filter
    && is_set notif.title
    && is_set notif.desc
    && is_set notif.level
    && not (length notif.monitored_files == 0)

unfoldable pub alloc_notification : ConfigFs → List Target → Bytes → Bytes → Option Notification
unfolding notification_entry each_file join_path
alloc_notification fs ts notifications_dir name = do
  dir ← join_path fs notifications_dir name
  allocate fs notification_size
  allocate fs (length name + 1)
  entries ← fs.opendir dir
  notif ← each_file (notification_entry fs ts dir) entries (new_notification name)
  guard (is_complete notif)
  some (with_default ts notif)
