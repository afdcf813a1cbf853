-- ===== src/Monitor/Config/Targets.antt =====
-- `alloc_target`: a target from its directory.
pub mod Usable
pub mod Numeral
use docker_baseimage.Base.{
  ℕ, zero, suc, ◌+◌, ◌-◌, Bool, true, false, not, ◌&&◌, ◌||◌, List, [], ◌∷◌, ◌++◌, Option, none,
  some, ltb, leb, ◌==◌, if◌then◌else◌, length, take, drop, replicate,
}
use docker_baseimage.Base.Int.{ℤ, pos, negsuc}
use docker_baseimage.Text.{Bytes, codes, bytes_eq, terminate_at_first_eol}
use docker_baseimage.Convert.{Scanned, scan_number, strtol_value, int_half}
use docker_baseimage.Monitor.{Target, max_num_notifications}
use docker_baseimage.Monitor.Config.{
  ConfigFs, ◌>>=◌, ◌>>◌, guard, allocate, join_path, file2str, each_file, is_set, str_starts_with,
  tokens, each_token,
}

-- The values of an int that are not negative. (One that overflows a long is no int, whatever errno
-- says.)
abbrev pub in_range : ℤ → Option ℤ
in_range (pos n) = if leb int_half n then none else some (pos n)
in_range (negsuc n) = none

abbrev pub whole_number : Scanned → Option ℤ
whole_number n =
    if not n.converted || ltb 0 (length n.rest) then none else in_range (strtol_value n)

unfoldable pub debouncing_value : Bytes → Option ℤ
unfolding scan_number
debouncing_value str = whole_number (scan_number 10 str)

-- sizeof(lm_target_t), where pointers and time_t have 8 bytes.
abbrev pub target_size : ℕ
target_size = 152

-- The files that are looked for.
pub data TargetFile : Type 0 where
  send_file debouncing_file unknown_file : TargetFile

abbrev pub target_file_of : Bytes → TargetFile
target_file_of name =
    if bytes_eq name (codes "send")
    then send_file
    else if bytes_eq name (codes "debouncing")
    then debouncing_file
    else unknown_file

-- Each file of a target's directory.
unfoldable pub target_file : ConfigFs → Target → Bytes → TargetFile → Option Target
unfolding file2str debouncing_value terminate_at_first_eol
target_file fs target filepath send_file =
    if fs.executable filepath then some (record target { send = some filepath }) else none
target_file fs target filepath debouncing_file = do
  text ← file2str fs filepath
  value ← debouncing_value (terminate_at_first_eol text)
  some (record target { debouncing = value })
target_file fs target filepath unknown_file = some target

unfoldable pub target_entry : ConfigFs → Bytes → Target → Bytes → Option Target
unfolding join_path target_file
target_entry fs dir target name = do
  filepath ← join_path fs dir name
  target_file fs target filepath (target_file_of name)

abbrev pub new_target : Bytes → Target
new_target name = record {
  name = name;
  send = none;
  debouncing = negsuc 0;
  last_notif_sent = replicate max_num_notifications 0;
}

unfoldable pub alloc_target : ConfigFs → Bytes → Bytes → Option Target
unfolding target_entry each_file join_path
alloc_target fs targets_dir name = do
  dir ← join_path fs targets_dir name
  allocate fs target_size
  allocate fs (length name + 1)
  entries ← fs.opendir dir
  target ← each_file (target_entry fs dir) entries (new_target name)
  guard (is_set target.send)
  some target
