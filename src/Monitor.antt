-- ===== src/Monitor.antt =====
-- The log monitor, src/logmonitor/logmonitor.c: what it asks of the operating system, the state that
-- it keeps, and the functions that read from a descriptor or run a program.
pub mod FullRead
pub mod Notify
pub mod Reading
pub mod Tail
pub mod Config
pub mod Program
use docker_baseimage.Base.{
  ℕ, zero, suc, ◌+◌, ◌-◌, Bool, true, false, not, ◌&&◌, ◌||◌, List, [], ◌∷◌, ◌++◌, Option, none,
  some, ltb, leb, ◌==◌, if◌then◌else◌, length, take, drop, get_or,
}
use docker_baseimage.Base.Int.{ℤ}
use docker_baseimage.Text.{Bytes, terminate_at_first_eol}
use docker_baseimage.Values.{c_string}

abbrev pub max_num_notifications : ℕ
max_num_notifications = 16

abbrev pub max_num_monitored_files_per_notification : ℕ
max_num_monitored_files_per_notification = 4

abbrev pub max_num_targets : ℕ
max_num_targets = 16

-- lm_target_t. A pointer to a string is `none` where it is NULL.
pub record Target : Type 0 where
  pub name : Bytes
  pub send : Option Bytes
  pub debouncing : ℤ
  pub last_notif_sent : List ℕ

-- lm_notification_t. A monitored file is its path and `is_status`. The pointers to targets, all of
-- which are the context's, are their places in its array.
pub record Notification : Type 0 where
  pub name : Bytes
  pub filter : Option Bytes
  pub title : Option Bytes
  pub is_title_exe : Bool
  pub desc : Option Bytes
  pub is_desc_exe : Bool
  pub level : Option Bytes
  pub is_level_exe : Bool
  pub monitored_files : List (Bytes × Bool)
  pub targets : List ℕ

-- The members of a struct stat that are looked at.
pub record FileStat : Type 0 where
  pub st_size : ℕ
  pub st_mtime : ℕ
  pub st_dev : ℕ
  pub st_ino : ℕ

-- lm_monitored_file_t, with `none` for a descriptor of -1.
pub record MonitoredFile : Type 0 where
  pub path : Bytes
  pub fd : Option ℕ
  pub is_status : Bool
  pub last_read : ℕ
  pub last_stat : FileStat
  pub pending_buf : Option Bytes

-- lm_context_t
pub record MonitorContext : Type 0 where
  pub config_dir : Bytes
  pub monitored_files : List MonitoredFile
  pub notifications : List Notification
  pub targets : List Target

-- The answers of read(): bytes that are there (as many as fit are taken, the others stay), EINTR,
-- EAGAIN, another error. Behind the list is the end of the file.
pub data ReadAnswer : Type 0 where
  delivered : Bytes → ReadAnswer
  read_eintr read_eagain read_failed : ReadAnswer

-- `full_read` with its calls of `safe_read`, on the number of bytes still wanted and those got. The
-- result is `none` where it is -1.
unfoldable pub read_until : ℕ → Bytes → List ReadAnswer → Option Bytes
read_until len total [] = some total
read_until len total (read_eintr ∷ as') =
    let rest = read_until len total as' in if len == 0 then some total else rest
read_until len total (read_eagain ∷ as') = some total
read_until len total (read_failed ∷ as') =
    if len == 0 then some total else if length total == 0 then none else some total
read_until len total (delivered b ∷ as') =
    let rest = read_until (len - length b) (total ++ b) as' in
    if length b == 0
    then some total
    else if leb len (length b)
    then some (total ++ take len b)
    else rest

unfoldable pub full_read : ℕ → List ReadAnswer → Option Bytes
unfolding read_until
full_read len = read_until len []

-- A child process as its parent sees it: what reads of its output answer, and what waitpid() says
-- in the end: an error or the end by a signal, or an exit status.
pub record ChildRun : Type 0 where
  pub output : List ReadAnswer
  pub exit_status : Option ℕ

-- The answers of the operating system: the time at a call of `get_time`, whether memory of a size
-- can be had, whether pipe() works, the child of a fork() that runs a program on an argument, and
-- whether a fork() that is not waited for works. A number is that of the call. The last member is
-- BUFSIZ of the C library.
pub record MonitorOs : Type 0 where
  pub clock : ℕ → ℕ
  pub memory : ℕ → Bool
  pub pipe : ℕ → Bool
  pub run : ℕ → Bytes → Bytes → Option ChildRun
  pub fork : ℕ → Bool
  pub bufsiz : ℕ

-- What the monitor asked for: a program run on a line, a notification (with the places of the target
-- and of the notification, the time that was noted for it, and the title, the description and the
-- level), and calls on a file's descriptor.
pub data MonitorEvent : Type 0 where
  executed : Bytes → Bytes → MonitorEvent
  opened : Bytes → ℕ → MonitorEvent
  closed to_start to_end : ℕ → MonitorEvent
  notified : ℕ → ℕ → ℕ → Bytes → Bytes → Bytes → MonitorEvent

-- The monitor's state: its context, the number of calls made, and the events, the latest first.
pub record Watch : Type 0 where
  pub ctx : MonitorContext
  pub calls : ℕ
  pub events : List MonitorEvent

-- The part of it that a line can change.
pub record Sender : Type 0 where
  pub targets : List Target
  pub calls : ℕ
  pub events : List MonitorEvent

abbrev pub sender_of : Watch → Sender
sender_of w = record { targets = w.ctx.targets; calls = w.calls; events = w.events }

abbrev pub with_sender : Watch → Sender → Watch
with_sender w s = record w {
  ctx = record w.ctx { targets = s.targets };
  calls = s.calls;
  events = s.events;
}

-- The value of `filter` and of other strings that the configuration never leaves NULL.
abbrev pub string_of : Option Bytes → Bytes
string_of none = []
string_of (some s) = s

-- The end of `invoke_exec`: the output (`none`: the read failed) and the exit status.
abbrev pub exec_result : Option Bytes → Option ℕ → Option ℕ × Bytes
exec_result none status = (none, [])
exec_result (some out) status = (status, c_string out)

-- What the child printed, as far as the buffer holds it. Without a buffer nothing is read.
abbrev pub exec_output : ℕ → List ReadAnswer → Option Bytes
exec_output outputsize answers =
    if outputsize == 0 then some [] else full_read (outputsize - 1) answers

abbrev pub after_fork : ℕ → Option ChildRun → Option ℕ × Bytes
after_fork outputsize none = (none, [])
after_fork outputsize (some child) =
    exec_result (exec_output outputsize child.output) child.exit_status

-- Where the fork works, the program is run.
abbrev pub with_run : Bytes → Bytes → Option ChildRun → List MonitorEvent → List MonitorEvent
with_run exe line none events = events
with_run exe line (some child) events = executed exe line ∷ events

-- `invoke_exec` with one argument: the exit code where it returns LM_SUCCESS, and the buffer.
unfoldable pub invoke_exec : MonitorOs → Bytes → Bytes → ℕ → Sender → (Option ℕ × Bytes) × Sender
unfolding full_read
invoke_exec os exe line outputsize s =
    let s' = record s { calls = suc s.calls } in
    let child = os.run s.calls exe line in
    if not (outputsize == 0) && not (os.pipe s.calls)
    then ((none, []), s')
    else (after_fork outputsize child, record s' { events = with_run exe line child s.events })
