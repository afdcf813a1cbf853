-- ===== src/Monitor/Tail.antt =====
-- `main` of src/logmonitor/logmonitor.c: the files are opened, and read again and again.
pub mod Spacing
pub mod Visits
use docker_baseimage.Base.{
  ℕ, zero, suc, ◌+◌, ◌-◌, Bool, true, false, not, ◌&&◌, ◌||◌, List, [], ◌∷◌, Option, none, some,
  ltb, ◌==◌, if◌then◌else◌, length, set,
}
use docker_baseimage.Text.{Bytes}
use docker_baseimage.Values.{c_string}
use docker_baseimage.Monitor.{
  FileStat, MonitoredFile, ReadAnswer, full_read, MonitorOs, MonitorEvent, opened, closed, to_start,
  to_end, Watch,
}
use docker_baseimage.Monitor.Notify.{file_at}
use docker_baseimage.Monitor.Reading.{handle_read}

-- STATUS_FILE_READ_INTERVAL
abbrev pub status_file_read_interval : ℕ
status_file_read_interval = 5

abbrev pub put_file : ℕ → MonitoredFile → Watch → Watch
put_file mfid mf w = record w {
  ctx = record w.ctx { monitored_files = set w.ctx.monitored_files mfid mf };
}

abbrev pub record_event : MonitorEvent → Watch → Watch
record_event e w = record w { events = e ∷ w.events }

abbrev pub call : Watch → Watch
call w = record w { calls = suc w.calls }

-- mf->last_read = get_time()
unfoldable pub note_read : MonitorOs → ℕ → Watch → Watch
note_read os mfid w =
    call (put_file mfid (record (file_at w mfid) { last_read = os.clock w.calls }) w)

-- One turn of the loop that reads a file to its end: the size that fstat() gives, the position, and
-- what the reads answer.
pub record Turn : Type 0 where
  pub size : Option ℕ
  pub current : ℕ
  pub answers : List ReadAnswer

-- What the operating system says of one file in one pass: stat() of its path, fstat() of its
-- descriptor, the descriptor that open() gives, and the turns (the file has ended behind them).
pub record Look : Type 0 where
  pub path_stat : Option FileStat
  pub fd_stat : Option FileStat
  pub new_fd : Option ℕ
  pub turns : List Turn

unfoldable pub tail_read : MonitorOs → Turn → Option Bytes
unfolding full_read
tail_read os turn = full_read os.bufsiz turn.answers

-- A file that has become shorter is read from its start.
abbrev pub is_truncated : Option ℕ → ℕ → Bool
is_truncated none current = false
is_truncated (some size) current = ltb size current

abbrev pub rewind_if : Bool → ℕ → Watch → Watch
rewind_if true fd w = record_event (to_start fd) w
rewind_if false fd w = w

-- What a turn that got bytes does, and where the loop ends.
abbrev pub after_tail_read : MonitorOs → ℕ → (Watch → Watch) → Option Bytes → Watch → Watch
after_tail_read os mfid more none w = w
after_tail_read os mfid more (some []) w = w
after_tail_read os mfid more (some (c ∷ s)) w = more (handle_read os mfid (c_string (c ∷ s)) w)

unfoldable pub read_to_end : MonitorOs → ℕ → ℕ → List Turn → Watch → Watch
unfolding handle_read tail_read
read_to_end os mfid fd [] w = w
read_to_end os mfid fd (turn ∷ turns) w =
    after_tail_read os mfid (read_to_end os mfid fd turns) (tail_read os turn)
      (rewind_if (is_truncated turn.size turn.current) fd w)

-- The file at the path is another one than that of the descriptor, or one of them is not there.
abbrev pub is_replaced : Option FileStat → Option FileStat → Bool
is_replaced (some fs) (some s) = not (fs.st_dev == s.st_dev) || not (fs.st_ino == s.st_ino)
is_replaced _ _ = true

abbrev pub needs_open : Option ℕ → Look → Bool
needs_open none look = true
needs_open (some fd) look = is_replaced look.fd_stat look.path_stat

abbrev pub close_old : Option ℕ → Watch → Watch
close_old none w = w
close_old (some fd) w = record_event (closed fd) w

abbrev pub open_new : Bytes → Option ℕ → Watch → Watch
open_new path none w = w
open_new path (some fd) w = record_event (opened path fd) w

unfoldable pub reopen : ℕ → Look → Watch → Watch
reopen mfid look w =
    let mf = file_at w mfid in
    if needs_open mf.fd look
    then put_file mfid (record mf { fd = look.new_fd })
        (open_new mf.path look.new_fd (close_old mf.fd w))
    else w

abbrev pub same_stat : FileStat → FileStat → Bool
same_stat a b =
    a.st_size == b.st_size
    && a.st_mtime == b.st_mtime
    && a.st_dev == b.st_dev
    && a.st_ino == b.st_ino

-- Reading, and the time of it.
abbrev pub read_noted : MonitorOs → ℕ → ℕ → Look → Watch → Watch
read_noted os mfid fd look w = note_read os mfid (read_to_end os mfid fd look.turns w)

-- A status file is skipped where it did not change, else read from its start.
unfoldable pub read_status : MonitorOs → ℕ → ℕ → Look → Option FileStat → Watch → Watch
unfolding read_to_end note_read
read_status os mfid fd look none w = read_noted os mfid fd look (record_event (to_start fd) w)
read_status os mfid fd look (some s) w =
    let mf = file_at w mfid in
    if same_stat s mf.last_stat
    then note_read os mfid w
    else read_noted os mfid fd look
        (record_event (to_start fd) (put_file mfid (record mf { last_stat = s }) w))

unfoldable pub read_file_at : MonitorOs → ℕ → Look → Option ℕ → Watch → Watch
unfolding read_status
read_file_at os mfid look none w = w
read_file_at os mfid look (some fd) w =
    if (file_at w mfid).is_status
    then read_status os mfid fd look look.path_stat w
    else read_noted os mfid fd look w

abbrev pub look_at : MonitorOs → ℕ → Look → Watch → Watch
look_at os mfid look w =
    let w' = reopen mfid look w in read_file_at os mfid look (file_at w' mfid).fd w'

-- The body of the loop over the files.
unfoldable pub visit_file : MonitorOs → ℕ → Look → Watch → Watch
unfolding reopen read_file_at
visit_file os mfid look w =
    let mf = file_at w mfid in
    if mf.is_status
    then (if ltb (os.clock w.calls - mf.last_read) status_file_read_interval
        then call w
        else look_at os mfid look (call w))
    else look_at os mfid look w

-- One pass over the files, from `mfid` on.
unfoldable pub pass : MonitorOs → ℕ → List Look → Watch → Watch
unfolding visit_file
pass os mfid [] w = w
pass os mfid (look ∷ looks) w =
    let rest = pass os (suc mfid) looks (visit_file os mfid look w) in
    if ltb mfid (length w.ctx.monitored_files) then rest else w

-- The passes; sleep() and the reaping between two of them change nothing here.
unfoldable pub tail_files : MonitorOs → List (List Look) → Watch → Watch
unfolding pass
tail_files os [] w = w
tail_files os (looks ∷ passes) w = tail_files os passes (pass os 0 looks w)

abbrev pub sought : Bool → Option ℕ → Watch → Watch
sought is_status none w = w
sought is_status (some fd) w = if is_status then w else record_event (to_end fd) w

-- The loop that opens the files, for what open() gives: a log is read from its end on.
unfoldable pub open_files : ℕ → List (Option ℕ) → Watch → Watch
open_files mfid [] w = w
open_files mfid (fd ∷ fds) w =
    let mf = file_at w mfid in
    let rest =
      open_files (suc mfid) fds
        (put_file mfid (record mf { fd = fd }) (sought mf.is_status fd (open_new mf.path fd w))) in
    if ltb mfid (length w.ctx.monitored_files) then rest else w
