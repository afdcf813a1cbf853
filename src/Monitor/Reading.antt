-- ===== src/Monitor/Reading.antt =====
-- `handle_read`: the bytes of a read, cut into lines.
pub mod Cutting
pub mod Streams
pub mod Pieces
pub mod Spacing
use docker_baseimage.Base.{
  ℕ, zero, suc, ◌+◌, ◌-◌, ◌*◌, Bool, true, false, not, ◌&&◌, ◌||◌, List, [], ◌∷◌, ◌++◌, Option,
  none, some, ltb, leb, ◌==◌, if◌then◌else◌, length, set,
}
use docker_baseimage.Text.{Bytes}
use docker_baseimage.Monitor.{MonitorOs, Watch, string_of}
use docker_baseimage.Monitor.Notify.{file_at, handle_line}

abbrev pub max_line : ℕ
max_line = 500 * 1024

-- An assignment to mf->pending_buf.
abbrev pub put_pending : ℕ → Option Bytes → Watch → Watch
put_pending mfid p w = record w {
  ctx = record w.ctx {
    monitored_files = set w.ctx.monitored_files mfid (record (file_at w mfid) { pending_buf = p });
  };
}

abbrev pub after_byte : ℕ → Option (Bytes × Bytes) → Option (Bytes × Bytes)
after_byte c none = none
after_byte c (some (line, rest)) = some (c ∷ line, rest)

-- strchr(work_buf, '\n'): the text before it, and after it.
unfoldable pub cut_at_newline : Bytes → Option (Bytes × Bytes)
cut_at_newline [] = none
cut_at_newline (c ∷ s) = if c == b'\n' then some ([], s) else after_byte c (cut_at_newline s)

-- Less a '\r' at its end.
unfoldable pub less_cr : Bytes → Bytes
less_cr [] = []
less_cr (c ∷ []) = if c == b'\r' then [] else c ∷ []
less_cr (c ∷ d ∷ s) = c ∷ less_cr (d ∷ s)

-- The work buffer, and whether the pending one was used up (or lost) for it.
unfoldable pub work_buffer : MonitorOs → Option Bytes → Bytes → Option Bytes
work_buffer os none buf = if os.memory (length buf + 1) then some buf else none
work_buffer os (some pending) buf =
    let new_buf_size = length pending + length buf + 1 in
    if ltb max_line new_buf_size
    then none
    else if os.memory new_buf_size
    then some (pending ++ buf)
    else none

-- if (strlen(work_buf) > 0) handle_line(…);
abbrev pub handle_nonempty : MonitorOs → ℕ → Bytes → Watch → Watch
handle_nonempty os mfid [] w = w
handle_nonempty os mfid (c ∷ line) w = handle_line os mfid (c ∷ line) w

-- The end of `handle_read`, on what follows the work buffer's first newline: the call on the rest,
-- where there is one, finds no pending buffer.
unfoldable pub handle_cut :
    MonitorOs → ℕ → (Option Bytes → Watch → Watch) → Bytes → Option (Bytes × Bytes) → Watch → Watch
unfolding handle_line work_buffer less_cr
handle_cut os mfid next work none w = put_pending mfid (some work) w
handle_cut os mfid next work (some (line, [])) w = handle_nonempty os mfid (less_cr line) w
handle_cut os mfid next work (some (line, c ∷ rest)) w =
    next (work_buffer os none (c ∷ rest)) (handle_nonempty os mfid (less_cr line) w)

-- The fuel bounds the depth of the calls.
unfoldable pub handle_work : ℕ → MonitorOs → ℕ → Option Bytes → Watch → Watch
unfolding handle_cut cut_at_newline
handle_work f os mfid none w = w
handle_work zero os mfid (some work) w = w
handle_work (suc f) os mfid (some work) w =
    handle_cut os mfid (handle_work f os mfid) work (cut_at_newline work) w

unfoldable pub handle_read : MonitorOs → ℕ → Bytes → Watch → Watch
unfolding handle_work work_buffer
handle_read os mfid buf w =
    let pending = (file_at w mfid).pending_buf in
    handle_work (suc (length (string_of pending) + length buf)) os mfid (work_buffer os pending buf)
      (put_pending mfid none w)

-- One read after another.
unfoldable pub handle_reads : MonitorOs → ℕ → List Bytes → Watch → Watch
unfolding handle_read
handle_reads os mfid [] w = w
handle_reads os mfid (buf ∷ bufs) w = handle_reads os mfid bufs (handle_read os mfid buf w)
