-- ===== src/Lines.antt =====
-- `read_lines` of src/cinit/utils.c: bytes from several descriptors, cut into lines. What poll() and
-- read() answer is an argument: a list of answers, one for each call of poll().
pub mod Cutting
pub mod Chunks
pub mod Tagged
pub mod Keeping
pub mod Streams
use docker_baseimage.Base.{
  ℕ, zero, suc, ◌+◌, ◌-◌, Bool, true, false, not, ◌&&◌, ◌||◌, List, [], ◌∷◌, ◌++◌, map, Option,
  none, some, ltb, leb, ◌==◌, if◌then◌else◌, length, take, drop,
}
use docker_baseimage.Text.{Bytes, is_eol}
use docker_baseimage.Values.{c_string}

-- sizeof(rstate->buf)
abbrev pub buf_size : ℕ
buf_size = 4096

-- A descriptor with its output_read_state_t: the `used` bytes of the buffer, the flag, and the
-- bytes that the other end has still to deliver. The second field says whether fds[i] >= 0.
pub record Fd : Type 0 where
  pub buf : Bytes
  pub is_open : Bool
  pub eof : Bool
  pub pending : Bytes

-- What poll() and then read() say of one descriptor. With `readable n` a read gets at most n + 1
-- bytes, and none where all has been delivered.
pub data FdEvent : Type 0 where
  idle hangup interrupted read_error : FdEvent
  readable : ℕ → FdEvent

-- The lines that the callback got, and the descriptor afterwards; none is a failed read.
abbrev pub FdResult : Type 0
FdResult = Option (List Bytes × Fd)

-- The inner `for` loop: the bytes before the first end of line, and those after it.
pub cut_line : Bytes → Option (Bytes × Bytes)
cut_line [] = none
cut_line (c ∷ s) =
    if is_eol c
    then some ([], s)
    else elim (cut_line s) [ none ↦ none | some (line, rest) ↦ some (c ∷ line, rest) ]

-- if (j != 0) callback(…);
abbrev pub call_back : Bytes → List Bytes
call_back [] = []
call_back (c ∷ s) = c_string (c ∷ s) ∷ []

-- `while (true)` over the complete lines of the buffer, with what is left of it.
pub complete_lines : ℕ → Bytes → List Bytes × Bytes
complete_lines zero buf = ([], buf)
complete_lines (suc f) buf = elim (cut_line buf) [
  | none ↦ ([], buf)
  | some (line, rest) ↦ let (lines, left) = complete_lines f rest in (call_back line ++ lines, left)
]

-- The bytes that are left at the end of the input.
abbrev pub last_line : Bytes → List Bytes
last_line [] = []
last_line (c ∷ s) = if c == 0 then [] else c_string (c ∷ s) ∷ []

abbrev pub at_eof : Fd → Fd
at_eof fd = record fd { buf = []; eof = true }

-- read() got at most `n` bytes.
pub read_some : Fd → ℕ → FdResult
unfolding complete_lines cut_line
read_some fd n =
    if length fd.pending == 0
    then some (last_line fd.buf, at_eof fd)
    else (let buf = fd.buf ++ take n fd.pending in
        let (lines, left) = complete_lines (length buf) buf in
        some (lines, record fd { buf = left; pending = drop n fd.pending }))

abbrev pub min : ℕ → ℕ → ℕ
min a b = if leb a b then a else b

-- The body of the second `for` loop, on a descriptor that poll() was given.
pub fd_step : Fd → FdEvent → FdResult
unfolding read_some
fd_step fd idle = some ([], fd)
fd_step fd hangup = some (last_line fd.buf, at_eof fd)
fd_step fd interrupted =
    if length fd.buf == buf_size - 1
    then some (c_string fd.buf ∷ [], record fd { buf = [] })
    else some ([], fd)
fd_step fd read_error =
    if length fd.buf == buf_size - 1
    then some (c_string fd.buf ∷ [], record fd { buf = [] })
    else none
fd_step fd (readable n) =
    let max_to_read = buf_size - length fd.buf - 1 in
    if max_to_read == 0
    then some (c_string fd.buf ∷ [], record fd { buf = [] })
    else read_some fd (min (suc n) max_to_read)

-- pfds[i].fd >= 0
abbrev pub is_polled : Fd → Bool
is_polled fd = fd.is_open && not fd.eof

-- An ignored descriptor stays as it is.
unfoldable pub poll_fd : Fd → FdEvent → FdResult
unfolding fd_step
poll_fd fd e = if is_polled fd then fd_step fd e else some ([], fd)

-- One pass over the descriptors. The first part is false where a read failed.
pub poll_fds : List Fd → List FdEvent → Bool × List Bytes × List Fd
unfolding poll_fd
poll_fds [] events = (true, [], [])
poll_fds (fd ∷ fds) [] = let (good, lines, rest) = poll_fds fds [] in (good, lines, fd ∷ rest)
poll_fds (fd ∷ fds) (e ∷ events) = elim (poll_fd fd e) [
  | none ↦ (false, [], fd ∷ fds)
  | some (lines, fd') ↦
      let (good, more, rest) = poll_fds fds events in (good, lines ++ more, fd' ∷ rest)
]

-- The answers of poll(), with what the exit callback says where it is called.
pub data PollAnswer : Type 0 where
  eintr poll_error : PollAnswer
  timeout : Bool → PollAnswer
  ready : List FdEvent → Bool → PollAnswer

-- The loop that sets `done`: no descriptor is left that was polled and has more. (An end of file
-- that this pass saw counts, and a descriptor that was not polled before is not polled now.)
abbrev pub all_done : List Fd → Bool
all_done [] = true
all_done (fd ∷ fds) = not (is_polled fd) && all_done fds

-- `returned 0` and `returned -1`; `polling` where the list of answers ends before the loop does.
pub data Status : Type 0 where
  finished failed polling : Status

-- The lines in the order of the calls back.
pub read_lines : List Fd → List PollAnswer → List Bytes × Status
unfolding poll_fds
read_lines fds [] = ([], polling)
read_lines fds (eintr ∷ as') = read_lines fds as'
read_lines fds (poll_error ∷ as') = ([], failed)
read_lines fds (timeout exit ∷ as') =
    let more = read_lines fds as' in if exit then ([], finished) else more
read_lines fds (ready events exit ∷ as') =
    let (good, lines, fds') = poll_fds fds events in
    let more = read_lines fds' as' in
    if not good
    then (lines, failed)
    else if all_done fds' || exit
    then (lines, finished)
    else (lines ++ more.0, more.1)
