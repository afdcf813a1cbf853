-- ===== src/Values.antt =====
-- Configuration values of a service (src/cinit/utils.c): a file's contents, or the output of an
-- executable file, read into a buffer and converted.
pub mod Output
pub mod Files
pub mod Loading
use docker_baseimage.Base.{
  ℕ, zero, suc, ◌+◌, ◌-◌, Bool, true, false, not, ◌&&◌, List, [], ◌∷◌, ◌++◌, Option, none, some,
  ltb, leb, ◌==◌, if◌then◌else◌, length, take, get_or,
}
use docker_baseimage.Base.Int.{ℤ, pos, negsuc}
use docker_baseimage.Text.{Bytes, trim, terminate_at_first_eol}
use docker_baseimage.Exception.{
  Result, ok, throw, rethrow, ◌>>=◌, Message, could_not_open, file_too_big, read_failed,
  buffer_too_small, allocation_failed, command_failed, output_too_big, output_no_buffer,
  output_no_memory, stat_failed, could_not_load,
}
use docker_baseimage.Convert.{
  string_to_bool, string_to_int, string_to_uint, string_to_interval, string_to_uid, string_to_gid,
  string_to_mode,
}

-- std_output_t
pub data StdOutput : Type 0 where
  stdout stderr : StdOutput

-- The errno values that `process_line` sets.
pub data OutputError : Type 0 where
  e2big enomem enobufs : OutputError

-- process_cmd_output_ctx_t
pub record OutputCtx : Type 0 where
  pub err : Option OutputError
  pub num_lines_added : ℕ
  pub allocated_buf : Bool
  pub buf : Option Bytes
  pub bufsize : ℕ

-- What stat() says of a path.
pub data Stat : Type 0 where
  missing stat_error : Stat
  found : Bool → Stat

-- A finished command: what `exec_cmd_with_line_callback` returned, and the lines it called back.
pub record CommandRun : Type 0 where
  pub rc : ℤ
  pub lines : List (StdOutput × Bytes)

-- The operating system, as seen by a load: file status, the bytes of a file that opens, whether a
-- read of it succeeds, whether memory of a size can be had, the runs of programs, the user and
-- group databases, and what an uninitialised buffer holds.
pub record System : Type 0 where
  pub stat : Bytes → Stat
  pub open_file : Bytes → Option Bytes
  pub read_succeeds : Bytes → Bool
  pub memory : ℕ → Bool
  pub run_program : Bytes → CommandRun
  pub getpwnam : Bytes → Option ℕ
  pub getgrnam : Bytes → Option ℕ
  pub junk : Bytes

abbrev pub max_output : ℕ
max_output = 1048576

abbrev pub max_file : ℕ
max_file = 1048576

abbrev pub max : ℕ → ℕ → ℕ
max a b = if leb b a then a else b

-- strlen of a buffer that may not be there yet.
abbrev pub buf_len : Option Bytes → ℕ
buf_len none = 0
buf_len (some s) = length s

-- ctx->buf[0] = '\0'
abbrev pub emptied : Option Bytes → Option Bytes
emptied none = none
emptied (some s) = some []

abbrev pub buf_text : Option Bytes → Bytes
buf_text none = []
buf_text (some s) = s

-- The two strcat at the end of `process_line`.
abbrev pub append_line : OutputCtx → Bytes → OutputCtx
append_line ctx line = record ctx {
  buf = some (buf_text ctx.buf ++ ((if ltb 0 ctx.num_lines_added then b'\n' ∷ [] else []) ++ line));
  num_lines_added = suc ctx.num_lines_added;
}

-- The branch for a buffer that is too small.
unfoldable pub grow_buf : (ℕ → Bool) → OutputCtx → Bytes → OutputCtx
grow_buf memory ctx line =
    if ctx.allocated_buf
    then (let size = max (ctx.bufsize + 1024) (ctx.bufsize + length line + 1) in
        if ltb max_output size
        then record ctx { bufsize = size; err = some e2big }
        else if not (memory size)
        then record ctx { bufsize = size; err = some enomem }
        else append_line (record ctx { bufsize = size }) line)
    else record ctx { err = some enobufs }

-- `process_line` on stdout, before any error.
unfoldable pub add_line : (ℕ → Bool) → OutputCtx → Bytes → OutputCtx
unfolding grow_buf
add_line memory ctx line =
    let ctx' = record ctx { buf = if ctx.num_lines_added == 0 then emptied ctx.buf else ctx.buf } in
    let nl_char_needed : ℕ = if ltb 0 ctx.num_lines_added then 1 else 0 in
    if leb ctx.bufsize (buf_len ctx'.buf + length line + nl_char_needed)
    then grow_buf memory ctx' line
    else append_line ctx' line

-- `process_line` on a line of stdout; the last argument is ctx->err.
unfoldable pub process_stdout : (ℕ → Bool) → OutputCtx → Bytes → Option OutputError → OutputCtx
process_stdout memory ctx line none = add_line memory ctx line
process_stdout memory ctx line (some e) = ctx

unfoldable pub process_line : (ℕ → Bool) → OutputCtx → StdOutput × Bytes → OutputCtx
unfolding process_stdout
process_line memory ctx (stderr, line) = ctx
process_line memory ctx (stdout, line) = process_stdout memory ctx line ctx.err

-- The calls back from one command.
unfoldable pub process_lines : (ℕ → Bool) → OutputCtx → List (StdOutput × Bytes) → OutputCtx
process_lines memory ctx [] = ctx
process_lines memory ctx (l ∷ ls) = process_lines memory (process_line memory ctx l) ls

-- The bytes of a buffer up to its first NUL.
abbrev pub c_string : Bytes → Bytes
c_string [] = []
c_string (c ∷ s) = if c == 0 then [] else c ∷ c_string s

-- Where a value is read to: memory that is allocated for it, or a buffer of a size with what it
-- holds.
pub data Dest : Type 0 where
  allocated : Dest
  into : ℕ → Bytes → Dest

-- `read_file`, on the bytes of a file that was opened.
unfoldable pub read_opened : System → Bytes → Bytes → Dest → Result Bytes
read_opened sys path content allocated =
    if ltb max_file (length content + 1)
    then throw file_too_big
    else if not (sys.memory (length content + 1))
    then throw allocation_failed
    else if not (sys.read_succeeds path)
    then throw read_failed
    else ok (c_string content)
read_opened sys path content (into bufsize old) =
    if not (sys.read_succeeds path)
    then throw read_failed
    else if length (take (bufsize - 1) content) == bufsize - 1 && ltb (bufsize - 1) (length content)
    then throw buffer_too_small
    else ok (c_string (take (bufsize - 1) content))

unfoldable pub read_file : System → Bytes → Dest → Result Bytes
unfolding read_opened
read_file sys path dest = elim (sys.open_file path) [
  | none ↦ throw could_not_open
  | some content ↦ read_opened sys path content dest
]

abbrev pub start_ctx : Dest → OutputCtx
start_ctx allocated = record {
  err = none;
  num_lines_added = 0;
  allocated_buf = true;
  buf = none;
  bufsize = 0;
}
start_ctx (into bufsize old) = record {
  err = none;
  num_lines_added = 0;
  allocated_buf = false;
  buf = some old;
  bufsize = bufsize;
}

abbrev pub old_buf : Dest → Option Bytes
old_buf allocated = none
old_buf (into bufsize old) = some old

abbrev pub is_zero : ℤ → Bool
is_zero (pos n) = n == 0
is_zero (negsuc n) = false

abbrev pub output_message : OutputError → Message
output_message e2big = output_too_big
output_message enomem = output_no_memory
output_message enobufs = output_no_buffer

-- The end of the executable's branch.
unfoldable pub command_result : Bytes → ℤ → OutputCtx → Result (Bool × Option Bytes)
command_result path rc ctx =
    if not (is_zero rc) then throw (could_not_load path command_failed) else elim ctx.err [
      | some e ↦ throw (could_not_load path (output_message e))
      | none ↦ ok (true, ctx.buf)
    ]

unfoldable pub load_found : System → Bytes → Dest → Bool → Result (Bool × Option Bytes)
unfolding read_file command_result process_lines process_line
load_found sys path dest true =
    let run = sys.run_program path in
    command_result path run.rc (process_lines sys.memory (start_ctx dest) run.lines)
load_found sys path dest false =
    rethrow (could_not_load path) (read_file sys path dest) >>= λ text. ok (true, some text)

unfoldable pub load_stat : System → Bytes → Dest → Stat → Result (Bool × Option Bytes)
unfolding load_found
load_stat sys path dest (found executable) = load_found sys path dest executable
load_stat sys path dest stat_error = throw (could_not_load path stat_failed)
load_stat sys path dest missing = ok (false, old_buf dest)

-- The Boolean returned, and the buffer afterwards.
unfoldable pub load_value_as_string : System → Bytes → Dest → Result (Bool × Option Bytes)
unfolding load_stat
load_value_as_string sys path dest = load_stat sys path dest (sys.stat path)

-- The part that the functions below share: a buffer on the stack, the text in it up to the first
-- end of line, trimmed, and the conversion. The result keeps its value where there is no file.
unfoldable pub load_value_as {ℓ} :
    {A : Type ℓ} → ℕ → (Bytes → Result A) → System → Bytes → A → Result (Bool × A)
load_value_as size convert sys path result =
    load_value_as_string sys path (into size sys.junk) >>= λ r.
    if r.0
    then (rethrow (could_not_load path) (convert (trim (terminate_at_first_eol (buf_text r.1))))
        >>= λ v. ok (true, v))
    else ok (false, result)

-- A file that was only touched means true.
abbrev pub touched_or_bool : Bytes → Result Bool
touched_or_bool [] = ok true
touched_or_bool (c ∷ s) = string_to_bool (c ∷ s)

unfoldable pub load_value_as_bool : System → Bytes → Bool → Result (Bool × Bool)
unfolding load_value_as
load_value_as_bool = load_value_as 32 touched_or_bool

unfoldable pub load_value_as_int : System → Bytes → ℤ → Result (Bool × ℤ)
unfolding load_value_as
load_value_as_int = load_value_as 128 string_to_int

unfoldable pub load_value_as_uint : System → Bytes → ℕ → Result (Bool × ℕ)
unfolding load_value_as
load_value_as_uint = load_value_as 128 string_to_uint

unfoldable pub load_value_as_interval : System → Bytes → ℕ → Result (Bool × ℕ)
unfolding load_value_as
load_value_as_interval = load_value_as 128 string_to_interval

unfoldable pub load_value_as_uid : System → Bytes → ℕ → Result (Bool × ℕ)
unfolding load_value_as
load_value_as_uid sys = load_value_as 256 (string_to_uid sys.getpwnam) sys

unfoldable pub load_value_as_gid : System → Bytes → ℕ → Result (Bool × ℕ)
unfolding load_value_as
load_value_as_gid sys = load_value_as 256 (string_to_gid sys.getgrnam) sys

unfoldable pub load_value_as_mode : System → Bytes → ℕ → Result (Bool × ℕ)
unfolding load_value_as
load_value_as_mode = load_value_as 256 string_to_mode
