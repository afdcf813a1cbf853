-- ===== src/Tests/Settings.antt =====
-- Values loaded from concrete files, and the output of concrete commands.
use docker_baseimage.Base.{
  ℕ, ◌≡◌, refl, inl, inr, Bool, true, false, List, [], ◌∷◌, Option, none, some, if◌then◌else◌,
  arith,
}
use docker_baseimage.Base.Int.{pos}
use docker_baseimage.Text.{
  Bytes, codes, bytes_eq, trim, trim_by, trim_end, trim_start, terminate_at_first_eol,
}
use docker_baseimage.Exception.{throw, could_not_load, not_a_boolean}
use docker_baseimage.Convert.{string_to_bool}
use docker_baseimage.Values.{
  StdOutput, stdout, stderr, System, missing, found, allocated, start_ctx, process_lines,
  process_line, process_stdout, add_line, grow_buf, load_stat, load_found, read_opened, read_file,
  load_value_as, load_value_as_string, touched_or_bool,
}
use docker_baseimage.Values.Output.{HasRoom, process_lines-HasRoom}
use docker_baseimage.Values.Loading.{IsLoadError, load_value_as-IsLoadError}

abbrev two_lines : List (StdOutput × Bytes)
two_lines = (stdout, codes "a") ∷ (stderr, codes "warning") ∷ (stdout, codes "bc") ∷ []

abbrev any_memory : ℕ → Bool
any_memory n = true

process_lines-HasRoom_example : HasRoom (process_lines any_memory (start_ctx allocated) two_lines)
process_lines-HasRoom_example =
    process_lines-HasRoom any_memory (start_ctx allocated) two_lines
      (record { room = inl refl; limited = inr (inr (omega arith)) })

no_error : (process_lines any_memory (start_ctx allocated) two_lines).err ≡ none
unfolding process_lines process_line process_stdout add_line grow_buf
no_error = refl

-- A directory with the files 'interval' and 'respawn'.
abbrev contents : Bytes → Option Bytes
contents path =
    if bytes_eq path (codes "interval")
    then some (codes "30\nseconds")
    else if bytes_eq path (codes "respawn")
    then some (codes "maybe")
    else none

abbrev sys : System
sys = record {
  stat = λ path. if bytes_eq path (codes "sync") then missing else found false;
  open_file = contents;
  read_succeeds = λ path. true;
  memory = any_memory;
  run_program = λ path. record { rc = pos 0; lines = [] };
  getpwnam = λ name. none;
  getgrnam = λ name. none;
  junk = [];
}

not_boolean :
    load_value_as 32 touched_or_bool sys (codes "respawn") false
    ≡ throw (could_not_load (codes "respawn") not_a_boolean)
unfolding load_value_as load_value_as_string load_stat load_found read_file read_opened trim trim_by
    trim_end trim_start terminate_at_first_eol string_to_bool
not_boolean = refl

load_value_as-IsLoadError_example :
    IsLoadError (codes "respawn") (could_not_load (codes "respawn") not_a_boolean)
load_value_as-IsLoadError_example =
    load_value_as-IsLoadError 32 touched_or_bool sys (codes "respawn") false
      (could_not_load (codes "respawn") not_a_boolean) not_boolean
