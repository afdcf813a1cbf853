-- ===== src/Load.antt =====
-- `load_service` of src/cinit/cinit.c: the settings of a service, read from its directory into the
-- first unused entry of the service table.
pub mod Lists
pub mod Programs
pub mod Settings
pub mod Entry
use docker_baseimage.Base.{
  ℕ, suc, ◌+◌, ◌*◌, Bool, true, false, not, ◌&&◌, ◌||◌, List, [], ◌∷◌, ◌++◌, map, Option, none,
  some, ltb, leb, ◌==◌, if◌then◌else◌, length, set, get_or,
}
use docker_baseimage.Base.Int.{pos}
use docker_baseimage.Text.{
  Bytes, codes, trim, remove_all_char, split, count_tokens, remove_duplicated_char,
  terminate_at_first_eol, is_digit, is_alnum,
}
use docker_baseimage.Exception.{
  Result, ok, throw, rethrow, ◌>>=◌, Message, could_not_load, out_of_memory, too_many_parameters,
  too_many_variables, too_many_groups, invalid_variable_format, invalid_variable_name,
  run_not_executable, no_real_path, respawn_and_sync, respawn_and_interval, name_too_long,
  service_not_found, too_many_services,
}
use docker_baseimage.Convert.{string_to_gid}
use docker_baseimage.Values.{
  System, allocated, into, buf_text, load_value_as_string, load_value_as_bool, load_value_as_int,
  load_value_as_uint, load_value_as_interval, load_value_as_uid, load_value_as_gid,
  load_value_as_mode, max,
}
use docker_baseimage.Service.{
  Service, Context, cleared, max_num_entries, find_service, alloc_service_index, unload_service,
}

-- An entry of a directory: its name, and whether it is a regular file.
abbrev pub DirEntry : Type 0
DirEntry = Bytes × Bool

-- A service's directory, once it is the working directory: its files, the tests access(…, F_OK)
-- and access(…, X_OK), realpath(), and what readdir() lists.
pub record ServiceDir : Type 0 where
  pub files : System
  pub exists : Bytes → Bool
  pub executable : Bytes → Bool
  pub realpath : Bytes → Option Bytes
  pub entries : List DirEntry

-- The loop over the tokens: an empty one is skipped, another is checked and copied (or converted).
unfoldable pub copy_tokens {ℓ} : {A : Type ℓ} → (Bytes → Result A) → List Bytes → Result (List A)
copy_tokens copy [] = ok []
copy_tokens copy ([] ∷ ts) = copy_tokens copy ts
copy_tokens copy ((c ∷ t) ∷ ts) =
    let rest = copy_tokens copy ts in copy (c ∷ t) >>= λ a. rest >>= λ as'. ok (a ∷ as')

-- Lines of a setting's text: the vector of the tokens is allocated, and their number is checked.
unfoldable pub load_tokens {ℓ} :
    {A : Type ℓ} → System → Message → (Bytes → Result A) → Bytes → Result (List A)
unfolding copy_tokens
load_tokens sys too_many copy text =
    let buf = trim (remove_all_char text b'\r') in
    if not (sys.memory (8 * count_tokens (remove_duplicated_char buf b'\n') b'\n'))
    then throw out_of_memory
    else if ltb max_num_entries (length (split buf b'\n'))
    then throw too_many
    else copy_tokens copy (split buf b'\n')

-- The blocks for 'params', 'environment', 'environment_extra' and 'sgid' share this shape: the
-- list is `none` where there is no file.
unfoldable pub load_list {ℓ} :
    {A : Type ℓ} → System → Bytes → Message → (Bytes → Result A) → Result (Option (List A))
unfolding load_tokens
load_list sys path too_many copy = load_value_as_string sys path allocated >>= λ r. elim (r.1) [
  | none ↦ ok none
  | some text ↦
      rethrow (could_not_load path) (load_tokens sys too_many copy text) >>= λ l. ok (some l)
]

-- strdup
abbrev pub duplicate : System → Bytes → Result Bytes
duplicate sys t = if sys.memory (length t + 1) then ok t else throw out_of_memory

-- strchr(t, '=') != NULL
abbrev pub has_equal_sign : Bytes → Bool
has_equal_sign [] = false
has_equal_sign (c ∷ t) = c == b'=' || has_equal_sign t

-- The loop over the name's characters, up to the equal sign.
abbrev pub has_valid_name : Bytes → Bool
has_valid_name [] = false
has_valid_name (c ∷ t) =
    if c == b'='
    then true
    else if not (is_alnum c) && not (c == b'_')
    then false
    else has_valid_name t

abbrev pub starts_with_digit : Bytes → Bool
starts_with_digit [] = false
starts_with_digit (c ∷ t) = is_digit c

unfoldable pub check_variable : System → Bytes → Result Bytes
check_variable sys t =
    if not (has_equal_sign t)
    then throw invalid_variable_format
    else if starts_with_digit t
    then throw invalid_variable_name
    else if not (has_valid_name t)
    then throw invalid_variable_name
    else duplicate sys t

abbrev pub list_or {ℓ} : {A : Type ℓ} → Option (List A) → List A
list_or none = []
list_or (some l) = l

-- An empty file means no environment variables to pass: one NULL entry.
abbrev pub environment_of : Option (List Bytes) → List (Option Bytes)
environment_of none = []
environment_of (some []) = none ∷ []
environment_of (some (v ∷ vs)) = map some (v ∷ vs)

-- The defaults, before a file is read.
abbrev pub service_defaults : Context → Service
service_defaults ctx = record cleared {
  output_fd = none;
  uid = ctx.default_srv_uid;
  gid = ctx.default_srv_gid;
  sgid_list = ctx.default_srv_sgid_list;
  umask = ctx.default_srv_umask;
  ready_timeout = ctx.default_srv_ready_timeout;
  min_running_time = 500;
}

-- The program to run, with its parameters and variables.
unfoldable pub load_run : ServiceDir → Service → Option Bytes → Result Service
unfolding load_list check_variable
load_run dir s none = throw no_real_path
load_run dir s (some path) =
    load_list dir.files (codes "params") too_many_parameters (duplicate dir.files) >>= λ params.
    load_list dir.files (codes "environment") too_many_variables (check_variable dir.files)
    >>= λ environment.
        load_list dir.files (codes "environment_extra") too_many_variables
          (check_variable dir.files)
        >>= λ extra. ok (record s {
          run_abs_path = some path;
          param_list = list_or params;
          environment = environment_of environment;
          environment_extra = list_or extra;
        })

unfoldable pub load_program : ServiceDir → Service → Result Service
unfolding load_run
load_program dir s =
    if not (dir.executable (codes "run"))
    then throw run_not_executable
    else load_run dir s (dir.realpath (codes "run"))

-- The groups of 'sgid' are added to the default ones.
unfoldable pub load_identity : ServiceDir → Service → Result Service
unfolding load_list
load_identity dir s = load_value_as_uid dir.files (codes "uid") s.uid >>= λ uid.
    load_value_as_gid dir.files (codes "gid") s.gid >>= λ gid.
    load_list dir.files (codes "sgid") too_many_groups (string_to_gid dir.files.getgrnam)
    >>= λ groups. load_value_as_mode dir.files (codes "umask") s.umask >>= λ umask.
        load_value_as_int dir.files (codes "priority") s.priority >>= λ priority.
        load_value_as_string dir.files (codes "workdir") (into 256 s.working_directory)
        >>= λ workdir. ok (record s {
          uid = uid.1;
          gid = gid.1;
          sgid_list = s.sgid_list ++ list_or groups;
          umask = umask.1;
          priority = priority.1;
          working_directory = terminate_at_first_eol (buf_text workdir.1);
        })

unfoldable pub load_behaviour : ServiceDir → Service → Result Service
load_behaviour dir s = load_value_as_bool dir.files (codes "respawn") s.respawn >>= λ respawn.
    load_value_as_bool dir.files (codes "sync") s.sync >>= λ sync.
    load_value_as_bool dir.files (codes "ignore_failure") s.ignore_failure >>= λ ignore.
    load_value_as_bool dir.files (codes "shutdown_on_terminate") s.shutdown_on_terminate
    >>= λ shutdown.
        load_value_as_uint dir.files (codes "min_running_time") s.min_running_time >>= λ running.
        load_value_as_uint dir.files (codes "ready_timeout") s.ready_timeout >>= λ ready.
        load_value_as_interval dir.files (codes "interval") s.interval >>= λ interval.
        ok (record s {
          respawn = respawn.1;
          sync = sync.1;
          ignore_failure = ignore.1;
          shutdown_on_terminate = shutdown.1;
          min_running_time = running.1;
          ready_timeout = ready.1;
          interval = interval.1;
        })

-- The validations at the end, and what is set after them.
unfoldable pub finish_service : Context → Bytes → Service → Result Service
finish_service ctx name s =
    if s.respawn && s.sync
    then throw respawn_and_sync
    else if s.respawn && ltb 0 s.interval
    then throw respawn_and_interval
    else ok (record s {
      ready_timeout = max s.ready_timeout ctx.default_srv_ready_timeout;
      pid = 0;
      name = name;
    })

-- The `Try` block. A group or a disabled service only gets its name.
unfoldable pub fill_service : Context → ServiceDir → Bytes → Result Service
unfolding load_program load_identity load_behaviour finish_service
fill_service ctx dir name =
    let s = record (service_defaults ctx) { is_service_group = not (dir.exists (codes "run")) } in
    load_value_as_bool dir.files (codes "disabled") s.disabled >>= λ disabled.
    let s' = record s { disabled = disabled.1 } in
    if s'.is_service_group || s'.disabled
    then ok (record s' { name = name })
    else (load_program dir s' >>= λ s1.
        load_identity dir s1 >>= λ s2. load_behaviour dir s2 >>= λ s3. finish_service ctx name s3)

-- MEMBER_SIZE(service_t, name)
abbrev pub name_size : ℕ
name_size = 256

-- The table afterwards and the index. chdir_to_service fails where there is no directory.
unfoldable pub store_service : Context → ℕ → Result Service → List Service × Result ℕ
store_service ctx sid (ok s) = (set ctx.services sid s, ok sid)
store_service ctx sid (throw e) = (unload_service ctx.services sid, throw e)

unfoldable pub add_at : Context → ServiceDir → Bytes → Option ℕ → List Service × Result ℕ
unfolding store_service
add_at ctx dir name none = (ctx.services, throw too_many_services)
add_at ctx dir name (some sid) = store_service ctx sid (fill_service ctx dir name)

unfoldable pub add_service : Context → Option ServiceDir → Bytes → List Service × Result ℕ
unfolding add_at
add_service ctx none name = (ctx.services, throw service_not_found)
add_service ctx (some dir) name = add_at ctx dir name (alloc_service_index ctx.services)

-- The early return where the service is in the table, else the load.
unfoldable pub load_or_find :
    Context → (Bytes → Option ServiceDir) → Bytes → Option ℕ → List Service × Result ℕ
unfolding add_service
load_or_find ctx service_dir name (some sid) = (ctx.services, ok sid)
load_or_find ctx service_dir name none =
    if leb name_size (length name)
    then (ctx.services, throw name_too_long)
    else add_service ctx (service_dir name) name

unfoldable pub load_service :
    Context → (Bytes → Option ServiceDir) → Bytes → List Service × Result ℕ
unfolding load_or_find
load_service ctx service_dir name =
    load_or_find ctx service_dir name (find_service ctx.services name)
