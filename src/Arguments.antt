-- ===== src/Arguments.antt =====
-- The command line of src/cinit/cinit.c: `parse_args`, on what getopt_long gives.
pub mod Usable
use docker_baseimage.Base.{
  ℕ, ◌*◌, Bool, true, false, not, List, [], ◌∷◌, ◌++◌, Option, none, some, ltb, leb, ◌==◌,
  if◌then◌else◌, length,
}
use docker_baseimage.Text.{Bytes, codes, trim, split, count_tokens, remove_duplicated_char}
use docker_baseimage.Exception.{
  Result, ok, throw, rethrow, ◌>>=◌, too_many_default_groups, progname_too_long, root_too_long,
  root_not_absolute, help, invalid_gracetime, invalid_ready_timeout, invalid_uid, invalid_gid,
  invalid_umask, invalid_group, invalid_groups, list_not_processed, unexpected_argument,
}
use docker_baseimage.Convert.{string_to_uint, string_to_uid, string_to_gid, string_to_mode}
use docker_baseimage.Values.{System}
use docker_baseimage.Service.{Context, initial_context, max_num_entries}
use docker_baseimage.Load.{copy_tokens}

-- What one call of getopt_long gives: an option, with `optarg` where it has one. `unknown` is '?'.
pub data Argument : Type 0 where
  debug_arg help_arg unknown_arg : Argument
  progname_arg root_arg gracetime_arg ready_timeout_arg : Bytes → Argument
  uid_arg gid_arg groups_arg umask_arg : Bytes → Argument

-- The members of `g_ctx` that the options set.
pub record Setup : Type 0 where
  pub progname : Bytes
  pub services_root : Bytes
  pub ctx : Context

-- sizeof(g_ctx.progname) and sizeof(SRV_ROOT())
abbrev pub progname_size : ℕ
progname_size = 256

-- The initial value of `g_ctx`, with the name of the program as `main` sets it.
abbrev pub initial_setup : Bytes → Setup
initial_setup progname = record {
  progname = progname;
  services_root = codes "/etc/services.d";
  ctx = initial_context;
}

abbrev pub is_absolute : Bytes → Bool
is_absolute [] = false
is_absolute (c ∷ path) = c == b'/'

-- The groups of one option 's'.
unfoldable pub parse_groups : System → Bytes → Result (List ℕ)
unfolding copy_tokens trim split count_tokens remove_duplicated_char string_to_gid
parse_groups sys arg =
    let buf = trim arg in
    if not (sys.memory (8 * count_tokens (remove_duplicated_char buf b',') b','))
    then throw list_not_processed
    else if ltb max_num_entries (length (split buf b','))
    then throw too_many_default_groups
    else copy_tokens (λ t. rethrow (invalid_group t) (string_to_gid sys.getgrnam t))
        (split buf b',')

-- Assignments to members of g_ctx.
abbrev pub set_gracetime : Setup → ℕ → Setup
set_gracetime s n = record s { ctx = record s.ctx { services_gracetime = n } }

abbrev pub set_ready_timeout : Setup → ℕ → Setup
set_ready_timeout s n = record s { ctx = record s.ctx { default_srv_ready_timeout = n } }

abbrev pub set_uid : Setup → ℕ → Setup
set_uid s n = record s { ctx = record s.ctx { default_srv_uid = n } }

abbrev pub set_gid : Setup → ℕ → Setup
set_gid s n = record s { ctx = record s.ctx { default_srv_gid = n } }

abbrev pub set_umask : Setup → ℕ → Setup
set_umask s n = record s { ctx = record s.ctx { default_srv_umask = n } }

-- The groups are written behind those of an earlier option, past the end of the array of 32 where these
-- and the others are more: the list of the model grows.
abbrev pub add_groups : Setup → List ℕ → Setup
add_groups s gids = record s {
  ctx = record s.ctx { default_srv_sgid_list = s.ctx.default_srv_sgid_list ++ gids };
}

-- The switch. A setting that throws leaves `main` at once, so that what it changed is not kept.
unfoldable pub parse_argument : System → Argument → Setup → Result Setup
unfolding parse_groups string_to_uint string_to_uid string_to_gid string_to_mode
parse_argument sys debug_arg s = ok (record s { ctx = record s.ctx { debug = true } })
parse_argument sys (progname_arg arg) s =
    if leb progname_size (length arg)
    then throw progname_too_long
    else ok (record s { progname = arg })
parse_argument sys (root_arg arg) s =
    if leb progname_size (length arg)
    then throw root_too_long
    else if not (is_absolute arg)
    then throw root_not_absolute
    else ok (record s { services_root = arg })
parse_argument sys (gracetime_arg arg) s =
    rethrow (invalid_gracetime arg) (string_to_uint arg) >>= λ n. ok (set_gracetime s n)
parse_argument sys (ready_timeout_arg arg) s =
    rethrow (invalid_ready_timeout arg) (string_to_uint arg) >>= λ n. ok (set_ready_timeout s n)
parse_argument sys (uid_arg arg) s =
    rethrow (invalid_uid arg) (string_to_uid sys.getpwnam arg) >>= λ n. ok (set_uid s n)
parse_argument sys (gid_arg arg) s =
    rethrow (invalid_gid arg) (string_to_gid sys.getgrnam arg) >>= λ n. ok (set_gid s n)
parse_argument sys (groups_arg arg) s =
    rethrow invalid_groups (parse_groups sys arg) >>= λ gids. ok (add_groups s gids)
parse_argument sys (umask_arg arg) s =
    rethrow (invalid_umask arg) (string_to_mode arg) >>= λ n. ok (set_umask s n)
parse_argument sys help_arg s = throw help
parse_argument sys unknown_arg s = throw help

-- The loop.
unfoldable pub parse_arguments : System → List Argument → Setup → Result Setup
unfolding parse_argument
parse_arguments sys [] s = ok s
parse_arguments sys (a ∷ as') s = parse_argument sys a s >>= λ s'. parse_arguments sys as' s'

-- On the options, and the first argument that is none, if any.
unfoldable pub parse_args : System → List Argument → Option Bytes → Setup → Result Setup
unfolding parse_arguments
parse_args sys args operand s = parse_arguments sys args s >>= λ s'. elim operand [
  | none ↦ ok s'
  | some arg ↦ throw (unexpected_argument arg)
]
