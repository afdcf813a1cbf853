-- ===== src/Arguments/Usable.antt =====
-- What a command line that is accepted sets.
use docker_baseimage.Base.{
  ℕ, ◌+◌, ◌*◌, ◌<◌, ◌≤◌, ◌≡◌, refl, ap, ◌∙◌, subst, true, List, [], ◌∷◌, Option, none, some, ltb,
  leb, ltb-false→le, length, length-append, Bool-cases, inl, inr, arith,
}
use docker_baseimage.Text.{Bytes, codes, trim, split, count_tokens, remove_duplicated_char}
use docker_baseimage.Exception.{
  Result, ok, throw, rethrow, ◌>>=◌, Message, invalid_gracetime, invalid_ready_timeout, invalid_uid,
  invalid_gid, invalid_umask, invalid_group, invalid_groups, unexpected_argument,
}
use docker_baseimage.Convert.{
  uint_mod, string_to_uint, string_to_uid, string_to_gid, string_to_mode,
}
use docker_baseimage.Convert.Numbers.{string_to_uint_bounds, string_to_mode_bounds}
use docker_baseimage.Values.{System}
use docker_baseimage.Service.{initial_context, max_num_entries}
use docker_baseimage.Load.Lists.{>>=-ok, ok-inj, rethrow-ok, copy_tokens-All}
use docker_baseimage.Arguments.{
  Argument, debug_arg, help_arg, unknown_arg, progname_arg, root_arg, gracetime_arg,
  ready_timeout_arg, uid_arg, gid_arg, groups_arg, umask_arg, Setup, progname_size, initial_setup,
  is_absolute, parse_groups, set_gracetime, set_ready_timeout, set_uid, set_gid, set_umask,
  add_groups, parse_argument, parse_arguments, parse_args,
}

-- The names fit their arrays, the root is absolute, and the numbers fit what holds them. The table of
-- the services, the start order and the exit code are those at the start.
abbrev pub IsUsable : Setup → Type 0
IsUsable s =
    (length s.progname < progname_size)
    × (length s.services_root < progname_size)
    × (is_absolute s.services_root ≡ true)
    × (s.ctx.services_gracetime < uint_mod)
    × (s.ctx.default_srv_ready_timeout < uint_mod)
    × (s.ctx.default_srv_umask < 512)
    × (s.ctx.services ≡ initial_context.services)
    × (s.ctx.start_order ≡ initial_context.start_order)
    × (s.ctx.exit_code ≡ 0)

-- The root and the room for groups, after one argument.
abbrev pub root_after : Bytes → Argument → Bytes
root_after root (root_arg arg) = arg
root_after root debug_arg = root
root_after root help_arg = root
root_after root unknown_arg = root
root_after root (progname_arg arg) = root
root_after root (gracetime_arg arg) = root
root_after root (ready_timeout_arg arg) = root
root_after root (uid_arg arg) = root
root_after root (gid_arg arg) = root
root_after root (groups_arg arg) = root
root_after root (umask_arg arg) = root

abbrev pub room_for : Argument → ℕ
room_for (groups_arg arg) = max_num_entries
room_for debug_arg = 0
room_for help_arg = 0
room_for unknown_arg = 0
room_for (progname_arg arg) = 0
room_for (root_arg arg) = 0
room_for (gracetime_arg arg) = 0
room_for (ready_timeout_arg arg) = 0
room_for (uid_arg arg) = 0
room_for (gid_arg arg) = 0
room_for (umask_arg arg) = 0

-- The last root, or the one given; and the room of all options 's'.
abbrev pub last_root : Bytes → List Argument → Bytes
last_root root [] = root
last_root root (a ∷ as') = last_root (root_after root a) as'

abbrev pub room : List Argument → ℕ
room [] = 0
room (a ∷ as') = room_for a + room as'

-- What one argument makes of a setup.
abbrev Parsed : Setup → Argument → Setup → Type 0
Parsed s a s' =
    IsUsable s'
    × (s'.services_root ≡ root_after s.services_root a)
    × (length s'.ctx.default_srv_sgid_list ≤ length s.ctx.default_srv_sgid_list + room_for a)

-- A number that is converted and set.
set_number :
    (g : Message → Message) (r : Result ℕ) (f : ℕ → Setup) (s' : Setup) (P : Setup → Type 0)
    → (rethrow g r >>= λ n. ok (f n)) ≡ ok s'
    → ((n : ℕ) → r ≡ ok n → P (f n))
    → P s'
set_number g r f s' P e h =
    let (n, is_ok, same) = >>=-ok (rethrow g r) (λ n. ok (f n)) s' e in
    subst P (ok-inj same) (h n (rethrow-ok g r n is_ok))

parse_groups-length :
    (sys : System) (arg : Bytes) (gids : List ℕ)
    → parse_groups sys arg ≡ ok gids
    → length gids ≤ max_num_entries
unfolding parse_groups
parse_groups-length sys arg gids e =
    let buf = trim arg in
    let ts = split buf b',' in
    let copy = λ (t : Bytes). rethrow (invalid_group t) (string_to_gid sys.getgrnam t) in
    elim (Bool-cases (sys.memory (8 * count_tokens (remove_duplicated_char buf b',') b','))) [
      | inr no_memory ↦ cc
      | inl memory ↦ elim (Bool-cases (ltb max_num_entries (length ts))) [
        | inl large ↦ cc
        | inr fits ↦
            let all =
              copy_tokens-All {P = λ a. Unit {0}} copy (λ t a k. tt) ts gids
                (rw (memory, fits) at e) in
            omega (arith, all.0, ltb-false→le max_num_entries (length ts) fits)
      ]
    ]

parse_argument-Parsed :
    (sys : System) (a : Argument) (s s' : Setup)
    → parse_argument sys a s ≡ ok s'
    → IsUsable s
    → Parsed s a s'
unfolding parse_argument
parse_argument-Parsed sys debug_arg s s' e h =
    subst (Parsed s debug_arg) (ok-inj e) (h, refl, omega arith)
parse_argument-Parsed sys help_arg s s' e h = cc
parse_argument-Parsed sys unknown_arg s s' e h = cc
parse_argument-Parsed sys (progname_arg arg) s s' e h =
    elim (Bool-cases (leb progname_size (length arg))) [
      | inl long ↦ cc
      | inr fits ↦
          let (p, r, ab, g, t, m, sv, o, x) = h in
          subst (Parsed s (progname_arg arg)) (ok-inj (rw fits at e))
            ((ground (arith, fits), r, ab, g, t, m, sv, o, x), refl, omega arith)
    ]
parse_argument-Parsed sys (root_arg arg) s s' e h =
    elim (Bool-cases (leb progname_size (length arg))) [
      | inl long ↦ cc
      | inr fits ↦ elim (Bool-cases (is_absolute arg)) [
        | inr relative ↦ cc
        | inl absolute ↦
            let (p, r, ab, g, t, m, sv, o, x) = h in
            subst (Parsed s (root_arg arg)) (ok-inj (rw (fits, absolute) at e))
              ((p, ground (arith, fits), absolute, g, t, m, sv, o, x), refl, omega arith)
      ]
    ]
parse_argument-Parsed sys (gracetime_arg arg) s s' e h =
    let (p, r, ab, g, t, m, sv, o, x) = h in
    set_number (invalid_gracetime arg) (string_to_uint arg) (set_gracetime s) s'
      (Parsed s (gracetime_arg arg)) e
      (λ n k. ((p, r, ab, string_to_uint_bounds arg n k, t, m, sv, o, x), refl, omega arith))
parse_argument-Parsed sys (ready_timeout_arg arg) s s' e h =
    let (p, r, ab, g, t, m, sv, o, x) = h in
    set_number (invalid_ready_timeout arg) (string_to_uint arg) (set_ready_timeout s) s'
      (Parsed s (ready_timeout_arg arg)) e
      (λ n k. ((p, r, ab, g, string_to_uint_bounds arg n k, m, sv, o, x), refl, omega arith))
parse_argument-Parsed sys (uid_arg arg) s s' e h =
    set_number (invalid_uid arg) (string_to_uid sys.getpwnam arg) (set_uid s) s'
      (Parsed s (uid_arg arg)) e (λ n k. (h, refl, omega arith))
parse_argument-Parsed sys (gid_arg arg) s s' e h =
    set_number (invalid_gid arg) (string_to_gid sys.getgrnam arg) (set_gid s) s'
      (Parsed s (gid_arg arg)) e (λ n k. (h, refl, omega arith))
parse_argument-Parsed sys (groups_arg arg) s s' e h =
    let set = λ (gids : List ℕ). add_groups s gids in
    let (gids, is_ok, same) =
      >>=-ok (rethrow invalid_groups (parse_groups sys arg)) (λ gids. ok (set gids)) s' e in
    let few =
      parse_groups-length sys arg gids
        (rethrow-ok invalid_groups (parse_groups sys arg) gids is_ok) in
    subst (Parsed s (groups_arg arg)) (ok-inj same)
      (h, refl, omega (arith, few, length-append s.ctx.default_srv_sgid_list gids))
parse_argument-Parsed sys (umask_arg arg) s s' e h =
    let (p, r, ab, g, t, m, sv, o, x) = h in
    set_number (invalid_umask arg) (string_to_mode arg) (set_umask s) s' (Parsed s (umask_arg arg))
      e (λ n k. ((p, r, ab, g, t, string_to_mode_bounds arg n k, sv, o, x), refl, omega arith))

-- What the arguments make of a setup.
abbrev pub ParsedAll : Setup → List Argument → Setup → Type 0
ParsedAll s args s' =
    IsUsable s'
    × (s'.services_root ≡ last_root s.services_root args)
    × (length s'.ctx.default_srv_sgid_list ≤ length s.ctx.default_srv_sgid_list + room args)

parse_arguments-ParsedAll :
    (sys : System) (args : List Argument) (s s' : Setup)
    → parse_arguments sys args s ≡ ok s'
    → IsUsable s
    → ParsedAll s args s'
unfolding parse_arguments
parse_arguments-ParsedAll sys [] s s' e h = subst (ParsedAll s []) (ok-inj e) (h, refl, omega arith)
parse_arguments-ParsedAll sys (a ∷ args) s s' e h =
    let (m, first, rest) = >>=-ok (parse_argument sys a s) (λ m. parse_arguments sys args m) s' e in
    let (usable, root, few) = parse_argument-Parsed sys a s m first h in
    let (usable', root', few') = parse_arguments-ParsedAll sys args m s' rest usable in
    (usable', root' ∙ ap (λ r. last_root r args) root, omega (arith, few, few'))

abbrev pub IsAccepted : List Argument → Setup → Type 0
IsAccepted args s =
    IsUsable s
    × (s.services_root ≡ last_root (codes "/etc/services.d") args)
    × (length s.ctx.default_srv_sgid_list ≤ room args)

-- A command line that is accepted, where the program's own name is short enough: the name and the root
-- fit their arrays, the root is that of the last option 'r' (or the default) and absolute, the times fit
-- an `unsigned int`, the umask is at most 0777, and the table, the start order and the exit code are as
-- at the start. There are at most 32 default groups for each option 's', so that one such option never
-- writes past the end of their array.
pub parse_args-IsAccepted :
    (sys : System) (args : List Argument) (operand : Option Bytes) (name : Bytes) (s : Setup)
    → length name < progname_size
    → parse_args sys args operand (initial_setup name) ≡ ok s
    → IsAccepted args s
unfolding parse_args
parse_args-IsAccepted sys args none name s fits e =
    let (s', parsed, same) =
      >>=-ok (parse_arguments sys args (initial_setup name)) (λ s'. ok s') s e in
    let (usable, root, few) =
      parse_arguments-ParsedAll sys args (initial_setup name) s' parsed
        (fits, omega arith, refl, omega arith, omega arith, omega arith, refl, refl, refl) in
    subst (IsAccepted args) (ok-inj same) (usable, root, omega (arith, few))
parse_args-IsAccepted sys args (some arg) name s fits e =
    let (s', parsed, same) =
      >>=-ok (parse_arguments sys args (initial_setup name)) (λ s'. throw (unexpected_argument arg))
        s e in
    cc
