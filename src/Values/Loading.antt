-- ===== src/Values/Loading.antt =====
-- The functions `load_value_as_…` from the file to the value.
use docker_baseimage.Base.{
  ℕ, ◌≡◌, ap, Bool, true, false, inl, inr, some, arith, Bool-cases, Option-cases,
}
use docker_baseimage.Base.Int.{ℤ}
use docker_baseimage.Text.{Bytes, is_space, trim, terminate_at_first_eol}
use docker_baseimage.Exception.{
  Result, ok, throw, Message, could_not_load, command_failed, stat_failed, Result-cases,
}
use docker_baseimage.Convert.{
  string_to_int, string_to_uint, string_to_interval, string_to_uid, string_to_gid, string_to_mode,
  is_digit_of,
}
use docker_baseimage.Values.{
  System, process_lines, start_ctx, Stat, missing, stat_error, found, Dest, into, read_file,
  load_found, load_stat, OutputCtx, is_zero, output_message, command_result, load_value_as_string,
  load_value_as, load_value_as_bool, load_value_as_int, load_value_as_uint, load_value_as_interval,
  load_value_as_uid, load_value_as_gid, load_value_as_mode, buf_text, touched_or_bool,
}

load_value_as_string_missing :
    (sys : System) (path old : Bytes) (size : ℕ)
    → sys.stat path ≡ missing
    → load_value_as_string sys path (into size old) ≡ ok (false, some old)
unfolding load_value_as_string load_stat
load_value_as_string_missing sys path old size h = ap (load_stat sys path (into size old)) h

load_value_as_absent {ℓ} :
    {A : Type ℓ} (size : ℕ) (convert : Bytes → Result A) (sys : System) (path : Bytes) (r : A)
    → sys.stat path ≡ missing
    → load_value_as size convert sys path r ≡ ok (false, r)
unfolding load_value_as
load_value_as_absent size convert sys path r h =
    rw (load_value_as_string_missing sys path sys.junk size h)

-- A setting with no file keeps the value that it had, whatever the setting's type.
pub load_value_as_missing :
    (sys : System) (path : Bytes) (b : Bool) (i : ℤ) (n : ℕ)
    → sys.stat path ≡ missing
    → (load_value_as_bool sys path b ≡ ok (false, b))
      × (load_value_as_int sys path i ≡ ok (false, i))
      × (load_value_as_uint sys path n ≡ ok (false, n))
      × (load_value_as_interval sys path n ≡ ok (false, n))
      × (load_value_as_uid sys path n ≡ ok (false, n))
      × (load_value_as_gid sys path n ≡ ok (false, n))
      × (load_value_as_mode sys path n ≡ ok (false, n))
unfolding load_value_as_bool load_value_as_int load_value_as_uint load_value_as_interval
    load_value_as_uid load_value_as_gid load_value_as_mode
load_value_as_missing sys path b i n h = (
  load_value_as_absent 32 touched_or_bool sys path b h,
  load_value_as_absent 128 string_to_int sys path i h,
  load_value_as_absent 128 string_to_uint sys path n h,
  load_value_as_absent 128 string_to_interval sys path n h,
  load_value_as_absent 256 (string_to_uid sys.getpwnam) sys path n h,
  load_value_as_absent 256 (string_to_gid sys.getgrnam) sys path n h,
  load_value_as_absent 256 string_to_mode sys path n h,
)

abbrev pub IsLoadError : Bytes → Message → Type 0
IsLoadError path e = (cause : Message) × (e ≡ could_not_load path cause)

command_result-IsLoadError :
    (path : Bytes) (rc : ℤ) (ctx : OutputCtx) (e : Message)
    → command_result path rc ctx ≡ throw e
    → IsLoadError path e
unfolding command_result
command_result-IsLoadError path rc ctx e h = elim (Bool-cases (is_zero rc)) [
  | inr failed ↦ (command_failed, ground (arith, failed))
  | inl done ↦ elim (Option-cases ctx.err) [
    | inl clean ↦ ground (arith, done, clean)
    | inr (f, bad) ↦ (output_message f, ground (arith, done, bad))
  ]
]

load_found-IsLoadError :
    (sys : System) (path : Bytes) (dest : Dest) (x : Bool) (e : Message)
    → load_found sys path dest x ≡ throw e
    → IsLoadError path e
unfolding load_found
load_found-IsLoadError sys path dest true e h =
    let run = sys.run_program path in
    command_result-IsLoadError path run.rc (process_lines sys.memory (start_ctx dest) run.lines) e h
load_found-IsLoadError sys path dest false e h = elim (Result-cases (read_file sys path dest)) [
  | inl (a, r) ↦ ground (arith, r)
  | inr (c, r) ↦ (c, ground (arith, r))
]

load_stat-IsLoadError :
    (sys : System) (path : Bytes) (dest : Dest) (s : Stat) (e : Message)
    → load_stat sys path dest s ≡ throw e
    → IsLoadError path e
unfolding load_stat
load_stat-IsLoadError sys path dest missing e h = cc
load_stat-IsLoadError sys path dest stat_error e h = (stat_failed, ground (arith, h))
load_stat-IsLoadError sys path dest (found x) e h = load_found-IsLoadError sys path dest x e h

load_value_as_string-IsLoadError :
    (sys : System) (path : Bytes) (dest : Dest) (e : Message)
    → load_value_as_string sys path dest ≡ throw e
    → IsLoadError path e
unfolding load_value_as_string
load_value_as_string-IsLoadError sys path dest e h =
    load_stat-IsLoadError sys path dest (sys.stat path) e h

-- Every failure to load a value names the file.
pub load_value_as-IsLoadError {ℓ} :
    {A : Type ℓ} (size : ℕ) (convert : Bytes → Result A) (sys : System) (path : Bytes) (r : A)
    (e : Message)
    → load_value_as size convert sys path r ≡ throw e
    → IsLoadError path e
unfolding load_value_as
load_value_as-IsLoadError size convert sys path r e h =
    elim (Result-cases (load_value_as_string sys path (into size sys.junk))) [
      | inr (c, f) ↦
          let (cause, g) = load_value_as_string-IsLoadError sys path (into size sys.junk) c f in
          (cause, ground (arith, f, g))
      | inl ((true, buf), f) ↦
          elim (Result-cases (convert (trim (terminate_at_first_eol (buf_text buf))))) [
            | inl (v, g) ↦ ground (arith, f, g)
            | inr (c, g) ↦ (c, ground (arith, f, g))
          ]
      | inl ((false, buf), f) ↦ ground (arith, f)
    ]

digit-is_space : (c : ℕ) → is_digit_of 10 c ≡ true → is_space c ≡ false
digit-is_space c h = ground arith
