-- ===== src/Monitor/Config/Notifications/Complete.antt =====
-- A notification that was loaded is complete.
use docker_baseimage.Base.{
  some-inj, ℕ, suc, ◌+◌, ◌≤◌, ◌<◌, ◌≡◌, refl, subst, ◌⊎◌, inl, inr, Bool, true, false, ◌||◌, List,
  [], ◌∷◌, Option, none, some, ltb, ltb→lt, length, length-append, All, All-append, arith,
  Bool-cases,
}
use docker_baseimage.Text.{Bytes, bytes_eq}
use docker_baseimage.Monitor.{
  Target, Notification, max_num_monitored_files_per_notification, max_num_targets,
}
use docker_baseimage.Monitor.Notify.{is_level}
use docker_baseimage.Monitor.Config.{ConfigFs, file2str, str_starts_with, tokens}
use docker_baseimage.Monitor.Config.Steps.{>>=-some, guard-some, if-some, each_token_keeps}
use docker_baseimage.Monitor.Config.Notifications.{
  source_of, add_source, find_target, add_target, text_setting, level_setting, NotificationFile,
  filter_file, title_file, desc_file, level_file, source_file, target_names, other_file,
  notification_file,
}

-- The path of a monitored file is absolute.
abbrev pub IsAbsolute : Bytes × Bool → Type 0
IsAbsolute f = str_starts_with f.0 b'/' ≡ true

-- A level is the path of a program, or one of the three.
abbrev pub IsLevel : Option Bytes → Bool → Type 0
IsLevel none is_exe = Unit {0}
IsLevel (some l) is_exe = (is_exe ≡ true) ⊎ (is_level l ≡ true)

-- After every file of the directory, with this many targets.
pub record IsBounded (num_targets : ℕ) (n : Notification) : Type 0 where
  pub level_known : IsLevel n.level n.is_level_exe
  pub files_few : length n.monitored_files ≤ max_num_monitored_files_per_notification
  pub files_absolute : All IsAbsolute n.monitored_files
  pub targets_few : length n.targets ≤ max_num_targets
  pub targets_known : All (λ tidx. tidx < num_targets) n.targets

abbrev pub Bounded : List Target → Notification → Type 0
Bounded ts = IsBounded (length ts)

add_source-IsBounded :
    (fs : ConfigFs) (ts : List Target) (n : Notification) (token : Bytes) (n' : Notification)
    → add_source fs n token ≡ some n'
    → Bounded ts n
    → Bounded ts n'
unfolding add_source
add_source-IsBounded fs ts n token n' e v =
    let source = source_of token in
    let (absolute, e1) = guard-some (str_starts_with source.0 b'/') _ n' e in
    let (room, e2) =
      guard-some (ltb (length n.monitored_files) max_num_monitored_files_per_notification) _ n'
        e1 in
    let (_, e3) = guard-some (fs.memory (length source.0 + 1)) _ n' e2 in
    subst (Bounded ts) (some-inj e3) (record {
      level_known = v.level_known;
      files_few = omega (arith, ltb→lt _ _ room, length-append n.monitored_files (source ∷ []));
      files_absolute = All-append IsAbsolute n.monitored_files _ v.files_absolute (absolute, tt);
      targets_few = v.targets_few;
      targets_known = v.targets_known;
    })

find_target-known :
    (name : Bytes) (from : ℕ) (ts : List Target) (tidx : ℕ)
    → find_target name from ts ≡ some tidx
    → tidx < from + length ts
unfolding find_target
find_target-known name from [] tidx e = cc
find_target-known name from (t ∷ ts) tidx e = elim (Bool-cases (bytes_eq t.name name)) [
  | inl b ↦ omega (arith, some-inj (rw b at e))
  | inr b ↦ omega (arith, find_target-known name (suc from) ts tidx (rw b at e))
]

add_target-IsBounded :
    (ts : List Target) (n : Notification) (token : Bytes) (n' : Notification)
    → add_target ts n token ≡ some n'
    → Bounded ts n
    → Bounded ts n'
unfolding add_target
add_target-IsBounded ts n token n' e v =
    let (tidx, found, e1) = >>=-some (find_target token 0 ts) _ n' e in
    let (room, e2) = guard-some (ltb (length n.targets) max_num_targets) _ n' e1 in
    subst (Bounded ts) (some-inj e2) (record {
      level_known = v.level_known;
      files_few = v.files_few;
      files_absolute = v.files_absolute;
      targets_few = omega (arith, ltb→lt _ _ room, length-append n.targets (tidx ∷ []));
      targets_known =
          All-append _ n.targets _ v.targets_known
            (omega (arith, find_target-known token 0 ts tidx found), tt);
    })

level_setting-IsLevel :
    (text level : Bytes × Bool) (b : Bool)
    → level_setting text ≡ some level
    → IsLevel (some level.0) (level.1 || b)
level_setting-IsLevel (l, true) level b e = inl (rw (← some-inj e) refl)
level_setting-IsLevel (l, false) level b e =
    let (known, same) = if-some (is_level l) (l, false) level e in
    inr (subst (λ x. is_level x.0 ≡ true) same known)

-- Of the texts only the level matters.
IsBounded-texts :
    (k : ℕ) (n n' : Notification)
    → IsLevel n'.level n'.is_level_exe
    → n'.monitored_files ≡ n.monitored_files
    → n'.targets ≡ n.targets
    → IsBounded k n
    → IsBounded k n'
IsBounded-texts k n n' l f t v = record {
  level_known = l;
  files_few = rw f v.files_few;
  files_absolute = rw f v.files_absolute;
  targets_few = rw t v.targets_few;
  targets_known = rw t v.targets_known;
}

pub notification_file-IsBounded :
    (fs : ConfigFs) (ts : List Target) (n : Notification) (filepath : Bytes) (f : NotificationFile)
    (n' : Notification)
    → notification_file fs ts n filepath f ≡ some n'
    → Bounded ts n
    → Bounded ts n'
unfolding notification_file
notification_file-IsBounded fs ts n filepath filter_file n' e v =
    subst (Bounded ts) (if-some (fs.executable filepath) _ n' e).1
      (IsBounded-texts (length ts) n _ v.level_known refl refl v)
notification_file-IsBounded fs ts n filepath title_file n' e v =
    subst (Bounded ts) (some-inj (>>=-some (text_setting fs filepath) _ n' e).2)
      (IsBounded-texts (length ts) n _ v.level_known refl refl v)
notification_file-IsBounded fs ts n filepath desc_file n' e v =
    subst (Bounded ts) (some-inj (>>=-some (text_setting fs filepath) _ n' e).2)
      (IsBounded-texts (length ts) n _ v.level_known refl refl v)
notification_file-IsBounded fs ts n filepath level_file n' e v =
    let (text, _, e1) = >>=-some (text_setting fs filepath) _ n' e in
    let (level, known, e2) = >>=-some (level_setting text) _ n' e1 in
    subst (Bounded ts) (some-inj e2) (
      IsBounded-texts (length ts) n _ (level_setting-IsLevel text level n.is_level_exe known) refl
        refl v)
notification_file-IsBounded fs ts n filepath source_file n' e v =
    let (text, _, e1) = >>=-some (file2str fs filepath) _ n' e in
    each_token_keeps (add_source fs) (Bounded ts) (add_source-IsBounded fs ts) (tokens [] text) n n'
      e1 v
notification_file-IsBounded fs ts n filepath target_names n' e v =
    let (text, _, e1) = >>=-some (file2str fs filepath) _ n' e in
    each_token_keeps (add_target ts) (Bounded ts) (add_target-IsBounded ts) (tokens [] text) n n' e1
      v
notification_file-IsBounded fs ts n filepath other_file n' e v = subst (Bounded ts) (some-inj e) v
