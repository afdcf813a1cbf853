-- ===== src/Monitor/Config.antt =====
-- The configuration of src/logmonitor/logmonitor.c: targets and notifications, each read from its
-- directory. `none` is a failure (the message that is printed has no other effect).
pub mod Steps
pub mod Targets
pub mod Notifications
pub mod Contexts
use docker_baseimage.Base.{
  ℕ, zero, suc, ◌+◌, ◌-◌, Bool, true, false, not, ◌&&◌, ◌||◌, List, [], ◌∷◌, ◌++◌, Option, none,
  some, ltb, leb, ◌==◌, if◌then◌else◌, length, take, drop, replicate,
}
use docker_baseimage.Base.Int.{ℤ, pos, negsuc}
use docker_baseimage.Text.{Bytes, codes, bytes_eq, terminate_at_first_eol}
use docker_baseimage.Convert.{Scanned, scan_number, strtol_value, int_half}
use docker_baseimage.Values.{c_string}
use docker_baseimage.Monitor.{
  Target, Notification, ReadAnswer, delivered, read_eintr, read_eagain, read_failed,
  max_num_monitored_files_per_notification, max_num_notifications, max_num_targets,
}
use docker_baseimage.Monitor.Notify.{is_level}

-- d_type: DT_REG, DT_DIR, or another one.
pub data EntryKind : Type 0 where
  regular directory other_kind : EntryKind

-- What the configuration is read from: whether memory of a size can be had, what readdir() lists of
-- a directory that opens, access(…, X_OK), the size that stat() gives, what reads of a file that
-- opens answer, and what fresh memory holds.
pub record ConfigFs : Type 0 where
  pub memory : ℕ → Bool
  pub opendir : Bytes → Option (List (Bytes × EntryKind))
  pub executable : Bytes → Bool
  pub file_size : Bytes → Option ℕ
  pub open_file : Bytes → Option (List ReadAnswer)
  pub junk : Bytes

module _ {ℓ κ} {A : Type ℓ} {B : Type κ} where
  infixl 5 ◌>>=◌
  abbrev pub ◌>>=◌ : Option A → (A → Option B) → Option B
  none >>= f = none
  some a >>= f = f a

infixl 5 ◌>>◌
abbrev pub ◌>>◌ {κ} : {B : Type κ} → Option (Unit {0}) → Option B → Option B
none >> m = none
some u >> m = m

abbrev pub guard : Bool → Option (Unit {0})
guard true = some tt
guard false = none

-- malloc, calloc or strdup of so many bytes.
abbrev pub allocate : ConfigFs → ℕ → Option (Unit {0})
allocate fs size = guard (fs.memory size)

unfoldable pub str_ends_with : Bytes → ℕ → Bool
str_ends_with [] c = false
str_ends_with (x ∷ []) c = x == c
str_ends_with (x ∷ y ∷ s) c = str_ends_with (y ∷ s) c

abbrev pub str_starts_with : Bytes → ℕ → Bool
str_starts_with [] c = false
str_starts_with (x ∷ s) c = x == c

unfoldable pub join_path : ConfigFs → Bytes → Bytes → Option Bytes
unfolding str_ends_with
join_path fs dir file = do
  allocate fs (length dir + length file + 2)
  some (
      if not (str_ends_with dir b'/') && not (str_starts_with file b'/')
      then dir ++ b'/' ∷ file
      else dir ++ file)

-- `safe_read` of at most `count` bytes, with `none` for -1.
unfoldable pub safe_read : ℕ → List ReadAnswer → Option Bytes
safe_read count [] = some []
safe_read count (read_eintr ∷ as') = safe_read count as'
safe_read count (read_eagain ∷ as') = some []
safe_read count (read_failed ∷ as') = none
safe_read count (delivered b ∷ as') = some (take count b)

-- MAX_READ_FILE_SIZE
abbrev pub max_read_file_size : ℕ
max_read_file_size = 102400

-- One read into a buffer of the file's size: what a short read leaves there stays.
unfoldable pub file2str : ConfigFs → Bytes → Option Bytes
unfolding safe_read
file2str fs path = do
  size ← fs.file_size path
  guard (not (ltb max_read_file_size size))
  allocate fs (size + 1)
  answers ← fs.open_file path
  got ← safe_read size answers
  some (c_string (take size (got ++ drop (length got) fs.junk)))

abbrev pub is_regular : EntryKind → Bool
is_regular regular = true
is_regular directory = false
is_regular other_kind = false

-- The loop over a directory's regular files.
unfoldable pub each_file {ℓ} :
    {A : Type ℓ} → (A → Bytes → Option A) → List (Bytes × EntryKind) → A → Option A
each_file step [] a = some a
each_file step ((name, kind) ∷ es) a =
    if is_regular kind then (step a name >>= each_file step es) else each_file step es a

-- Not NULL, and not empty.
abbrev pub is_set : Option Bytes → Bool
is_set none = false
is_set (some s) = ltb 0 (length s)

-- strtok(…, "\n"): the tokens, none of which is empty; `tok` is the one begun.
unfoldable pub tokens : Bytes → Bytes → List Bytes
tokens tok [] = if ltb 0 (length tok) then tok ∷ [] else []
tokens tok (c ∷ s) =
    if c == b'\n'
    then (if ltb 0 (length tok) then tok ∷ tokens [] s else tokens [] s)
    else tokens (tok ++ c ∷ []) s

-- The loop over the tokens.
unfoldable pub each_token {ℓ} : {A : Type ℓ} → (A → Bytes → Option A) → List Bytes → A → Option A
each_token step [] a = some a
each_token step (t ∷ ts) a = step a t >>= each_token step ts
