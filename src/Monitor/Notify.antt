-- ===== src/Monitor/Notify.antt =====
-- `handle_line`: the filter, the three texts of a notification, and the targets that it goes to.
pub mod Kept
pub mod Debouncing
pub mod Spacing
use docker_baseimage.Base.{
  ℕ, zero, suc, ◌+◌, ◌-◌, Bool, true, false, not, ◌&&◌, ◌||◌, List, [], ◌∷◌, ◌++◌, Option, none,
  some, ltb, leb, ◌==◌, if◌then◌else◌, length, get_or, set, replicate,
}
use docker_baseimage.Base.Int.{ℤ, pos, negsuc}
use docker_baseimage.Text.{Bytes, codes, bytes_eq, terminate_at_first_eol}
use docker_baseimage.Monitor.{
  Target, Notification, MonitoredFile, MonitorOs, MonitorEvent, notified, Watch, Sender, sender_of,
  with_sender, string_of, invoke_exec, FileStat,
}

-- BUFFER_SIZE
abbrev pub buffer_size : ℕ
buffer_size = 512

abbrev ended_well : Option ℕ → Bool
ended_well none = false
ended_well (some code) = code == 0

unfoldable pub invoke_filter : MonitorOs → Bytes → Bytes → Sender → Bool × Sender
unfolding invoke_exec
invoke_filter os exe line s = let (r, s') = invoke_exec os exe line 0 s in (ended_well r.0, s')

-- The loop that decides `skip`.
unfoldable pub is_for : Bytes → List (Bytes × Bool) → Bool
is_for path [] = false
is_for path ((p, is_status) ∷ fs) = bytes_eq p path || is_for path fs

-- The first line that the program printed, where it ended well.
abbrev pub first_line : Option ℕ × Bytes → Option Bytes
first_line (code, out) = if ended_well code then some (terminate_at_first_eol out) else none

-- The title or the description: what its program prints of the line, or a text.
unfoldable pub text_for : MonitorOs → Bytes → Option Bytes → Bool → Sender → Option Bytes × Sender
unfolding invoke_exec terminate_at_first_eol
text_for os line text false s = (text, s)
text_for os line text true s =
    if os.memory buffer_size
    then (let (r, s') = invoke_exec os (string_of text) line buffer_size s in (first_line r, s'))
    else (none, s)

abbrev pub is_level : Bytes → Bool
is_level l = bytes_eq l (codes "ERROR") || bytes_eq l (codes "WARNING") || bytes_eq l (codes "INFO")

abbrev pub if_level : Option Bytes → Option Bytes
if_level none = none
if_level (some l) = if is_level l then some l else none

-- Only a level that a program printed is checked here.
unfoldable pub level_for : MonitorOs → Bytes → Option Bytes → Bool → Sender → Option Bytes × Sender
unfolding text_for
level_for os line level is_exe s =
    let (l, s') = text_for os line level is_exe s in (if is_exe then if_level l else l, s')

-- text ? text : "EXECERROR"
abbrev pub or_execerror : Option Bytes → Bytes
or_execerror none = codes "EXECERROR"
or_execerror (some t) = t

-- An entry beyond the array.
abbrev pub no_target : Target
no_target = record { name = []; send = none; debouncing = negsuc 0; last_notif_sent = [] }

abbrev pub target_at : Sender → ℕ → Target
target_at s tidx = get_or s.targets tidx no_target

-- The end of the loop's body: the notification, and the time noted for it.
unfoldable pub send_to : MonitorOs → ℕ → Bytes → Bytes → Bytes → ℕ → Sender → Sender
send_to os nidx title desc level tidx s =
    let target = target_at s tidx in
    let now = os.clock (suc s.calls) in
    record {
      targets =
          set s.targets tidx
            (record target { last_notif_sent = set target.last_notif_sent nidx now });
      calls = suc (suc s.calls);
      events =
          if os.fork s.calls then notified tidx nidx now title desc level ∷ s.events else s.events;
    }

-- The test before it, on the target's `debouncing` and the time noted for the notification.
unfoldable pub debounce : MonitorOs → ℕ → Bytes → Bytes → Bytes → ℕ → ℤ → ℕ → Sender → Sender
unfolding send_to
debounce os nidx title desc level tidx (negsuc n) last s = send_to os nidx title desc level tidx s
debounce os nidx title desc level tidx (pos n) last s =
    let s' = record s { calls = suc s.calls } in
    if last == 0
    then send_to os nidx title desc level tidx s
    else if n == 0
    then s
    else if ltb (os.clock s.calls - last) n
    then s'
    else send_to os nidx title desc level tidx s'

-- FOR_EACH_TARGET(notif, target, tidx)
unfoldable pub notify_targets : MonitorOs → ℕ → Bytes → Bytes → Bytes → List ℕ → Sender → Sender
unfolding debounce
notify_targets os nidx title desc level [] s = s
notify_targets os nidx title desc level (tidx ∷ ts) s =
    let target = target_at s tidx in
    notify_targets os nidx title desc level ts (
      debounce os nidx title desc level tidx target.debouncing
        (get_or target.last_notif_sent nidx 0) s)

-- A notification whose filter matched.
unfoldable pub notify : MonitorOs → Bytes → ℕ → Notification → Sender → Sender
unfolding text_for level_for notify_targets
notify os line nidx notif s =
    let (title, s1) = text_for os line notif.title notif.is_title_exe s in
    let (desc, s2) = text_for os line notif.desc notif.is_desc_exe s1 in
    let (level, s3) = level_for os line notif.level notif.is_level_exe s2 in
    notify_targets os nidx (or_execerror title) (or_execerror desc) (or_execerror level)
      notif.targets s3

abbrev pub if_match : (Sender → Sender) → Bool × Sender → Sender
if_match f (true, s) = f s
if_match f (false, s) = s

-- The loop's body.
unfoldable pub offer : MonitorOs → Bytes → Bytes → ℕ → Notification → Sender → Sender
unfolding invoke_filter is_for notify
offer os path line nidx notif s =
    if is_for path notif.monitored_files
    then if_match (notify os line nidx notif) (invoke_filter os (string_of notif.filter) line s)
    else s

-- FOR_EACH_NOTIFICATION(ctx, notif, nidx)
unfoldable pub offer_all : MonitorOs → Bytes → Bytes → ℕ → List Notification → Sender → Sender
unfolding offer
offer_all os path line nidx [] s = s
offer_all os path line nidx (n ∷ ns) s =
    offer_all os path line (suc nidx) ns (offer os path line nidx n s)

abbrev pub no_stat : FileStat
no_stat = record { st_size = 0; st_mtime = 0; st_dev = 0; st_ino = 0 }

-- An entry beyond the array.
abbrev pub no_file : MonitoredFile
no_file = record {
  path = [];
  fd = none;
  is_status = false;
  last_read = 0;
  last_stat = no_stat;
  pending_buf = none;
}

abbrev pub file_at : Watch → ℕ → MonitoredFile
file_at w mfid = get_or w.ctx.monitored_files mfid no_file

unfoldable pub handle_line : MonitorOs → ℕ → Bytes → Watch → Watch
unfolding offer_all
handle_line os mfid line w =
    with_sender w (offer_all os (file_at w mfid).path line 0 w.ctx.notifications (sender_of w))
