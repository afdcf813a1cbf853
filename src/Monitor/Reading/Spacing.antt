-- ===== src/Monitor/Reading/Spacing.antt =====
-- A read keeps the notifications as far apart as `debouncing` asks for.
use docker_baseimage.Base.{ℕ, zero, suc, ◌≤◌, ◌<◌, [], ◌∷◌, List, ◌+◌, length, Option, none, some}
use docker_baseimage.Base.Int.{ℤ}
use docker_baseimage.Text.{Bytes}
use docker_baseimage.Monitor.{MonitoredFile, MonitorOs, Watch, string_of, sender_of}
use docker_baseimage.Monitor.Notify.{file_at}
use docker_baseimage.Monitor.Notify.Debouncing.{Inv}
use docker_baseimage.Monitor.Notify.Spacing.{handle_line-Kept}
use docker_baseimage.Monitor.Reading.{
  put_pending, handle_nonempty, handle_cut, handle_work, handle_read, work_buffer, cut_at_newline,
}

-- What is kept of the notification `n` to the target `t`, in the monitor's state.
pub record Holds (os : MonitorOs) (d : ℤ) (t n : ℕ) (w : Watch) : Type 0 where
  pub of_sender : Inv os d t n (sender_of w)

-- Only the targets, the calls and the events matter.
pub Holds-files :
    (os : MonitorOs) (d : ℤ) (t n : ℕ) (w : Watch) (fs : List MonitoredFile)
    → Holds os d t n w
    → Holds os d t n (record w { ctx = record w.ctx { monitored_files = fs } })
Holds-files os d t n w fs v = record {
  of_sender = record {
    is_target = v.of_sender.is_target;
    kept = v.of_sender.kept;
    past = v.of_sender.past;
  };
}

module _ (os : MonitorOs) (d : ℤ) (t n : ℕ) (monotone : (k : ℕ) → os.clock k ≤ os.clock (suc k))
    (started : (k : ℕ) → 0 < os.clock k) where
  abbrev Kept : Watch → Type 0
  Kept w = Holds os d t n w

  handle_nonempty-Kept :
      (mfid : ℕ) (line : Bytes) (w : Watch) → Kept w → Kept (handle_nonempty os mfid line w)
  handle_nonempty-Kept mfid [] w v = v
  handle_nonempty-Kept mfid (c ∷ line) w v = record {
    of_sender = handle_line-Kept os d t n monotone started mfid (c ∷ line) w v.of_sender;
  }

  handle_cut-Kept :
      (mfid : ℕ) (next : Option Bytes → Watch → Watch) (work : Bytes) (o : Option (Bytes × Bytes))
      (w : Watch)
      → ((p : Option Bytes) (w' : Watch) → Kept w' → Kept (next p w'))
      → Kept w
      → Kept (handle_cut os mfid next work o w)
  unfolding handle_cut
  handle_cut-Kept mfid next work none w h v = Holds-files os d t n w _ v
  handle_cut-Kept mfid next work (some (line, [])) w h v = handle_nonempty-Kept mfid _ w v
  handle_cut-Kept mfid next work (some (line, c ∷ rest)) w h v =
      h _ _ (handle_nonempty-Kept mfid _ w v)

  handle_work-Kept :
      (f mfid : ℕ) (p : Option Bytes) (w : Watch) → Kept w → Kept (handle_work f os mfid p w)
  unfolding handle_work
  handle_work-Kept f mfid none w v = v
  handle_work-Kept zero mfid (some work) w v = v
  handle_work-Kept (suc f) mfid (some work) w v =
      handle_cut-Kept mfid (handle_work f os mfid) work (cut_at_newline work) w
        (handle_work-Kept f mfid) v

  pub handle_read-Kept :
      (mfid : ℕ) (buf : Bytes) (w : Watch) → Kept w → Kept (handle_read os mfid buf w)
  unfolding handle_read
  handle_read-Kept mfid buf w v =
      handle_work-Kept (suc (length (string_of (file_at w mfid).pending_buf) + length buf)) mfid
        (work_buffer os (file_at w mfid).pending_buf buf) (put_pending mfid none w)
        (Holds-files os d t n w _ v)
