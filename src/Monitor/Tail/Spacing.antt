-- ===== src/Monitor/Tail/Spacing.antt =====
-- The notifications over a whole run of the monitor are as far apart as `debouncing` asks for.
use docker_baseimage.Base.{
  arith, ℕ, zero, suc, ◌-◌, ◌≤◌, ◌<◌, ◌≡◌, refl, inl, inr, Bool, true, false, List, [], ◌∷◌, Option,
  none, some, ltb, if◌then◌else◌, get_or, length, Bool-cases,
}
use docker_baseimage.Base.Int.{ℤ, pos, negsuc}
use docker_baseimage.Text.{Bytes}
use docker_baseimage.Values.{c_string}
use docker_baseimage.Monitor.{
  FileStat, MonitoredFile, MonitorOs, MonitorEvent, opened, closed, to_start, Watch, sender_of,
}
use docker_baseimage.Monitor.Notify.{target_at, file_at}
use docker_baseimage.Monitor.Notify.Kept.{times_of, IsDebounced}
use docker_baseimage.Monitor.Notify.Debouncing.{Inv-call}
use docker_baseimage.Monitor.Reading.Spacing.{Holds, Holds-files, handle_read-Kept}
use docker_baseimage.Monitor.Tail.{
  Turn, Look, tail_read, is_truncated, rewind_if, after_tail_read, read_to_end, needs_open,
  close_old, open_new, reopen, put_file, record_event, call, note_read, same_stat, read_noted,
  read_status, read_file_at, look_at, visit_file, pass, tail_files, status_file_read_interval,
}

module _ (os : MonitorOs) (d : ℤ) (t n : ℕ) (monotone : (k : ℕ) → os.clock k ≤ os.clock (suc k))
    (started : (k : ℕ) → 0 < os.clock k) where
  abbrev Kept : Watch → Type 0
  Kept w = Holds os d t n w

  Kept-call : (w : Watch) → Kept w → Kept (call w)
  Kept-call w v = record {
    of_sender = Inv-call os d t n monotone started (sender_of w) v.of_sender;
  }

  if-Kept : (b : Bool) (x y : Watch) → Kept x → Kept y → Kept (if b then x else y)
  if-Kept true x y v w = v
  if-Kept false x y v w = w

  -- Calls on a descriptor are not notifications.
  Kept-event :
      (e : MonitorEvent) (w : Watch)
      → times_of t n (e ∷ w.events) ≡ times_of t n w.events
      → Kept w
      → Kept (record_event e w)
  Kept-event e w same v = record {
    of_sender = record {
      is_target = v.of_sender.is_target;
      kept = rw same v.of_sender.kept;
      past = v.of_sender.past;
    };
  }

  rewind_if-Kept : (b : Bool) (fd : ℕ) (w : Watch) → Kept w → Kept (rewind_if b fd w)
  unfolding times_of
  rewind_if-Kept true fd w v = Kept-event (to_start fd) w refl v
  rewind_if-Kept false fd w v = v

  after_tail_read-Kept :
      (mfid : ℕ) (more : Watch → Watch) (r : Option Bytes) (w : Watch)
      → ((w' : Watch) → Kept w' → Kept (more w'))
      → Kept w
      → Kept (after_tail_read os mfid more r w)
  after_tail_read-Kept mfid more none w h v = v
  after_tail_read-Kept mfid more (some []) w h v = v
  after_tail_read-Kept mfid more (some (c ∷ s)) w h v =
      h _ (handle_read-Kept os d t n monotone started mfid (c_string (c ∷ s)) w v)

  read_to_end-Kept :
      (mfid fd : ℕ) (turns : List Turn) (w : Watch) → Kept w → Kept (read_to_end os mfid fd turns w)
  unfolding read_to_end
  read_to_end-Kept mfid fd [] w v = v
  read_to_end-Kept mfid fd (turn ∷ turns) w v =
      after_tail_read-Kept mfid (read_to_end os mfid fd turns) (tail_read os turn) _
        (read_to_end-Kept mfid fd turns)
        (rewind_if-Kept (is_truncated turn.size turn.current) fd w v)

  put_file-Kept : (mfid : ℕ) (mf : MonitoredFile) (w : Watch) → Kept w → Kept (put_file mfid mf w)
  put_file-Kept mfid mf w v = Holds-files os d t n w _ v

  note_read-Kept : (mfid : ℕ) (w : Watch) → Kept w → Kept (note_read os mfid w)
  unfolding note_read
  note_read-Kept mfid w v = Kept-call _ (put_file-Kept mfid _ w v)

  read_noted-Kept :
      (mfid fd : ℕ) (look : Look) (w : Watch) → Kept w → Kept (read_noted os mfid fd look w)
  read_noted-Kept mfid fd look w v = note_read-Kept mfid _ (read_to_end-Kept mfid fd look.turns w v)

  read_status-Kept :
      (mfid fd : ℕ) (look : Look) (s : Option FileStat) (w : Watch)
      → Kept w
      → Kept (read_status os mfid fd look s w)
  unfolding read_status times_of
  read_status-Kept mfid fd look none w v =
      read_noted-Kept mfid fd look _ (Kept-event (to_start fd) w refl v)
  read_status-Kept mfid fd look (some s) w v =
      elim (Bool-cases (same_stat s (file_at w mfid).last_stat)) [
        | inl e ↦ rw e (note_read-Kept mfid w v)
        | inr e ↦ rw e (
            read_noted-Kept mfid fd look _
              (Kept-event (to_start fd) _ refl (put_file-Kept mfid _ w v)))
      ]

  close_old-Kept : (fd : Option ℕ) (w : Watch) → Kept w → Kept (close_old fd w)
  unfolding times_of
  close_old-Kept none w v = v
  close_old-Kept (some fd) w v = Kept-event (closed fd) w refl v

  open_new-Kept : (path : Bytes) (fd : Option ℕ) (w : Watch) → Kept w → Kept (open_new path fd w)
  unfolding times_of
  open_new-Kept path none w v = v
  open_new-Kept path (some fd) w v = Kept-event (opened path fd) w refl v

  reopen-Kept : (mfid : ℕ) (look : Look) (w : Watch) → Kept w → Kept (reopen mfid look w)
  unfolding reopen
  reopen-Kept mfid look w v = elim (Bool-cases (needs_open (file_at w mfid).fd look)) [
    | inl e ↦ rw e (
        put_file-Kept mfid _ _ (
          open_new-Kept (file_at w mfid).path look.new_fd _
            (close_old-Kept (file_at w mfid).fd w v)))
    | inr e ↦ rw e v
  ]

  read_file_at-Kept :
      (mfid : ℕ) (look : Look) (fd : Option ℕ) (w : Watch)
      → Kept w
      → Kept (read_file_at os mfid look fd w)
  unfolding read_file_at
  read_file_at-Kept mfid look none w v = v
  read_file_at-Kept mfid look (some fd) w v = elim (Bool-cases (file_at w mfid).is_status) [
    | inl e ↦ rw e (read_status-Kept mfid fd look look.path_stat w v)
    | inr e ↦ rw e (read_noted-Kept mfid fd look w v)
  ]

  look_at-Kept : (mfid : ℕ) (look : Look) (w : Watch) → Kept w → Kept (look_at os mfid look w)
  look_at-Kept mfid look w v = read_file_at-Kept mfid look _ _ (reopen-Kept mfid look w v)

  visit_file-Kept : (mfid : ℕ) (look : Look) (w : Watch) → Kept w → Kept (visit_file os mfid look w)
  unfolding visit_file
  visit_file-Kept mfid look w v =
      let recent = ltb (os.clock w.calls - (file_at w mfid).last_read) status_file_read_interval in
      if-Kept (file_at w mfid).is_status (if recent then call w else look_at os mfid look (call w))
        (look_at os mfid look w)
        (if-Kept recent (call w) (look_at os mfid look (call w)) (Kept-call w v)
          (look_at-Kept mfid look (call w) (Kept-call w v)))
        (look_at-Kept mfid look w v)

  pass-Kept : (mfid : ℕ) (looks : List Look) (w : Watch) → Kept w → Kept (pass os mfid looks w)
  unfolding pass
  pass-Kept mfid [] w v = v
  pass-Kept mfid (look ∷ looks) w v = elim (Bool-cases (ltb mfid (length w.ctx.monitored_files))) [
    | inl e ↦ rw e (pass-Kept (suc mfid) looks _ (visit_file-Kept mfid look w v))
    | inr e ↦ rw e v
  ]

  tail_files-Kept : (passes : List (List Look)) (w : Watch) → Kept w → Kept (tail_files os passes w)
  unfolding tail_files
  tail_files-Kept [] w v = v
  tail_files-Kept (looks ∷ passes) w v = tail_files-Kept passes _ (pass-Kept 0 looks w v)

IsDebounced-none : (d : ℤ) → IsDebounced d []
IsDebounced-none (negsuc k) = tt
IsDebounced-none (pos zero) = omega arith
IsDebounced-none (pos (suc k)) = tt

-- However long the monitor runs and whatever it reads, from a state in which it has sent nothing on
-- and with a clock that never goes back and is not at its very start: the times noted for one
-- notification sent to one target are at least `debouncing` seconds apart, and with a `debouncing`
-- of 0 it is sent once at most. (A negative one, that is, none, asks for nothing.)
pub tail_files-IsDebounced :
    (os : MonitorOs) (passes : List (List Look)) (w : Watch) (t n : ℕ)
    → ((k : ℕ) → os.clock k ≤ os.clock (suc k))
    → ((k : ℕ) → 0 < os.clock k)
    → t < length w.ctx.targets
    → n < length (target_at (sender_of w) t).last_notif_sent
    → get_or (target_at (sender_of w) t).last_notif_sent n 0 ≡ 0
    → times_of t n w.events ≡ []
    → IsDebounced
        (target_at (sender_of w) t).debouncing
        (times_of t n (tail_files os passes w).events)
tail_files-IsDebounced os passes w t n monotone started h k z e =
    let d : ℤ = (target_at (sender_of w) t).debouncing in
    let start : Holds os d t n w = record {
      of_sender = record {
        is_target = h;
        kept =
            rw e
              (record { setting = refl; is_notif = k; latest = tt; spaced = IsDebounced-none d });
        past = rw z (omega arith);
      };
    } in
    (tail_files-Kept os d t n monotone started passes w start).of_sender.kept.spaced
