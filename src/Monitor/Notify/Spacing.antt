-- ===== src/Monitor/Notify/Spacing.antt =====
-- The notifications of whole lines and reads: `debouncing` holds over any of them.
use docker_baseimage.Base.{
  ℕ, suc, ◌≤◌, ◌<◌, refl, inl, inr, Bool, true, false, not, ◌&&◌, List, [], ◌∷◌, Option, none, some,
  ◌==◌, get_or, Bool-cases,
}
use docker_baseimage.Base.Int.{ℤ}
use docker_baseimage.Text.{Bytes}
use docker_baseimage.Monitor.{
  Notification, MonitorOs, ChildRun, with_run, Sender, invoke_exec, string_of, Watch, sender_of,
}
use docker_baseimage.Monitor.Notify.{
  invoke_filter, text_for, level_for, target_at, debounce, notify_targets, notify, if_match, offer,
  offer_all, is_for, or_execerror, buffer_size, handle_line,
}
use docker_baseimage.Monitor.Notify.Kept.{times_of}
use docker_baseimage.Monitor.Notify.Debouncing.{Inv, debounce-Inv, Inv-call}

module _ (os : MonitorOs) (d : ℤ) (t n : ℕ) (monotone : (k : ℕ) → os.clock k ≤ os.clock (suc k))
    (started : (k : ℕ) → 0 < os.clock k) where
  abbrev Kept : Sender → Type 0
  Kept = Inv os d t n

  Kept-executed :
      (exe line : Bytes) (child : Option ChildRun) (s : Sender)
      → Kept s
      → Kept (record s { calls = suc s.calls; events = with_run exe line child s.events })
  unfolding times_of
  Kept-executed exe line none s v = Inv-call os d t n monotone started s v
  Kept-executed exe line (some child) s v =
      let w = Inv-call os d t n monotone started s v in
      record { is_target = w.is_target; kept = w.kept; past = w.past }

  invoke_exec-Kept :
      (exe line : Bytes) (size : ℕ) (s : Sender) → Kept s → Kept (invoke_exec os exe line size s).1
  unfolding invoke_exec
  invoke_exec-Kept exe line size s v =
      elim (Bool-cases (not (size == 0) && not (os.pipe s.calls))) [
        | inl e ↦ rw e (Inv-call os d t n monotone started s v)
        | inr e ↦ rw e (Kept-executed exe line (os.run s.calls exe line) s v)
      ]

  text_for-Kept :
      (line : Bytes) (text : Option Bytes) (is_exe : Bool) (s : Sender)
      → Kept s
      → Kept (text_for os line text is_exe s).1
  unfolding text_for
  text_for-Kept line text false s v = v
  text_for-Kept line text true s v = elim (Bool-cases (os.memory buffer_size)) [
    | inl e ↦ rw e (invoke_exec-Kept (string_of text) line buffer_size s v)
    | inr e ↦ rw e v
  ]

  level_for-Kept :
      (line : Bytes) (level : Option Bytes) (is_exe : Bool) (s : Sender)
      → Kept s
      → Kept (level_for os line level is_exe s).1
  unfolding level_for
  level_for-Kept line level is_exe s v = text_for-Kept line level is_exe s v

  notify_targets-Kept :
      (nidx : ℕ) (a b c : Bytes) (ts : List ℕ) (s : Sender)
      → Kept s
      → Kept (notify_targets os nidx a b c ts s)
  unfolding notify_targets
  notify_targets-Kept nidx a b c [] s v = v
  notify_targets-Kept nidx a b c (tidx ∷ ts) s v =
      notify_targets-Kept nidx a b c ts
        (debounce os nidx a b c tidx (target_at s tidx).debouncing
          (get_or (target_at s tidx).last_notif_sent nidx 0) s)
        (debounce-Inv os d t n monotone started nidx a b c tidx (target_at s tidx).debouncing
          (get_or (target_at s tidx).last_notif_sent nidx 0) s refl refl v)

  notify-Kept :
      (line : Bytes) (nidx : ℕ) (notif : Notification) (s : Sender)
      → Kept s
      → Kept (notify os line nidx notif s)
  unfolding notify
  notify-Kept line nidx notif s v =
      let title = text_for os line notif.title notif.is_title_exe s in
      let desc = text_for os line notif.desc notif.is_desc_exe title.1 in
      let level = level_for os line notif.level notif.is_level_exe desc.1 in
      notify_targets-Kept nidx (or_execerror title.0) (or_execerror desc.0) (or_execerror level.0)
        notif.targets level.1
        (level_for-Kept line notif.level notif.is_level_exe desc.1 (
          text_for-Kept line notif.desc notif.is_desc_exe title.1
            (text_for-Kept line notif.title notif.is_title_exe s v)))

  if_match-Kept :
      (f : Sender → Sender) (r : Bool × Sender)
      → ((s : Sender) → Kept s → Kept (f s))
      → Kept r.1
      → Kept (if_match f r)
  if_match-Kept f (true, s) h v = h s v
  if_match-Kept f (false, s) h v = v

  offer-Kept :
      (path line : Bytes) (nidx : ℕ) (notif : Notification) (s : Sender)
      → Kept s
      → Kept (offer os path line nidx notif s)
  unfolding offer invoke_filter
  offer-Kept path line nidx notif s v = elim (Bool-cases (is_for path notif.monitored_files)) [
    | inl e ↦ rw e (
        if_match-Kept (notify os line nidx notif) (invoke_filter os (string_of notif.filter) line s)
          (notify-Kept line nidx notif) (invoke_exec-Kept (string_of notif.filter) line 0 s v))
    | inr e ↦ rw e v
  ]

  offer_all-Kept :
      (path line : Bytes) (nidx : ℕ) (ns : List Notification) (s : Sender)
      → Kept s
      → Kept (offer_all os path line nidx ns s)
  unfolding offer_all
  offer_all-Kept path line nidx [] s v = v
  offer_all-Kept path line nidx (notif ∷ ns) s v =
      offer_all-Kept path line (suc nidx) ns (offer os path line nidx notif s)
        (offer-Kept path line nidx notif s v)

  pub handle_line-Kept :
      (mfid : ℕ) (line : Bytes) (w : Watch)
      → Kept (sender_of w)
      → Kept (sender_of (handle_line os mfid line w))
  unfolding handle_line
  handle_line-Kept mfid line w v = offer_all-Kept _ line 0 w.ctx.notifications (sender_of w) v
