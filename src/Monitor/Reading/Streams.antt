-- ===== src/Monitor/Reading/Streams.antt =====
-- What `handle_read` makes of one piece of a stream.
use docker_baseimage.Base.{
  ℕ, zero, suc, ◌+◌, ◌≤◌, ◌<◌, ◌≡◌, refl, sym, ap, ◌∙◌, true, false, List, [], ◌∷◌, ◌++◌, Option,
  none, some, arith, ltb, length, length-append, set, get_or,
}
use docker_baseimage.Text.{Bytes}
use docker_baseimage.Monitor.{MonitoredFile, MonitorOs, Watch, string_of}
use docker_baseimage.Monitor.Notify.{file_at, no_file, handle_line}
use docker_baseimage.Monitor.Reading.{
  max_line, put_pending, cut_at_newline, less_cr, work_buffer, handle_nonempty, handle_work,
  handle_cut, handle_read,
}
use docker_baseimage.Monitor.Reading.Cutting.{
  whole, unfinished, leftover, handle_all, IsCut, cut_at_newline-IsCut,
}

put_twice :
    (fs : List MonitoredFile) (i : ℕ) (p q : Option Bytes)
    → let fs' = set fs i (record (get_or fs i no_file) { pending_buf = p }) in
      set fs' i (record (get_or fs' i no_file) { pending_buf = q })
      ≡ set fs i (record (get_or fs i no_file) { pending_buf = q })
put_twice [] i p q = refl
put_twice (f ∷ fs) zero p q = refl
put_twice (f ∷ fs) (suc i) p q = ap (◌∷◌ f) (put_twice fs i p q)

path_put :
    (fs : List MonitoredFile) (i : ℕ) (p : Option Bytes)
    → (get_or (set fs i (record (get_or fs i no_file) { pending_buf = p })) i no_file).path
      ≡ (get_or fs i no_file).path
path_put [] i p = refl
path_put (f ∷ fs) zero p = refl
path_put (f ∷ fs) (suc i) p = path_put fs i p

module _ (os : MonitorOs) (mfid : ℕ) where
  pub put_pending_twice :
      (w : Watch) (p q : Option Bytes)
      → put_pending mfid q (put_pending mfid p w) ≡ put_pending mfid q w
  put_pending_twice w p q =
      ap (λ fs. record w { ctx = record w.ctx { monitored_files = fs } })
        (put_twice w.ctx.monitored_files mfid p q)

  -- A line's notifications do not touch the buffers.
  handle_nonempty-put_pending :
      (line : Bytes) (w : Watch) (p : Option Bytes)
      → handle_nonempty os mfid line (put_pending mfid p w)
        ≡ put_pending mfid p (handle_nonempty os mfid line w)
  unfolding handle_line
  handle_nonempty-put_pending [] w p = refl
  handle_nonempty-put_pending (c ∷ line) w p = rw (path_put w.ctx.monitored_files mfid p) refl

  pub handle_all-put_pending :
      (ls : List Bytes) (w : Watch) (p : Option Bytes)
      → handle_all os mfid ls (put_pending mfid p w) ≡ put_pending mfid p (handle_all os mfid ls w)
  unfolding handle_all
  handle_all-put_pending [] w p = refl
  handle_all-put_pending (l ∷ ls) w p =
      ap (handle_all os mfid ls) (handle_nonempty-put_pending (less_cr l) w p)
      ∙ handle_all-put_pending ls _ p

  pub handle_all-append :
      (ls ms : List Bytes) (w : Watch)
      → handle_all os mfid (ls ++ ms) w ≡ handle_all os mfid ms (handle_all os mfid ls w)
  unfolding handle_all
  handle_all-append [] ms w = refl
  handle_all-append (l ∷ ls) ms w = handle_all-append ls ms _

  module _ (memory : (size : ℕ) → os.memory size ≡ true) where
    work_buffer-copy : (c : ℕ) (s : Bytes) → work_buffer os none (c ∷ s) ≡ some (c ∷ s)
    unfolding work_buffer
    work_buffer-copy c s = rw (memory (length (c ∷ s) + 1))

    work_buffer-append :
        (p buf : Bytes)
        → length p + length buf + 1 ≤ max_line
        → work_buffer os (leftover p) buf ≡ some (p ++ buf)
    unfolding work_buffer
    work_buffer-append [] buf h = rw (memory (length buf + 1))
    work_buffer-append (c ∷ p) buf h =
        let fits : ltb max_line (length (c ∷ p) + length buf + 1) ≡ false = ground arith in
        rw (fits, memory (length (c ∷ p) + length buf + 1))

    -- The lines of the work buffer are handled in order, and what follows the last one is kept.
    abbrev Works : ℕ → Type 0
    Works f =
        (c : ℕ) (s : Bytes) (w : Watch)
        → length s < f
        → handle_work f os mfid (some (c ∷ s)) (put_pending mfid none w)
          ≡ handle_all os mfid (whole [] (c ∷ s))
              (put_pending mfid (leftover (unfinished [] (c ∷ s))) w)

    handle_cut-Works :
        (f : ℕ) (ih : Works f) (c : ℕ) (s : Bytes) (w : Watch)
        → length s < suc f
        → (o : Option (Bytes × Bytes)) → IsCut [] (c ∷ s) o
        → handle_cut os mfid (handle_work f os mfid) (c ∷ s) o (put_pending mfid none w)
          ≡ handle_all os mfid
              (whole [] (c ∷ s))
              (put_pending mfid (leftover (unfinished [] (c ∷ s))) w)
    unfolding handle_cut handle_all whole unfinished
    handle_cut-Works f ih c s w h none k = rw (k.0, k.1) (put_pending_twice w none (some (c ∷ s)))
    handle_cut-Works f ih c s w h (some (line, [])) k = rw (k.0, k.1) refl
    handle_cut-Works f ih c s w h (some (line, d ∷ rest)) k =
        let (same, begun, less) = k in
        rw (same, begun)
          (ap
              (λ p.
                handle_work f os mfid p
                  (handle_nonempty os mfid (less_cr line) (put_pending mfid none w)))
              (work_buffer-copy d rest)
            ∙ ap (handle_work f os mfid (some (d ∷ rest)))
                (handle_nonempty-put_pending (less_cr line) w none)
            ∙ ih d rest _ (omega (arith, less, h))
            ∙ ap (handle_all os mfid (whole [] (d ∷ rest)))
                (sym (handle_nonempty-put_pending (less_cr line) w _)))

    handle_work-Works : (f : ℕ) → Works f
    unfolding handle_work
    handle_work-Works zero c s w h = absurd (omega arith)
    handle_work-Works (suc f) c s w h =
        handle_cut-Works f (handle_work-Works f) c s w h (cut_at_newline (c ∷ s))
          (cut_at_newline-IsCut [] (c ∷ s))

    string_of-leftover : (p : Bytes) → string_of (leftover p) ≡ p
    string_of-leftover [] = refl
    string_of-leftover (c ∷ p) = refl

    pub handle_read-whole :
        (p : Bytes) (c : ℕ) (buf : Bytes) (w : Watch)
        → (file_at w mfid).pending_buf ≡ leftover p
        → length p + length (c ∷ buf) + 1 ≤ max_line
        → handle_read os mfid (c ∷ buf) w
          ≡ handle_all os mfid
              (whole [] (p ++ c ∷ buf))
              (put_pending mfid (leftover (unfinished [] (p ++ c ∷ buf))) w)
    unfolding handle_read
    handle_read-whole [] c buf w e h =
        rw (e, work_buffer-append [] (c ∷ buf) h)
          (handle_work-Works (suc (0 + length (c ∷ buf))) c buf w (omega arith))
    handle_read-whole (d ∷ p) c buf w e h =
        rw (e, work_buffer-append (d ∷ p) (c ∷ buf) h)
          (handle_work-Works (suc (length (d ∷ p) + length (c ∷ buf))) d (p ++ c ∷ buf) w
            (omega (arith, length-append p (c ∷ buf))))

  -- Nor do they touch any other member of the monitored files.
  handle_nonempty_files :
      (line : Bytes) (w : Watch)
      → (handle_nonempty os mfid line w).ctx.monitored_files ≡ w.ctx.monitored_files
  unfolding handle_line
  handle_nonempty_files [] w = refl
  handle_nonempty_files (c ∷ line) w = refl

  pub handle_all_files :
      (ls : List Bytes) (w : Watch)
      → (handle_all os mfid ls w).ctx.monitored_files ≡ w.ctx.monitored_files
  unfolding handle_all
  handle_all_files [] w = refl
  handle_all_files (l ∷ ls) w =
      handle_all_files ls (handle_nonempty os mfid (less_cr l) w)
      ∙ handle_nonempty_files (less_cr l) w
