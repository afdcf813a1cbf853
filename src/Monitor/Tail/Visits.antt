-- ===== src/Monitor/Tail/Visits.antt =====
-- What one look at a file does: a log's new bytes, a status file that changed, and one that did not.
use docker_baseimage.Base.{
  ℕ, ◌-◌, ◌<◌, ◌≡◌, refl, ap, ◌∙◌, inl, inr, Bool, true, false, List, [], ◌∷◌, ◌++◌, Option, none,
  some, arith, ltb, if◌then◌else◌, length, length-set, get_or-set_self, All, Bool-cases,
}
use docker_baseimage.Text.{Bytes}
use docker_baseimage.Values.{c_string}
use docker_baseimage.Monitor.{FileStat, MonitoredFile, MonitorOs, to_start, Watch}
use docker_baseimage.Monitor.Notify.{file_at, no_file}
use docker_baseimage.Monitor.Reading.{put_pending, handle_reads}
use docker_baseimage.Monitor.Reading.Cutting.{whole, unfinished, leftover, handle_all, HasNoNewline}
use docker_baseimage.Monitor.Reading.Pieces.{joined, AllFit, handle_reads-whole}
use docker_baseimage.Monitor.Tail.{
  Turn, Look, tail_read, is_truncated, after_tail_read, read_to_end, needs_open, reopen, put_file,
  record_event, call, note_read, same_stat, read_noted, read_status, read_file_at, look_at,
  visit_file, status_file_read_interval,
}

abbrev and_then : Option Bytes → List Bytes → List Bytes
and_then none bs = []
and_then (some []) bs = []
and_then (some (c ∷ s)) bs = c_string (c ∷ s) ∷ bs

-- What the turns get, up to the one that gets nothing.
unfoldable pub pieces : MonitorOs → List Turn → List Bytes
unfolding tail_read
pieces os [] = []
pieces os (turn ∷ turns) = and_then (tail_read os turn) (pieces os turns)

-- The file did not become shorter.
abbrev pub HasGrown : Turn → Type 0
HasGrown turn = is_truncated turn.size turn.current ≡ false

if-true {ℓ} : {A : Type ℓ} (b : Bool) (x y : A) → b ≡ true → (if b then x else y) ≡ x
if-true true x y e = refl
if-true false x y e = cc

if-false {ℓ} : {A : Type ℓ} (b : Bool) (x y : A) → b ≡ false → (if b then x else y) ≡ y
if-false true x y e = cc
if-false false x y e = refl

module _ (os : MonitorOs) (mfid : ℕ) where
  after_tail_read-reads :
      (r : Option Bytes) (more : Watch → Watch) (bs : List Bytes) (w : Watch)
      → ((w' : Watch) → more w' ≡ handle_reads os mfid bs w')
      → after_tail_read os mfid more r w ≡ handle_reads os mfid (and_then r bs) w
  unfolding handle_reads
  after_tail_read-reads none more bs w h = refl
  after_tail_read-reads (some []) more bs w h = refl
  after_tail_read-reads (some (c ∷ s)) more bs w h = h _

  read_to_end-reads :
      (fd : ℕ) (turns : List Turn) (w : Watch)
      → All HasGrown turns
      → read_to_end os mfid fd turns w ≡ handle_reads os mfid (pieces os turns) w
  unfolding read_to_end handle_reads pieces
  read_to_end-reads fd [] w h = refl
  read_to_end-reads fd (turn ∷ turns) w h = rw h.0 (
      after_tail_read-reads (tail_read os turn) (read_to_end os mfid fd turns) (pieces os turns) w
        (λ w'. read_to_end-reads fd turns w' h.1))

  reopen_same :
      (look : Look) (w : Watch)
      → needs_open (file_at w mfid).fd look ≡ false
      → reopen mfid look w ≡ w
  unfolding reopen
  reopen_same look w h = rw h refl

  -- All that is needed to follow a look at an open file in full.
  pub record IsFollowed (fd : ℕ) (look : Look) (p : Bytes) (w : Watch) : Type 0 where
    pub is_file : mfid < length w.ctx.monitored_files
    pub has_fd : (file_at w mfid).fd ≡ some fd
    pub same_file : needs_open (some fd) look ≡ false
    pub begun : (file_at w mfid).pending_buf ≡ leftover p
    pub unbroken : HasNoNewline p
    pub grown : All HasGrown look.turns
    pub fits : AllFit p (pieces os look.turns)
    pub memory : (size : ℕ) → os.memory size ≡ true

  -- The lines of the bytes, after those of a line begun.
  abbrev pub all_lines : Bytes → Look → List Bytes
  all_lines p look = whole [] (p ++ joined (pieces os look.turns))

  abbrev pub next_begun : Bytes → Look → Option Bytes
  next_begun p look = leftover (unfinished [] (p ++ joined (pieces os look.turns)))

  read_to_end-whole :
      (fd : ℕ) (look : Look) (p : Bytes) (w : Watch)
      → IsFollowed fd look p w
      → read_to_end os mfid fd look.turns w
        ≡ handle_all os mfid (all_lines p look) (put_pending mfid (next_begun p look) w)
  read_to_end-whole fd look p w h =
      read_to_end-reads fd look.turns w h.grown
      ∙ handle_reads-whole os mfid h.memory (pieces os look.turns) p w h.unbroken h.is_file h.begun
          h.fits

  look_at_open :
      (fd : ℕ) (look : Look) (w : Watch)
      → (file_at w mfid).fd ≡ some fd
      → needs_open (some fd) look ≡ false
      → look_at os mfid look w ≡ read_file_at os mfid look (some fd) w
  look_at_open fd look w e h =
      let same = reopen_same look w (ap (λ f. needs_open f look) e ∙ h) in
      ap (λ v. read_file_at os mfid look (file_at v mfid).fd v) same
      ∙ ap (λ f. read_file_at os mfid look f w) e

  -- A log that is open and not replaced, in a look at which it does not become shorter and memory can be
  -- had, where the line begun before is kept and holds no newline. Of each read only the bytes up to its first NUL count: they
  -- are at least one, and with the line begun before them and a NUL they have room in 500 KB. Then the look
  -- handles each line that these bytes complete, in order and once, keeps what follows their last newline,
  -- and notes the time.
  pub visit_file-log :
      (fd : ℕ) (look : Look) (p : Bytes) (w : Watch)
      → IsFollowed fd look p w
      → (file_at w mfid).is_status ≡ false
      → visit_file os mfid look w
        ≡ note_read os mfid
            (handle_all os mfid (all_lines p look) (put_pending mfid (next_begun p look) w))
  unfolding visit_file read_file_at
  visit_file-log fd look p w h k =
      if-false (file_at w mfid).is_status _ (look_at os mfid look w) k
      ∙ look_at_open fd look w h.has_fd h.same_file
      ∙ if-false (file_at w mfid).is_status _ (read_noted os mfid fd look w) k
      ∙ ap (note_read os mfid) (read_to_end-whole fd look p w h)

  -- The state in which a changed status file is read.
  abbrev pub at_start : ℕ → FileStat → Watch → Watch
  at_start fd s w =
      record_event (to_start fd)
        (put_file mfid (record (file_at w mfid) { last_stat = s }) (call w))

  visit_file_recent :
      (look : Look) (w : Watch)
      → (file_at w mfid).is_status ≡ true
      → ltb (os.clock w.calls - (file_at w mfid).last_read) status_file_read_interval ≡ true
      → visit_file os mfid look w ≡ call w
  unfolding visit_file
  visit_file_recent look w k r =
      if-true (file_at w mfid).is_status _ (look_at os mfid look w) k
      ∙ if-true (ltb (os.clock w.calls - (file_at w mfid).last_read) status_file_read_interval)
          (call w) (look_at os mfid look (call w)) r

  visit_file_status :
      (fd : ℕ) (look : Look) (s : FileStat) (w : Watch)
      → (file_at w mfid).is_status ≡ true
      → (file_at w mfid).fd ≡ some fd
      → needs_open (some fd) look ≡ false
      → look.path_stat ≡ some s
      → ltb (os.clock w.calls - (file_at w mfid).last_read) status_file_read_interval ≡ false
      → visit_file os mfid look w ≡ (
          if same_stat s (file_at w mfid).last_stat
          then note_read os mfid (call w)
          else read_noted os mfid fd look (at_start fd s w))
  unfolding visit_file read_file_at read_status
  visit_file_status fd look s w k e h t i =
      if-true (file_at w mfid).is_status _ (look_at os mfid look w) k
      ∙ if-false (ltb (os.clock w.calls - (file_at w mfid).last_read) status_file_read_interval)
          (call w) (look_at os mfid look (call w)) i
      ∙ look_at_open fd look (call w) e h
      ∙ if-true (file_at w mfid).is_status _ _ k
      ∙ ap (λ st. read_status os mfid fd look st (call w)) t

  IsFollowed-at_start :
      (fd : ℕ) (look : Look) (p : Bytes) (s : FileStat) (w : Watch)
      → IsFollowed fd look p w
      → IsFollowed fd look p (at_start fd s w)
  IsFollowed-at_start fd look p s w h =
      let mf : MonitoredFile = record (file_at w mfid) { last_stat = s } in
      let here : file_at (at_start fd s w) mfid ≡ mf =
        get_or-set_self w.ctx.monitored_files mfid mf no_file h.is_file in
      record {
        is_file = omega (arith, h.is_file, length-set w.ctx.monitored_files mfid mf);
        has_fd = ap (λ f. f.fd) here ∙ h.has_fd;
        same_file = h.same_file;
        begun = ap (λ f. f.pending_buf) here ∙ h.begun;
        unbroken = h.unbroken;
        grown = h.grown;
        fits = h.fits;
        memory = h.memory;
      }

  -- A status file that is open and not replaced, in a look at which it does not become shorter and memory
  -- can be had, where the line begun before is kept and holds no newline. Of each read only the bytes up to its first NUL count:
  -- they are at least one, and with the line begun before them and a NUL they have room in 500 KB. A look
  -- less than 5 seconds after the last one only asks for the time; a later one notes the time, and only if
  -- the file's size, time, device or inode is another one than at the last look it reads the file, from its
  -- start, and handles the lines that these bytes complete, the first of them after what the last look left
  -- unfinished, and keeps what follows their last newline.
  pub visit_file-status :
      (fd : ℕ) (look : Look) (p : Bytes) (s : FileStat) (w : Watch)
      → IsFollowed fd look p w
      → (file_at w mfid).is_status ≡ true
      → look.path_stat ≡ some s
      → visit_file os mfid look w ≡ (
          if ltb (os.clock w.calls - (file_at w mfid).last_read) status_file_read_interval
          then call w
          else if same_stat s (file_at w mfid).last_stat
          then note_read os mfid (call w)
          else note_read os mfid (
              handle_all os mfid
                (all_lines p look)
                (put_pending mfid (next_begun p look) (at_start fd s w))))
  visit_file-status fd look p s w h k t =
      let recent = ltb (os.clock w.calls - (file_at w mfid).last_read) status_file_read_interval in
      elim (Bool-cases recent) [
        | inl r ↦ rw r (visit_file_recent look w k r)
        | inr r ↦ rw r (
            visit_file_status fd look s w k h.has_fd h.same_file t r
            ∙ ap
                (λ x.
                  if same_stat s (file_at w mfid).last_stat
                  then note_read os mfid (call w)
                  else note_read os mfid x)
                (read_to_end-whole fd look p (at_start fd s w)
                  (IsFollowed-at_start fd look p s w h)))
      ]
