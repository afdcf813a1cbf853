-- ===== src/Lines/Chunks.antt =====
-- `read_lines` gives out the lines of the stream, however poll() and read() cut it into pieces.
use docker_baseimage.Base.{
  ℕ, zero, suc, ◌+◌, ◌-◌, ◌≤◌, ◌<◌, ◌≡◌, refl, sym, subst, ap, ◌∙◌, ◌⊎◌, ◌*◌, inl, inr, true, false,
  List, [], ◌∷◌, ◌++◌, append-nil, Option, none, some, arith, ◌==◌, if◌then◌else◌, length,
  length-take, take, drop, take-append-drop, ==_iff, Bool-cases,
}
use docker_baseimage.Text.{Bytes}
use docker_baseimage.Text.Trim.{HasNoEol}
use docker_baseimage.Values.{c_string}
use docker_baseimage.Values.Files.{HasNoNul}
use docker_baseimage.Lines.{
  Fd, FdEvent, idle, hangup, interrupted, read_error, readable, buf_size, min, last_line, at_eof,
  complete_lines, read_some, fd_step, poll_fd, poll_fds, PollAnswer, ready, read_lines, finished,
  is_polled, all_done,
}
use docker_baseimage.Lines.Cutting.{segments, is_full, complete_lines-Cuts}

-- Between two calls of poll(): the bytes kept are less than the buffer and hold no end of line.
pub record IsTidy (fd : Fd) : Type 0 where
  pub unfinished : HasNoEol fd.buf
  pub fits : length fd.buf ≤ buf_size - 1
  pub buf_nul : HasNoNul fd.buf
  pub pending_nul : HasNoNul fd.pending

-- The lines still to be given out.
abbrev pub remaining : Fd → List Bytes
remaining fd = if fd.eof then [] else segments fd.buf fd.pending

-- The lines given out and those still to come are what was to come before.
pub record Conserves (fd : Fd) (lines : List Bytes) (fd' : Fd) : Type 0 where
  pub lines_same : lines ++ remaining fd' ≡ remaining fd
  pub tidy : IsTidy fd'
  pub still_open : fd'.is_open ≡ fd.is_open

-- A failed read has no descriptor to speak of.
abbrev pub ConservesIn : Fd → Option (List Bytes × Fd) → Type 0
ConservesIn fd none = Unit {0}
ConservesIn fd (some (lines, fd')) = Conserves fd lines fd'

HasNoNul-split : (n : ℕ) (s : Bytes) → HasNoNul s → HasNoNul (take n s) × HasNoNul (drop n s)
HasNoNul-split zero s h = (tt, h)
HasNoNul-split (suc n) [] h = (tt, tt)
HasNoNul-split (suc n) (c ∷ s) h = let (a, b) = HasNoNul-split n s h.1 in ((h.0, a), b)

-- A full buffer is given out before the next byte, or at the end of the input.
segments_full :
    (cur s : Bytes)
    → length cur ≡ buf_size - 1
    → HasNoNul cur
    → segments cur s ≡ c_string cur ∷ segments [] s
unfolding segments
segments_full [] s h k = absurd (omega arith)
segments_full (c ∷ cur) [] h k = rw k.0
segments_full (c ∷ cur) (x ∷ s) h k = let full : is_full (c ∷ cur) ≡ true = ground arith in rw full

empty_of_length : (s : Bytes) → (length s == 0) ≡ true → s ≡ []
empty_of_length [] h = refl
empty_of_length (c ∷ s) h = ground arith

module _ (fd : Fd) (h : IsTidy fd) (live : fd.eof ≡ false) where
  open h use {unfinished, fits, buf_nul, pending_nul}

  flush-Conserves :
      length fd.buf ≡ buf_size - 1 → Conserves fd (c_string fd.buf ∷ []) (record fd { buf = [] })
  flush-Conserves full = record {
    lines_same = rw live (sym (segments_full fd.buf fd.pending full buf_nul));
    tidy = record { unfinished = tt; fits = omega arith; buf_nul = tt; pending_nul = pending_nul };
    still_open = refl;
  }

  eof-Conserves : fd.pending ≡ [] → Conserves fd (last_line fd.buf) (at_eof fd)
  unfolding segments
  eof-Conserves drained = record {
    lines_same = rw (live, drained) (append-nil _);
    tidy = record { unfinished = tt; fits = omega arith; buf_nul = tt; pending_nul = pending_nul };
    still_open = refl;
  }

  read_some-Conserves : (n : ℕ) → length fd.buf + n ≤ buf_size - 1 → ConservesIn fd (read_some fd n)
  unfolding read_some
  read_some-Conserves n room = elim (Bool-cases (length fd.pending == 0)) [
    | inl e ↦ rw e (eof-Conserves (empty_of_length fd.pending e))
    | inr e ↦
        let got = take n fd.pending in
        let short : length got ≤ n = omega (arith, length-take n fd.pending) in
        let cuts = complete_lines-Cuts fd.buf got unfinished (omega arith) in
        let nuls = HasNoNul-split n fd.pending pending_nul in
        rw e (record {
          lines_same = rw live (
              sym (cuts.same (drop n fd.pending))
              ∙ ap (segments fd.buf) (take-append-drop n fd.pending));
          tidy = record {
            unfinished = cuts.left_clean;
            fits = omega (arith, cuts.left_bounded);
            buf_nul = cuts.left_nul buf_nul nuls.0;
            pending_nul = nuls.1;
          };
          still_open = refl;
        })
  ]

  none-Conserves : Conserves fd [] fd
  none-Conserves = record { lines_same = refl; tidy = h; still_open = refl }

  fd_step-Conserves : (e : FdEvent) → (e ≡ hangup → fd.pending ≡ []) → ConservesIn fd (fd_step fd e)
  unfolding fd_step
  fd_step-Conserves idle d = none-Conserves
  fd_step-Conserves hangup d = eof-Conserves (d refl)
  fd_step-Conserves interrupted d = elim (Bool-cases (length fd.buf == buf_size - 1)) [
    | inl e ↦ rw e (flush-Conserves ((==_iff _ _).0 e))
    | inr e ↦ rw e none-Conserves
  ]
  fd_step-Conserves read_error d = elim (Bool-cases (length fd.buf == buf_size - 1)) [
    | inl e ↦ rw e (flush-Conserves ((==_iff _ _).0 e))
    | inr e ↦ rw e tt
  ]
  fd_step-Conserves (readable n) d = elim (Bool-cases (buf_size - length fd.buf - 1 == 0)) [
    | inl e ↦ rw e (flush-Conserves (ground (arith, e, fits)))
    | inr e ↦
        rw e (
          read_some-Conserves (min (suc n) (buf_size - length fd.buf - 1))
            (ground (arith, e, fits)))
  ]

pub poll_fd-Conserves :
    (fd : Fd) (e : FdEvent)
    → IsTidy fd
    → (e ≡ hangup → fd.pending ≡ [])
    → ConservesIn fd (poll_fd fd e)
unfolding poll_fd
poll_fd-Conserves fd e h d = elim (Bool-cases (is_polled fd)) [
  | inl on ↦ let live : fd.eof ≡ false = ground arith in rw on (fd_step-Conserves fd h live e d)
  | inr off ↦ rw off (record { lines_same = refl; tidy = h; still_open = refl })
]

-- One answer, where the read does not fail.
read_lines-ready :
    (fd : Fd) (e : FdEvent) (es : List FdEvent) (as' : List PollAnswer) (got : List Bytes)
    (fd' : Fd)
    → poll_fd fd e ≡ some (got, fd')
    → read_lines (fd ∷ []) (ready (e ∷ es) false ∷ as') ≡ (
        if all_done (fd' ∷ [])
        then (got, finished)
        else (got ++ (read_lines (fd' ∷ []) as').0, (read_lines (fd' ∷ []) as').1))
unfolding read_lines poll_fds
read_lines-ready fd e es as' got fd' p = ground (arith, p, append-nil got)

length-drop : (n : ℕ) (s : Bytes) → length (drop n s) ≡ length s - n
length-drop zero s = omega arith
length-drop (suc n) [] = omega arith
length-drop (suc n) (x ∷ s) = omega (arith, length-drop n s)

-- The rounds that a descriptor may need to its end of file.
abbrev pub rounds : Fd → ℕ
rounds fd = 2 * length fd.pending + (if is_full fd.buf then 2 else 1)

record Advances (fd : Fd) (r : Option (List Bytes × Fd)) : Type 0 where
  got : List Bytes
  next : Fd
  answered : r ≡ some (got, next)
  nearer : (next.eof ≡ true) ⊎ ((next.eof ≡ false) × (rounds next < rounds fd))

read_some-Advances :
    (fd : Fd) (n : ℕ)
    → fd.eof ≡ false
    → is_full fd.buf ≡ false
    → 0 < n
    → Advances fd (read_some fd n)
unfolding read_some
read_some-Advances fd n live room pos = elim (Bool-cases (length fd.pending == 0)) [
  | inl e ↦
      rw e (record { got = last_line fd.buf; next = at_eof fd; answered = refl; nearer = inl refl })
  | inr e ↦
      let buf = fd.buf ++ take n fd.pending in
      let cut = complete_lines (length buf) buf in
      rw e (record {
        got = cut.0;
        next = record fd { buf = cut.1; pending = drop n fd.pending };
        answered = refl;
        nearer = inr (live, ground (arith, e, room, length-drop n fd.pending));
      })
]

fd_step-Advances :
    (fd : Fd) (n : ℕ)
    → fd.eof ≡ false
    → length fd.buf ≤ buf_size - 1
    → Advances fd (fd_step fd (readable n))
unfolding fd_step
fd_step-Advances fd n live le = elim (Bool-cases (buf_size - length fd.buf - 1 == 0)) [
  | inl e ↦
      let full : is_full fd.buf ≡ true = ground (arith, e) in
      rw e (record {
        got = c_string fd.buf ∷ [];
        next = record fd { buf = [] };
        answered = refl;
        nearer = inr (live, ground (arith, full));
      })
  | inr e ↦
      let room : is_full fd.buf ≡ false = ground (arith, e) in
      rw e (
        read_some-Advances fd (min (suc n) (buf_size - length fd.buf - 1)) live room
          (ground (arith, e)))
]

poll_fd_polled : (fd : Fd) (e : FdEvent) → is_polled fd ≡ true → poll_fd fd e ≡ fd_step fd e
unfolding poll_fd
poll_fd_polled fd e h = rw h

-- The answers of a poll() that reports data or the end of input every time.
abbrev pub reading : List ℕ → List PollAnswer
reading [] = []
reading (n ∷ ns) = ready (readable n ∷ []) false ∷ reading ns

-- For one open descriptor that is not at its end, where the bytes kept from earlier reads fit the
-- buffer and hold no end of line, and neither they nor the bytes to come hold a NUL: the lines
-- given out are those of the bytes kept and the bytes to come, whatever the sizes of the reads, and
-- the loop ends, as soon as poll() has reported data often enough, which is at most twice for each
-- byte to come and twice more.
pub read_lines-remaining :
    (ns : List ℕ) (fd : Fd)
    → IsTidy fd
    → fd.is_open ≡ true
    → fd.eof ≡ false
    → rounds fd ≤ length ns
    → read_lines (fd ∷ []) (reading ns) ≡ (segments fd.buf fd.pending, finished)
read_lines-remaining [] fd h o live le = ground arith
read_lines-remaining (n ∷ ns) fd h o live le =
    let polled : is_polled fd ≡ true = ground arith in
    let adv = fd_step-Advances fd n live h.fits in
    let step = poll_fd_polled fd (readable n) polled ∙ adv.answered in
    let first = read_lines-ready fd (readable n) [] (reading ns) adv.got adv.next step in
    let keeps : Conserves fd adv.got adv.next =
      subst (ConservesIn fd) step (poll_fd-Conserves fd (readable n) h (λ e. cc)) in
    elim adv.nearer [
      | inl over ↦ ground (arith, first, over, keeps.lines_same, append-nil adv.got)
      | inr (on, less) ↦
          let ih =
            read_lines-remaining ns adv.next keeps.tidy (keeps.still_open ∙ o) on
              (omega (arith, less, le)) in
          ground (arith, first, on, ih, keeps.lines_same, keeps.still_open)
    ]
