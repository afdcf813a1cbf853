-- ===== src/Lines/Streams.antt =====
-- `read_lines` over any number of descriptors: none loses a line to another.
use docker_baseimage.Base.{
  ℕ, suc, ◌≡◌, refl, sym, ap, ◌∙◌, inl, inr, true, false, not, ◌||◌, List, [], ◌∷◌, ◌++◌,
  append-nil, arith, if◌then◌else◌, All, Bool-cases,
}
use docker_baseimage.Text.{Bytes}
use docker_baseimage.Lines.{
  Fd, all_done, PollAnswer, eintr, poll_error, timeout, ready, Status, finished, failed,
}
use docker_baseimage.Lines.Chunks.{IsTidy, remaining}
use docker_baseimage.Lines.Tagged.{Polled, poll_fds_from, read_lines_from}
use docker_baseimage.Lines.Keeping.{
  lines_of, lines_of-append, AllKeep, AllTidy, AllDrained, IsKept, poll_fds_from-IsKept,
}

-- What is given out of each descriptor is what was to come.
abbrev pub IsWhole : ℕ → List Fd → List (ℕ × Bytes) → Type 0
IsWhole i [] ls = Unit {0}
IsWhole i (fd ∷ fds) ls = (lines_of i ls ≡ remaining fd) × IsWhole (suc i) fds ls

abbrev AllOpen : List Fd → Type 0
AllOpen = All (λ fd. fd.is_open ≡ true)

-- The answers of poll(): no exit is asked for, and what they say of each descriptor holds.
abbrev pub IsSound : List Fd → List PollAnswer → Type 0
IsSound fds [] = Unit {0}
IsSound fds (eintr ∷ as') = IsSound fds as'
IsSound fds (poll_error ∷ as') = Unit {0}
IsSound fds (timeout exit ∷ as') = (exit ≡ false) × IsSound fds as'
IsSound fds (ready es exit ∷ as') =
    (exit ≡ false) × AllDrained fds es × IsSound (poll_fds_from 0 fds es).2 as'

kept-AllTidy :
    (i : ℕ) (ls : List (ℕ × Bytes)) (fds fds' : List Fd)
    → AllKeep i ls fds fds'
    → AllOpen fds
    → AllTidy fds' × AllOpen fds'
kept-AllTidy i ls [] fds' k o = rw k (tt, tt)
kept-AllTidy i ls (fd ∷ fds) [] k o = absurd k
kept-AllTidy i ls (fd ∷ fds) (fd' ∷ fds') (k, ks) o =
    let (tidy, opened) = kept-AllTidy (suc i) ls fds fds' ks o.1 in
    ((k.tidy, tidy), (k.still_open ∙ o.0, opened))

remaining_over : (fd : Fd) → fd.eof ≡ true → remaining fd ≡ []
remaining_over fd e = rw e refl

-- Once all is done nothing is to come.
AllKeep-done :
    (i : ℕ) (ls : List (ℕ × Bytes)) (fds fds' : List Fd)
    → AllKeep i ls fds fds'
    → AllOpen fds
    → all_done fds' ≡ true
    → IsWhole i fds ls
AllKeep-done i ls [] fds' k o d = tt
AllKeep-done i ls (fd ∷ fds) [] k o d = absurd k
AllKeep-done i ls (fd ∷ fds) (fd' ∷ fds') (k, ks) o d =
    let over : fd'.eof ≡ true = ground (arith, d, k.still_open, o.0) in
    let rest : all_done fds' ≡ true = ground (arith, d) in
    (
      sym (append-nil (lines_of i ls))
          ∙ ap (◌++◌ (lines_of i ls)) (sym (remaining_over fd' over))
          ∙ k.same,
      AllKeep-done (suc i) ls fds fds' ks o.1 rest,
    )

AllKeep-on :
    (i : ℕ) (ls more : List (ℕ × Bytes)) (fds fds' : List Fd)
    → AllKeep i ls fds fds'
    → IsWhole i fds' more
    → IsWhole i fds (ls ++ more)
AllKeep-on i ls more [] fds' k h = tt
AllKeep-on i ls more (fd ∷ fds) [] k h = absurd k
AllKeep-on i ls more (fd ∷ fds) (fd' ∷ fds') (k, ks) h = (
  lines_of-append i ls more ∙ ap (◌++◌ (lines_of i ls)) h.0 ∙ k.same,
  AllKeep-on (suc i) ls more fds fds' ks h.1,
)

-- One pass, and what comes after it.
abbrev next_pass : Polled → List (ℕ × Bytes) × Status → List (ℕ × Bytes) × Status
next_pass r more =
    if not r.0
    then (r.1, failed)
    else if all_done r.2 || false
    then (r.1, finished)
    else (r.1 ++ more.0, more.1)

IsWhole-pass :
    (fds : List Fd) (r : Polled) (more : List (ℕ × Bytes) × Status)
    → IsKept 0 fds r
    → AllOpen fds
    → (AllKeep 0 r.1 fds r.2 → more.1 ≡ finished → IsWhole 0 r.2 more.0)
    → (next_pass r more).1 ≡ finished
    → IsWhole 0 fds (next_pass r more).0
IsWhole-pass fds (false, ls, fds') more k o h f = cc
IsWhole-pass fds (true, ls, fds') more k o h f = elim k.all [
  | inl bad ↦ cc
  | inr ks ↦ elim (Bool-cases (all_done fds' || false)) [
    | inl done ↦ rw done (AllKeep-done 0 ls fds fds' ks o (ground (arith, done)))
    | inr on ↦ rw on (AllKeep-on 0 ls more.0 fds fds' ks (h ks (rw on at f)))
  ]
]

-- For any number of open descriptors, where what is kept of each from earlier reads fits its buffer
-- and holds no end of line, none delivers a NUL, poll() tells of a hangup only once all was read, and
-- no exit is asked for: if read_lines comes to its end, the lines called back for each descriptor
-- are just those of its own bytes, in order, however the others' come in between.
pub read_lines_from-IsWhole :
    (as' : List PollAnswer) (fds : List Fd)
    → All IsTidy fds
    → All (λ fd. fd.is_open ≡ true) fds
    → IsSound fds as'
    → (read_lines_from fds as').1 ≡ finished
    → IsWhole 0 fds (read_lines_from fds as').0
unfolding read_lines_from
read_lines_from-IsWhole [] fds t o s f = cc
read_lines_from-IsWhole (eintr ∷ as') fds t o s f = read_lines_from-IsWhole as' fds t o s f
read_lines_from-IsWhole (poll_error ∷ as') fds t o s f = cc
read_lines_from-IsWhole (timeout true ∷ as') fds t o s f = cc s.0
read_lines_from-IsWhole (timeout false ∷ as') fds t o s f =
    read_lines_from-IsWhole as' fds t o s.1 f
read_lines_from-IsWhole (ready es true ∷ as') fds t o s f = cc s.0
read_lines_from-IsWhole (ready es false ∷ as') fds t o s f =
    let k = poll_fds_from-IsKept 0 fds es t s.1 in
    let r = poll_fds_from 0 fds es in
    IsWhole-pass fds r (read_lines_from r.2 as') k o
      (λ ks g.
        let (tidy, opened) = kept-AllTidy 0 r.1 fds r.2 ks o in
        read_lines_from-IsWhole as' r.2 tidy opened s.2 g)
      f
