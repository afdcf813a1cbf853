-- ===== src/Lines/Tagged.antt =====
-- `read_lines` with the descriptor that each line is called back for, as its place in the array.
use docker_baseimage.Base.{
  ℕ, suc, ◌≡◌, refl, sym, ap, ◌∙◌, Bool, true, false, not, ◌||◌, List, [], ◌∷◌, ◌++◌, none, some,
  if◌then◌else◌, Bool-cases, inl, inr,
}
use docker_baseimage.Text.{Bytes}
use docker_baseimage.Lines.{
  Fd, FdEvent, FdResult, poll_fd, poll_fds, all_done, PollAnswer, eintr, poll_error, timeout, ready,
  Status, finished, failed, polling, read_lines,
}

abbrev pub tagged : ℕ → List Bytes → List (ℕ × Bytes)
tagged i [] = []
tagged i (l ∷ ls) = (i, l) ∷ tagged i ls

-- What a pass over the descriptors gives, from one of them on.
abbrev pub Polled : Type 0
Polled = Bool × List (ℕ × Bytes) × List Fd

abbrev pub with_first : ℕ → Fd → List Fd → FdResult → Polled → Polled
with_first i fd fds none rest = (false, [], fd ∷ fds)
with_first i fd fds (some (lines, fd')) (good, more, fds') =
    (good, tagged i lines ++ more, fd' ∷ fds')

unfoldable pub poll_fds_from : ℕ → List Fd → List FdEvent → Polled
unfolding poll_fd
poll_fds_from i [] events = (true, [], [])
poll_fds_from i (fd ∷ fds) [] =
    let rest = poll_fds_from (suc i) fds [] in (rest.0, rest.1, fd ∷ rest.2)
poll_fds_from i (fd ∷ fds) (e ∷ events) =
    let rest = poll_fds_from (suc i) fds events in with_first i fd fds (poll_fd fd e) rest

unfoldable pub read_lines_from : List Fd → List PollAnswer → List (ℕ × Bytes) × Status
unfolding poll_fds_from
read_lines_from fds [] = ([], polling)
read_lines_from fds (eintr ∷ as') = read_lines_from fds as'
read_lines_from fds (poll_error ∷ as') = ([], failed)
read_lines_from fds (timeout exit ∷ as') =
    let more = read_lines_from fds as' in if exit then ([], finished) else more
read_lines_from fds (ready events exit ∷ as') =
    let r = poll_fds_from 0 fds events in
    let more = read_lines_from r.2 as' in
    if not r.0
    then (r.1, failed)
    else if all_done r.2 || exit
    then (r.1, finished)
    else (r.1 ++ more.0, more.1)

-- Without the descriptors.
abbrev pub untagged : List (ℕ × Bytes) → List Bytes
untagged [] = []
untagged ((i, l) ∷ ls) = l ∷ untagged ls

untagged-tagged :
    (i : ℕ) (got : List Bytes) (ls : List (ℕ × Bytes))
    → untagged (tagged i got ++ ls) ≡ got ++ untagged ls
untagged-tagged i [] ls = refl
untagged-tagged i (l ∷ got) ls = ap (◌∷◌ l) (untagged-tagged i got ls)

untagged-append : (a b : List (ℕ × Bytes)) → untagged (a ++ b) ≡ untagged a ++ untagged b
untagged-append [] b = refl
untagged-append ((i, l) ∷ a) b = ap (◌∷◌ l) (untagged-append a b)

abbrev forget : Polled → Bool × List Bytes × List Fd
forget (good, ls, fds) = (good, untagged ls, fds)

abbrev with_one :
    Fd → List Fd → FdResult → Bool × List Bytes × List Fd → Bool × List Bytes × List Fd
with_one fd fds none rest = (false, [], fd ∷ fds)
with_one fd fds (some (lines, fd')) (good, more, fds') = (good, lines ++ more, fd' ∷ fds')

forget-with_first :
    (i : ℕ) (fd : Fd) (fds : List Fd) (o : FdResult) (rest : Polled)
    → forget (with_first i fd fds o rest) ≡ with_one fd fds o (forget rest)
forget-with_first i fd fds none rest = refl
forget-with_first i fd fds (some (lines, fd')) (good, more, fds') =
    ap (λ l. (good, l, fd' ∷ fds')) (untagged-tagged i lines more)

poll_fds-step :
    (fd : Fd) (fds : List Fd) (e : FdEvent) (es : List FdEvent) (o : FdResult)
    → poll_fd fd e ≡ o
    → poll_fds (fd ∷ fds) (e ∷ es) ≡ with_one fd fds o (poll_fds fds es)
unfolding poll_fds
poll_fds-step fd fds e es none h = rw (h, poll_fds) refl
poll_fds-step fd fds e es (some (lines, fd')) h = rw (h, poll_fds) refl

poll_fds-forget :
    (i : ℕ) (fds : List Fd) (es : List FdEvent) → poll_fds fds es ≡ forget (poll_fds_from i fds es)
unfolding poll_fds_from poll_fds
poll_fds-forget i [] es = refl
poll_fds-forget i (fd ∷ fds) [] = ap (λ r. (r.0, r.1, fd ∷ r.2)) (poll_fds-forget (suc i) fds [])
poll_fds-forget i (fd ∷ fds) (e ∷ es) =
    poll_fds-step fd fds e es (poll_fd fd e) refl
    ∙ ap (with_one fd fds (poll_fd fd e)) (poll_fds-forget (suc i) fds es)
    ∙ sym (forget-with_first i fd fds (poll_fd fd e) (poll_fds_from (suc i) fds es))

-- After one pass.
abbrev after_pass : Bool × List Bytes × List Fd → Bool → List Bytes × Status → List Bytes × Status
after_pass r exit more =
    if not r.0
    then (r.1, failed)
    else if all_done r.2 || exit
    then (r.1, finished)
    else (r.1 ++ more.0, more.1)

abbrev pub forget_lines : List (ℕ × Bytes) × Status → List Bytes × Status
forget_lines r = (untagged r.0, r.1)

after_pass-forget :
    (r : Polled) (exit : Bool) (more : List (ℕ × Bytes) × Status)
    → after_pass (forget r) exit (forget_lines more)
      ≡ forget_lines (
          if not r.0
          then (r.1, failed)
          else if all_done r.2 || exit
          then (r.1, finished)
          else (r.1 ++ more.0, more.1))
after_pass-forget (false, ls, fds) exit more = refl
after_pass-forget (true, ls, fds) exit more = elim (Bool-cases (all_done fds || exit)) [
  | inl e ↦ rw e refl
  | inr e ↦ rw e (ap (λ l. (l, more.1)) (sym (untagged-append ls more.0)))
]

-- The lines called back, and the end, are those of `read_lines`.
pub read_lines-forget :
    (as' : List PollAnswer) (fds : List Fd)
    → read_lines fds as' ≡ forget_lines (read_lines_from fds as')
unfolding read_lines read_lines_from
read_lines-forget [] fds = refl
read_lines-forget (eintr ∷ as') fds = read_lines-forget as' fds
read_lines-forget (poll_error ∷ as') fds = refl
read_lines-forget (timeout true ∷ as') fds = refl
read_lines-forget (timeout false ∷ as') fds = read_lines-forget as' fds
read_lines-forget (ready es exit ∷ as') fds =
    let r = poll_fds_from 0 fds es in
    ap (λ p. after_pass p exit (read_lines p.2 as')) (poll_fds-forget 0 fds es)
    ∙ ap (after_pass (forget r) exit) (read_lines-forget as' r.2)
    ∙ after_pass-forget r exit (read_lines_from r.2 as')
