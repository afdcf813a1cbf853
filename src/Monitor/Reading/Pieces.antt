-- ===== src/Monitor/Reading/Pieces.antt =====
-- The reads of a file one after another: how they cut its bytes makes no difference.
use docker_baseimage.Base.{
  ℕ, ◌+◌, ◌≤◌, ◌<◌, ◌≡◌, sym, ap, ◌∙◌, subst, inl, inr, true, List, [], ◌∷◌, ◌++◌, append-nil,
  append_assoc, Option, arith, ◌==◌, length, length-set, get_or, set-get_or, get_or-set_self,
  All-append, Bool-cases,
}
use docker_baseimage.Text.{Bytes}
use docker_baseimage.Monitor.{MonitorOs, Watch}
use docker_baseimage.Monitor.Notify.{file_at, no_file}
use docker_baseimage.Monitor.Reading.{max_line, put_pending, handle_reads}
use docker_baseimage.Monitor.Reading.Cutting.{
  whole, unfinished, leftover, handle_all, HasNoNewline, whole-append, unfinished-append,
}
use docker_baseimage.Monitor.Reading.Streams.{
  handle_read-whole, handle_all-put_pending, handle_all-append, put_pending_twice, handle_all_files,
}

put_pending_same :
    (mfid : ℕ) (w : Watch) (p : Option Bytes)
    → (file_at w mfid).pending_buf ≡ p
    → put_pending mfid p w ≡ w
put_pending_same mfid w p e =
    ap (λ r. put_pending mfid r w) (sym e)
    ∙ ap (λ fs. record w { ctx = record w.ctx { monitored_files = fs } })
        (set-get_or w.ctx.monitored_files mfid no_file)

-- The bytes of the pieces.
abbrev pub joined : List Bytes → Bytes
joined [] = []
joined (b ∷ bs) = b ++ joined bs

-- No piece is empty, and none makes a line that is too long; `p` is the line begun before.
abbrev pub AllFit : Bytes → List Bytes → Type 0
AllFit p [] = Unit {0}
AllFit p (b ∷ bs) =
    (0 < length b) × (length p + length b + 1 ≤ max_line) × AllFit (unfinished [] (p ++ b)) bs

unfinished-HasNoNewline : (cur s : Bytes) → HasNoNewline cur → HasNoNewline (unfinished cur s)
unfolding unfinished
unfinished-HasNoNewline cur [] h = h
unfinished-HasNoNewline cur (c ∷ s) h = elim (Bool-cases (c == b'\n')) [
  | inl e ↦ rw e (unfinished-HasNoNewline [] s tt)
  | inr e ↦ rw e (unfinished-HasNoNewline (cur ++ c ∷ []) s (All-append _ cur (c ∷ []) h (e, tt)))
]

-- A line begun is taken up where it was left.
whole-begun :
    (cur p s : Bytes)
    → HasNoNewline p
    → (whole cur (p ++ s) ≡ whole (cur ++ p) s)
      × (unfinished cur (p ++ s) ≡ unfinished (cur ++ p) s)
unfolding whole unfinished
whole-begun cur [] s h =
    (ap (λ l. whole l s) (sym (append-nil cur)), ap (λ l. unfinished l s) (sym (append-nil cur)))
whole-begun cur (c ∷ p) s h =
    let ih = whole-begun (cur ++ c ∷ []) p s h.1 in
    let same = append_assoc cur (c ∷ []) p in
    rw h.0 (ih.0 ∙ ap (λ l. whole l s) same, ih.1 ∙ ap (λ l. unfinished l s) same)

module _ (os : MonitorOs) (mfid : ℕ) (memory : (size : ℕ) → os.memory size ≡ true) where
  handle_all_on :
      (ls ms : List Bytes) (w : Watch) (p q : Option Bytes)
      → handle_all os mfid ms (put_pending mfid q (handle_all os mfid ls (put_pending mfid p w)))
        ≡ handle_all os mfid (ls ++ ms) (put_pending mfid q w)
  handle_all_on ls ms w p q =
      ap (handle_all os mfid ms) (
        sym (handle_all-put_pending os mfid ls (put_pending mfid p w) q)
        ∙ ap (handle_all os mfid ls) (put_pending_twice os mfid w p q))
      ∙ sym (handle_all-append os mfid ls ms (put_pending mfid q w))

  -- Where memory can be had, no read is empty or makes a line of more than 500 KB less a byte, and
  -- no buffer but that of a line begun is pending: the reads of a file, however they cut its bytes,
  -- handle the lines of all its bytes, in order, each once (less a carriage return at its end, and
  -- the empty ones not at all), and keep just what follows the last newline.
  pub handle_reads-whole :
      (bs : List Bytes) (p : Bytes) (w : Watch)
      → HasNoNewline p
      → mfid < length w.ctx.monitored_files
      → (file_at w mfid).pending_buf ≡ leftover p
      → AllFit p bs
      → handle_reads os mfid bs w
        ≡ handle_all os mfid
            (whole [] (p ++ joined bs))
            (put_pending mfid (leftover (unfinished [] (p ++ joined bs))) w)
  unfolding handle_reads handle_all whole unfinished
  handle_reads-whole [] p w n i e h =
      let (none_whole, all_begun) = whole-begun [] p [] n in
      rw (none_whole, all_begun) (sym (put_pending_same mfid w (leftover p) e))
  handle_reads-whole ([] ∷ bs) p w n i e h = absurd (omega (arith, h.0))
  handle_reads-whole ((c ∷ b) ∷ bs) p w n i e h =
      let work : Bytes = p ++ c ∷ b in
      let u : Bytes = unfinished [] work in
      let w1 : Watch = handle_all os mfid (whole [] work) (put_pending mfid (leftover u) w) in
      let clean : HasNoNewline u = unfinished-HasNoNewline [] work tt in
      let (lines, begun) = whole-begun [] u (joined bs) clean in
      let q : Option Bytes = leftover (unfinished [] (u ++ joined bs)) in
      let same : work ++ joined bs ≡ p ++ c ∷ (b ++ joined bs) =
        append_assoc p (c ∷ b) (joined bs) in
      let first = handle_read-whole os mfid memory p c b w e h.1 in
      let kept = handle_all_files os mfid (whole [] work) (put_pending mfid (leftover u) w) in
      let later =
        handle_reads-whole bs u w1 clean
          (subst (λ fs. mfid < length fs) (sym kept)
            (omega (arith, i, length-set w.ctx.monitored_files mfid _)))
          (ap (λ fs. (get_or fs mfid no_file).pending_buf) kept
            ∙ ap (λ f. f.pending_buf) (get_or-set_self w.ctx.monitored_files mfid _ no_file i))
          h.2 in
      let same_lines =
        ap (◌++◌ (whole [] work)) lines
        ∙ sym (whole-append [] work (joined bs))
        ∙ ap (whole []) same in
      let same_rest =
        begun ∙ sym (unfinished-append [] work (joined bs)) ∙ ap (unfinished []) same in
      ap (handle_reads os mfid bs) first
      ∙ later
      ∙ handle_all_on (whole [] work) (whole [] (u ++ joined bs)) w (leftover u) q
      ∙ ap (λ ls. handle_all os mfid ls (put_pending mfid q w)) same_lines
      ∙ ap
          (λ v.
            handle_all os mfid (whole [] (p ++ c ∷ (b ++ joined bs)))
              (put_pending mfid (leftover v) w))
          same_rest
