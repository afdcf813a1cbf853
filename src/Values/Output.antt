-- ===== src/Values/Output.antt =====
-- `process_line`: the buffer is never overrun, and holds the lines of stdout.
use docker_baseimage.Base.{
  ℕ, zero, suc, ◌+◌, ◌≤◌, ◌<◌, ◌≡◌, refl, sym, ap, ◌∙◌, append_assoc, append-nil, ◌⊎◌, ◌≢◌, inl,
  inr, Bool, false, List, [], ◌∷◌, ◌++◌, Option, none, some, arith, ltb, ◌==◌, if◌then◌else◌,
  length, length-append, Bool-cases, Option-cases,
}
use docker_baseimage.Text.{Bytes}
use docker_baseimage.Values.{
  StdOutput, stdout, stderr, OutputError, OutputCtx, max_output, Dest, allocated, into, start_ctx,
  buf_len, buf_text, process_line, process_stdout, process_lines, emptied, add_line,
}

-- From the first line on the buffer has room for its text and the NUL, and without an error no more
-- memory than the limit has been asked for.
pub record HasRoom (ctx : OutputCtx) : Type 0 where
  pub room : (ctx.num_lines_added ≡ 0) ⊎ (buf_len ctx.buf < ctx.bufsize)
  pub limited : (ctx.err ≢ none) ⊎ (ctx.allocated_buf ≡ false) ⊎ (ctx.bufsize ≤ max_output)

length-appended :
    (n : ℕ) (text line : Bytes)
    → length (text ++ ((if ltb 0 n then b'\n' ∷ [] else []) ++ line))
      ≡ length text + (if ltb 0 n then 1 else 0) + length line
length-appended zero text line = omega (arith, length-append text line)
length-appended (suc n) text line = ground (arith, length-append text (b'\n' ∷ line))

add_line-HasRoom :
    (memory : ℕ → Bool) (ctx : OutputCtx) (line : Bytes)
    → HasRoom ctx
    → ctx.err ≡ none
    → HasRoom (add_line memory ctx line)
unfolding add_line
add_line-HasRoom memory ctx line h e = elim (Bool-cases (ctx.num_lines_added == 0)) [
  | inl first ↦
      ground (arith, first, length-appended ctx.num_lines_added (buf_text (emptied ctx.buf)) line)
  | inr later ↦ ground (arith, later, length-appended ctx.num_lines_added (buf_text ctx.buf) line)
]

process_stdout-HasRoom :
    (memory : ℕ → Bool) (ctx : OutputCtx) (line : Bytes) (e : Option OutputError)
    → ctx.err ≡ e
    → HasRoom ctx
    → HasRoom (process_stdout memory ctx line e)
unfolding process_stdout
process_stdout-HasRoom memory ctx line none e h = add_line-HasRoom memory ctx line h e
process_stdout-HasRoom memory ctx line (some f) e h = h

-- Whatever a command prints, the buffer has room for the text and its NUL after every line, and
-- without an error no more than the limit has been allocated.
pub process_lines-HasRoom :
    (memory : ℕ → Bool) (ctx : OutputCtx) (ls : List (StdOutput × Bytes))
    → HasRoom ctx
    → HasRoom (process_lines memory ctx ls)
unfolding process_lines process_line
process_lines-HasRoom memory ctx [] h = h
process_lines-HasRoom memory ctx ((stderr, line) ∷ ls) h = process_lines-HasRoom memory ctx ls h
process_lines-HasRoom memory ctx ((stdout, line) ∷ ls) h =
    process_lines-HasRoom memory (process_stdout memory ctx line ctx.err) ls
      (process_stdout-HasRoom memory ctx line ctx.err refl h)

-- The lines that came on stdout.
abbrev pub texts : List (StdOutput × Bytes) → List Bytes
texts [] = []
texts ((stdout, line) ∷ ls) = line ∷ texts ls
texts ((stderr, line) ∷ ls) = texts ls

abbrev pub following : List Bytes → Bytes
following [] = []
following (l ∷ ls) = b'\n' ∷ (l ++ following ls)

-- The lines with a newline between two of them.
abbrev pub printed : List Bytes → Bytes
printed [] = []
printed (l ∷ ls) = l ++ following ls

module _ (memory : ℕ → Bool) where
  process_line_failed :
      (ctx : OutputCtx) (l : StdOutput × Bytes) (e : OutputError)
      → ctx.err ≡ some e
      → process_line memory ctx l ≡ ctx
  unfolding process_line
  process_line_failed ctx (stderr, line) e h = refl
  process_line_failed ctx (stdout, line) e h = ap (process_stdout memory ctx line) h

  process_lines_failed :
      (ctx : OutputCtx) (ls : List (StdOutput × Bytes)) (e : OutputError)
      → ctx.err ≡ some e
      → process_lines memory ctx ls ≡ ctx
  unfolding process_lines
  process_lines_failed ctx [] e h = refl
  process_lines_failed ctx (l ∷ ls) e h =
      ap (λ c. process_lines memory c ls) (process_line_failed ctx l e h)
      ∙ process_lines_failed ctx ls e h

  -- A line on stdout, added without an error.
  add_line_text :
      (ctx : OutputCtx) (line : Bytes)
      → ctx.err ≡ none
      → (add_line memory ctx line).err ≡ none
      → (buf_text (add_line memory ctx line).buf
          ≡ (if ctx.num_lines_added == 0 then line else buf_text ctx.buf ++ b'\n' ∷ line))
        × ((add_line memory ctx line).num_lines_added ≡ suc ctx.num_lines_added)
  unfolding add_line
  add_line_text ctx line e h = elim (Bool-cases (ctx.num_lines_added == 0)) [
    | inl first ↦ rw first (ground (arith, first))
    | inr later ↦ rw later (ground (arith, later))
  ]

  process_lines_ok :
      (ctx : OutputCtx) (line : Bytes) (ls : List (StdOutput × Bytes))
      → ctx.err ≡ none
      → process_lines memory ctx ((stdout, line) ∷ ls)
        ≡ process_lines memory (add_line memory ctx line) ls
  unfolding process_lines process_line
  process_lines_ok ctx line ls e =
      ap (λ f. process_lines memory (process_stdout memory ctx line f) ls) e

  process_lines_later :
      (ls : List (StdOutput × Bytes)) (ctx : OutputCtx)
      → ctx.err ≡ none
      → 0 < ctx.num_lines_added
      → (process_lines memory ctx ls).err ≡ none
      → buf_text (process_lines memory ctx ls).buf ≡ buf_text ctx.buf ++ following (texts ls)
  unfolding process_lines process_line
  process_lines_later [] ctx e n h = sym (append-nil _)
  process_lines_later ((stderr, line) ∷ ls) ctx e n h = process_lines_later ls ctx e n h
  process_lines_later ((stdout, line) ∷ ls) ctx e n h =
      let ctx' = add_line memory ctx line in
      let same = process_lines_ok ctx line ls e in
      elim (Option-cases ctx'.err) [
        | inl e' ↦
            let (text, count) = add_line_text ctx line e e' in
            ap (λ c. buf_text c.buf) same
            ∙ process_lines_later ls ctx' e' (omega (arith, count)) (sym (ap (λ c. c.err) same) ∙ h)
            ∙ ap (λ t. t ++ following (texts ls)) (ground (arith, text))
            ∙ append_assoc (buf_text ctx.buf) (b'\n' ∷ line) (following (texts ls))
        | inr (f, e') ↦ cc (process_lines_failed ctx' ls f e', same, h, e')
      ]

  -- The text of the first line stands alone.
  process_lines_first :
      (ls : List (StdOutput × Bytes)) (ctx : OutputCtx) (l : Bytes) (rest : List Bytes)
      → ctx.err ≡ none
      → ctx.num_lines_added ≡ 0
      → texts ls ≡ l ∷ rest
      → (process_lines memory ctx ls).err ≡ none
      → buf_text (process_lines memory ctx ls).buf ≡ printed (texts ls)
  unfolding process_lines process_line
  process_lines_first [] ctx l rest e n t h = cc
  process_lines_first ((stderr, line) ∷ ls) ctx l rest e n t h =
      process_lines_first ls ctx l rest e n t h
  process_lines_first ((stdout, line) ∷ ls) ctx l rest e n t h =
      let ctx' = add_line memory ctx line in
      let same = process_lines_ok ctx line ls e in
      elim (Option-cases ctx'.err) [
        | inl e' ↦
            let (text, count) = add_line_text ctx line e e' in
            ap (λ c. buf_text c.buf) same
            ∙ process_lines_later ls ctx' e' (omega (arith, count)) (sym (ap (λ c. c.err) same) ∙ h)
            ∙ ap (λ t. t ++ following (texts ls)) (ground (arith, text))
        | inr (f, e') ↦ cc (process_lines_failed ctx' ls f e', same, h, e')
      ]

-- If a command printed at least one line on stdout and no error is recorded, the buffer (the
-- caller's or an allocated one) holds exactly the lines of stdout with a newline between two of
-- them: what the buffer held before is gone, and lines of stderr leave no trace.
pub process_lines-printed :
    (memory : ℕ → Bool) (dest : Dest) (ls : List (StdOutput × Bytes)) (l : Bytes)
    (rest : List Bytes)
    → texts ls ≡ l ∷ rest
    → (process_lines memory (start_ctx dest) ls).err ≡ none
    → buf_text (process_lines memory (start_ctx dest) ls).buf ≡ printed (texts ls)
process_lines-printed memory allocated ls l rest t h =
    process_lines_first memory ls (start_ctx allocated) l rest refl refl t h
process_lines-printed memory (into size old) ls l rest t h =
    process_lines_first memory ls (start_ctx (into size old)) l rest refl refl t h
