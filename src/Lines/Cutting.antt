-- ===== src/Lines/Cutting.antt =====
-- The lines of a stream, and the loop that cuts them out of the buffer.
use docker_baseimage.Base.{
  ℕ, zero, suc, ◌+◌, ◌-◌, ◌≤◌, ◌≡◌, refl, sym, ap, ◌∙◌, inl, inr, Bool, true, false, List, [], ◌∷◌,
  ◌++◌, append-nil, append_assoc, none, some, arith, ◌==◌, if◌then◌else◌, length, length-append,
  All, All-append, Bool-cases,
}
use docker_baseimage.Text.{Bytes, is_eol}
use docker_baseimage.Text.Trim.{HasNoEol}
use docker_baseimage.Values.{c_string}
use docker_baseimage.Lines.{buf_size, cut_line, call_back, complete_lines, last_line}

abbrev pub is_full : Bytes → Bool
is_full cur = length cur == buf_size - 1

-- The lines of a stream, whatever the sizes of the reads: `cur` is the line begun so far. A line
-- that fills the buffer is given out before its next byte, an empty line not at all.
unfoldable pub segments : Bytes → Bytes → List Bytes
segments cur [] = last_line cur
segments cur (c ∷ s) =
    let begun = if is_full cur then [] else cur in
    (if is_full cur then c_string cur ∷ [] else [])
    ++ ((if is_eol c then call_back begun else [])
        ++ segments (if is_eol c then [] else begun ++ c ∷ []) s)

-- The cutting of a buffer, without rescanning: `cur` holds no end of line.
scan : Bytes → Bytes → List Bytes × Bytes
scan cur [] = ([], cur)
scan cur (c ∷ t) =
    let (lines, left) = scan (if is_eol c then [] else cur ++ c ∷ []) t in
    ((if is_eol c then call_back cur else []) ++ lines, left)

cut_line-none : (s : Bytes) → HasNoEol s → cut_line s ≡ none
unfolding cut_line
cut_line-none [] h = refl
cut_line-none (c ∷ s) h = rw (h.0, cut_line-none s h.1)

cut_line-some :
    (s : Bytes) (c : ℕ) (t : Bytes)
    → HasNoEol s
    → is_eol c ≡ true
    → cut_line (s ++ c ∷ t) ≡ some (s, t)
unfolding cut_line
cut_line-some [] c t h e = rw e
cut_line-some (x ∷ s) c t h e = rw (h.0, cut_line-some s c t h.1 e)

complete_lines-scan :
    (t cur : Bytes) (f : ℕ)
    → HasNoEol cur
    → length (cur ++ t) ≤ f
    → complete_lines f (cur ++ t) ≡ scan cur t
unfolding scan complete_lines
complete_lines-scan [] cur zero h le = rw append-nil
complete_lines-scan [] cur (suc f) h le =
    ap (complete_lines (suc f)) (append-nil cur) ∙ rw (cut_line-none cur h, complete_lines)
complete_lines-scan (c ∷ t) cur zero h le = absurd (omega (arith, length-append cur (c ∷ t)))
complete_lines-scan (c ∷ t) cur (suc f) h le = elim (Bool-cases (is_eol c)) [
  | inl e ↦
      let ih = complete_lines-scan t [] f tt (omega (arith, length-append cur (c ∷ t))) in
      rw (e, cut_line-some cur c t h e, complete_lines) (ap (λ r. (call_back cur ++ r.0, r.1)) ih)
  | inr e ↦
      let longer = All-append (λ b. is_eol b ≡ false) cur (c ∷ []) h (e, tt) in
      let same = append_assoc cur (c ∷ []) t in
      let ih =
        complete_lines-scan t (cur ++ c ∷ []) (suc f) longer (omega (arith, ap length same)) in
      rw e (ap (complete_lines (suc f)) (sym same) ∙ ih)
]

-- The cutting of a read that fits the buffer, before the rest `s` of the stream.
segments-scan :
    (t cur s : Bytes)
    → length cur + length t ≤ buf_size - 1
    → segments cur (t ++ s) ≡ (scan cur t).0 ++ segments (scan cur t).1 s
unfolding scan segments
segments-scan [] cur s h = refl
segments-scan (c ∷ t) cur s h = elim (Bool-cases (is_eol c)) [
  | inl e ↦
      let room : is_full cur ≡ false = ground arith in
      rw (e, room)
        (ap (◌++◌ (call_back cur)) (segments-scan t [] s (omega arith))
          ∙ sym (append_assoc (call_back cur) _ _))
  | inr e ↦
      let room : is_full cur ≡ false = ground arith in
      rw (e, room) (segments-scan t (cur ++ c ∷ []) s (omega (arith, length-append cur (c ∷ []))))
]

scan_left :
    (t cur : Bytes)
    → HasNoEol cur
    → HasNoEol (scan cur t).1 × (length (scan cur t).1 ≤ length cur + length t)
unfolding scan
scan_left [] cur h = (h, omega arith)
scan_left (c ∷ t) cur h = elim (Bool-cases (is_eol c)) [
  | inl e ↦ let (clean, le) = scan_left t [] tt in rw e (clean, omega arith)
  | inr e ↦
      let longer = All-append (λ b. is_eol b ≡ false) cur (c ∷ []) h (e, tt) in
      let (clean, le) = scan_left t (cur ++ c ∷ []) longer in
      rw e (clean, omega (arith, length-append cur (c ∷ [])))
]

scan_left-All {ℓ} : (P : ℕ → Type ℓ) (t cur : Bytes) → All P cur → All P t → All P (scan cur t).1
unfolding scan
scan_left-All P [] cur h k = h
scan_left-All P (c ∷ t) cur h k = elim (Bool-cases (is_eol c)) [
  | inl e ↦ rw e (scan_left-All P t [] tt k.1)
  | inr e ↦ rw e (scan_left-All P t (cur ++ c ∷ []) (All-append P cur (c ∷ []) h (k.0, tt)) k.1)
]

-- What the loop does with the bytes `t` that a read put behind `cur`.
pub record Cuts (cur t : Bytes) (r : List Bytes × Bytes) : Type 0 where
  pub same : (s : Bytes) → segments cur (t ++ s) ≡ r.0 ++ segments r.1 s
  pub left_clean : HasNoEol r.1
  pub left_bounded : length r.1 ≤ length cur + length t
  pub left_nul :
      All (λ c. (c == 0) ≡ false) cur
      → All (λ c. (c == 0) ≡ false) t
      → All (λ c. (c == 0) ≡ false) r.1

pub complete_lines-Cuts :
    (cur t : Bytes)
    → HasNoEol cur
    → length cur + length t ≤ buf_size - 1
    → Cuts cur t (complete_lines (length (cur ++ t)) (cur ++ t))
complete_lines-Cuts cur t h le =
    let (clean, bounded) = scan_left t cur h in
    rw (complete_lines-scan t cur (length (cur ++ t)) h (omega arith)) (record {
      same = λ s. segments-scan t cur s le;
      left_clean = clean;
      left_bounded = bounded;
      left_nul = λ a b. scan_left-All (λ c. (c == 0) ≡ false) t cur a b;
    })
