-- ===== src/Text/Trim.antt =====
-- What `trim`, `trim_char` and `terminate_at_first_eol` leave of a string.
use docker_baseimage.Base.{
  ℕ, zero, suc, ◌≤◌, ◌<◌, ◌≡◌, refl, sym, ap, ◌∙◌, ◌⊎◌, inl, inr, Bool, true, false, [], ◌∷◌, ◌++◌,
  arith, length, get_or, take, take_all, All, All-append, append-nil, append_assoc, Bool-cases,
  ◌==◌,
}
use docker_baseimage.Text.{
  Bytes, is_space, is_eol, trim_end, trim_start, trim_by, trim, trim_char, terminate_at_first_eol,
}

-- The string does not begin with a byte to drop.
abbrev pub KeepsHead : (ℕ → Bool) → Bytes → Type 0
KeepsHead p s = (s ≡ []) ⊎ ((c : ℕ) × (t : Bytes) × (s ≡ c ∷ t) × (p c ≡ false))

-- Nor does it end with one.
abbrev pub KeepsLast : (ℕ → Bool) → Bytes → Type 0
KeepsLast p s = (s ≡ []) ⊎ ((t : Bytes) × (c : ℕ) × (s ≡ t ++ c ∷ []) × (p c ≡ false))

abbrev pub Dropped : (ℕ → Bool) → Bytes → Type 0
Dropped p = All (λ c. p c ≡ true)

-- `r` is `s` less all that is to be dropped at its ends, and nothing else.
pub record Trims (p : ℕ → Bool) (s r : Bytes) : Type 0 where
  pub before : Bytes
  pub after : Bytes
  pub splits : s ≡ before ++ (r ++ after)
  pub before_dropped : Dropped p before
  pub after_dropped : Dropped p after
  pub head_kept : KeepsHead p r
  pub last_kept : KeepsLast p r

module _ (p : ℕ → Bool) where
  take-suc : (s : Bytes) (l : ℕ) → l < length s → take (suc l) s ≡ take l s ++ get_or s l 0 ∷ []
  take-suc [] l h = absurd (omega arith)
  take-suc (x ∷ s) zero h = refl
  take-suc (x ∷ s) (suc l) h = ap (◌∷◌ x) (take-suc s l (omega arith))

  record EndTrimmed (s : Bytes) (l : ℕ) (r : Bytes) : Type 0 where
    after : Bytes
    splits : take l s ≡ r ++ after
    after_dropped : Dropped p after
    last_kept : KeepsLast p r

  trim_end-EndTrimmed : (s : Bytes) (l : ℕ) → l ≤ length s → EndTrimmed s l (trim_end p s l)
  unfolding trim_end
  trim_end-EndTrimmed s zero h = record {
    after = [];
    splits = refl;
    after_dropped = tt;
    last_kept = inl refl;
  }
  trim_end-EndTrimmed s (suc l) h = elim (Bool-cases (p (get_or s l 0))) [
    | inl e ↦
        let ih = trim_end-EndTrimmed s l (omega arith) in
        rw e (record {
          after = ih.after ++ get_or s l 0 ∷ [];
          splits =
              take-suc s l h
              ∙ ap (λ t. t ++ get_or s l 0 ∷ []) ih.splits
              ∙ append_assoc (trim_end p s l) ih.after (get_or s l 0 ∷ []);
          after_dropped = All-append (λ c. p c ≡ true) ih.after _ ih.after_dropped (e, tt);
          last_kept = ih.last_kept;
        })
    | inr e ↦ rw e (record {
      after = [];
      splits = sym (append-nil _);
      after_dropped = tt;
      last_kept = inr (take l s, get_or s l 0, take-suc s l h, e);
    })
  ]

  record StartTrimmed (s r : Bytes) : Type 0 where
    before : Bytes
    splits : s ≡ before ++ r
    before_dropped : Dropped p before
    head_kept : KeepsHead p r

  trim_start-StartTrimmed : (s : Bytes) → StartTrimmed s (trim_start p s)
  unfolding trim_start
  trim_start-StartTrimmed [] = record {
    before = [];
    splits = refl;
    before_dropped = tt;
    head_kept = inl refl;
  }
  trim_start-StartTrimmed (c ∷ s) = elim (Bool-cases (p c)) [
    | inl e ↦
        let ih = trim_start-StartTrimmed s in
        rw e (record {
          before = c ∷ ih.before;
          splits = ap (◌∷◌ c) ih.splits;
          before_dropped = (e, ih.before_dropped);
          head_kept = ih.head_kept;
        })
    | inr e ↦ rw e (record {
      before = [];
      splits = refl;
      before_dropped = tt;
      head_kept = inr (c, s, refl, e);
    })
  ]

  -- A string that ends with a byte to keep still ends with it.
  trim_start-concat :
      (t : Bytes) (c : ℕ) → p c ≡ false → (u : Bytes) × (trim_start p (t ++ c ∷ []) ≡ u ++ c ∷ [])
  unfolding trim_start
  trim_start-concat [] c e = ([], rw e)
  trim_start-concat (x ∷ t) c e = elim (Bool-cases (p x)) [
    | inl f ↦ rw f (trim_start-concat t c e)
    | inr f ↦ (x ∷ t, rw f)
  ]

  trim_start-KeepsLast : (s : Bytes) → KeepsLast p s → KeepsLast p (trim_start p s)
  unfolding trim_start
  trim_start-KeepsLast s (inl e) = rw e (inl refl)
  trim_start-KeepsLast s (inr (t, c, e, k)) =
      let (u, f) = trim_start-concat t c k in rw e (inr (u, c, f, k))

  pub trim_by-Trims : (s : Bytes) → Trims p s (trim_by p s)
  unfolding trim_by
  trim_by-Trims s =
      let tail = trim_end-EndTrimmed s (length s) (omega arith) in
      let head = trim_start-StartTrimmed (trim_end p s (length s)) in
      record {
        before = head.before;
        after = tail.after;
        splits =
            sym (take_all (length s) s (omega arith))
            ∙ tail.splits
            ∙ ap (λ t. t ++ tail.after) head.splits
            ∙ append_assoc head.before _ tail.after;
        before_dropped = head.before_dropped;
        after_dropped = tail.after_dropped;
        head_kept = head.head_kept;
        last_kept = trim_start-KeepsLast _ tail.last_kept;
      }

-- `trim` takes away exactly the white space at both ends of the string: the rest is unchanged and
-- neither begins nor ends with white space.
pub trim-Trims : (s : Bytes) → Trims is_space s (trim s)
unfolding trim
trim-Trims s = trim_by-Trims is_space s

-- `trim_char` takes away exactly the bytes equal to the one given at both ends of the string: the
-- rest is unchanged and neither begins nor ends with one.
pub trim_char-Trims : (s : Bytes) (c : ℕ) → Trims (λ b. b == c) s (trim_char s c)
unfolding trim_char
trim_char-Trims s c = trim_by-Trims (λ b. b == c) s

abbrev pub HasNoEol : Bytes → Type 0
HasNoEol = All (λ c. is_eol c ≡ false)

-- The string is unchanged or cut at its first end-of-line byte.
pub terminate_at_first_eol_first :
    (s : Bytes)
    → HasNoEol (terminate_at_first_eol s)
      × ((s ≡ terminate_at_first_eol s)
          ⊎ ((c : ℕ) × (rest : Bytes) × (s ≡ terminate_at_first_eol s ++ c ∷ rest)
              × (is_eol c ≡ true)))
unfolding terminate_at_first_eol
terminate_at_first_eol_first [] = (tt, inl refl)
terminate_at_first_eol_first (x ∷ s) = elim (Bool-cases (is_eol x)) [
  | inl e ↦ rw e (tt, inr (x, s, refl, e))
  | inr e ↦ rw e (
      let (clean, ih) = terminate_at_first_eol_first s in
      (
        (e, clean),
        elim ih [
          | inl same ↦ inl (ap (◌∷◌ x) same)
          | inr (c, rest, f, k) ↦ inr (c, rest, ap (◌∷◌ x) f, k)
        ],
      ))
]

module _ (p : ℕ → Bool) where
  kept-get_or :
      (s : Bytes) (i : ℕ) → All (λ c. p c ≡ false) s → i < length s → p (get_or s i 0) ≡ false
  kept-get_or [] i h lt = absurd (omega arith)
  kept-get_or (c ∷ s) zero h lt = h.0
  kept-get_or (c ∷ s) (suc i) h lt = kept-get_or s i h.1 (omega arith)

  trim_end_fixed :
      (s : Bytes) (l : ℕ) → All (λ c. p c ≡ false) s → l ≡ length s → trim_end p s l ≡ s
  unfolding trim_end
  trim_end_fixed [] zero h e = refl
  trim_end_fixed (c ∷ s) zero h e = absurd (omega arith)
  trim_end_fixed s (suc l) h e =
      rw (kept-get_or s l h (omega arith)) (take_all (suc l) s (omega arith))

  trim_start_fixed : (s : Bytes) → All (λ c. p c ≡ false) s → trim_start p s ≡ s
  unfolding trim_start
  trim_start_fixed [] h = refl
  trim_start_fixed (c ∷ s) h = rw h.0

  pub trim_by_fixed : (s : Bytes) → All (λ c. p c ≡ false) s → trim_by p s ≡ s
  unfolding trim_by
  trim_by_fixed s h = ap (trim_start p) (trim_end_fixed s (length s) h refl) ∙ trim_start_fixed s h

pub trim_fixed : (s : Bytes) → All (λ c. is_space c ≡ false) s → trim s ≡ s
unfolding trim
trim_fixed s h = trim_by_fixed is_space s h

-- A line is cut off in front of its end.
pub terminate_at_first_eol_line :
    (s rest : Bytes) → HasNoEol s → terminate_at_first_eol (s ++ b'\n' ∷ rest) ≡ s
unfolding terminate_at_first_eol
terminate_at_first_eol_line [] rest h = refl
terminate_at_first_eol_line (c ∷ s) rest h =
    rw h.0 (ap (◌∷◌ c) (terminate_at_first_eol_line s rest h.1))
